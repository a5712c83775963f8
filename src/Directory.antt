-- ===== src/Directory.antt =====
-- dir.c and dir.h: reading directories, and looking up names and paths.
pub mod Lookup
pub mod Listing
pub mod Entries
pub mod Iteration
pub mod Search
pub mod Names
use squashfuse.Common.{
  ℕ, zero, suc, ◌+◌, ◌-◌, ◌*◌, ◌%◌, ◌^◌, Bool, true, false, Option, none, some, List, [], err,
  out_of_fuel, ltb, leb, ◌==◌, if◌then◌else◌,
}
use squashfuse.Actions.{Action, ◌>>=◌, pure, fail, crash, md_bytes, md_skip}
use squashfuse.Format.Dirs.{
  DirIndex, DirEntry, DirHeader, dir_index_widths, dir_entry_widths, dir_header_widths,
  swapin_dir_index, swapin_dir_entry, swapin_dir_header,
}
use squashfuse.Format.{sizeof}
use squashfuse.Fs.{Image, Cursor}
use squashfuse.Block.{metadata_size}
use squashfuse.Inode.{Inode, as_dir, has_type, s_ifdir}

pub record Dir : Type 0 where
  pub cur : Cursor
  pub offset : ℕ
  pub total : ℕ
  pub header : DirHeader

-- `sqfs_dir_entry`; the name is empty where the buffer is null.
pub record Dirent : Type 0 where
  pub inode : ℕ
  pub inode_number : ℕ
  pub type : ℕ
  pub name : List ℕ
  pub name_size : ℕ
  pub offset : ℕ
  pub next_offset : ℕ

-- `SQUASHFS_NAME_LEN`.
abbrev pub name_len : ℕ
name_len = 256

-- The sum of an inode number and a signed one of 16 bits, in 32 bits.
unfoldable pub add_signed16 : ℕ → ℕ → ℕ
add_signed16 n d = (n + d + (if ltb d (2 ^ 15) then 0 else 2 ^ 32 - 2 ^ 16)) % 2 ^ 32

module _ (img : Image) where
  -- `sqfs_dir_md_read`.
  unfoldable pub dir_md_read : Dir → ℕ → Action (List ℕ × Dir)
  dir_md_read d size = do
    (bytes, cur) ← md_bytes img d.cur size
    pure (bytes, record d { cur = cur; offset = d.offset + size })

  -- `sqfs_dir_open` without an offset.
  unfoldable pub dir_start : Inode → Action Dir
  dir_start i =
      if has_type s_ifdir i.base.mode
      then (do
        x ← as_dir i
        pure (record {
          cur = record { block = x.start_block + img.sb.directory_table_start; offset = x.offset };
          offset = 0;
          total = if leb x.dir_size 3 then 0 else x.dir_size - 3;
          header = record { count = 0; start_block = 0; inode_number = 0 };
        }))
      else fail err

  -- The loop of `sqfs_dir_next`, on fuel: the second part is whether an entry follows.
  unfoldable pub next_header : ℕ → Dir → Action (Dir × Bool)
  next_header zero d = crash out_of_fuel
  next_header (suc fuel) d = elim (d.header.count == 0) [
    | false ↦ pure (d, true)
    | true ↦ elim (leb d.total d.offset) [
      | true ↦ pure (d, false)
      | false ↦ do
        (bytes, d') ← dir_md_read d (sizeof dir_header_widths)
        let h = swapin_dir_header bytes
        next_header fuel (record d' { header = record h { count = (h.count + 1) % 2 ^ 32 } })
    ]
  ]

  -- A round raises the offset, up to the total.
  abbrev pub header_fuel : Dir → ℕ
  header_fuel d = suc (suc (d.total - d.offset))

  -- `named` is false if the entry has no buffer for the name.
  unfoldable pub read_name : Bool → Dir → ℕ → Action (List ℕ × Dir)
  read_name true d size = dir_md_read d size
  read_name false d size = do
    cur ← md_skip img d.cur size
    pure ([], record d { cur = cur; offset = d.offset + size })

  -- `sqfs_dir_next` behind its loop; `start` is the offset that the call began at.
  unfoldable pub read_entry : Bool → ℕ → Dir → Action (Dir × Dirent)
  read_entry named start d = do
    (bytes, d₁) ← dir_md_read d (sizeof dir_entry_widths)
    let e = swapin_dir_entry bytes
    let h = d₁.header
    let size = e.size + 1
    (if ltb name_len size then fail err else (do
      (name, d₂) ← read_name named (record d₁ { header = record h { count = h.count - 1 } }) size
      pure (
        d₂,
        record {
          inode = h.start_block * 2 ^ 16 + e.offset;
          inode_number = add_signed16 h.inode_number e.inode_number;
          type = e.type;
          name = name;
          name_size = size;
          offset = start;
          next_offset = d₂.offset;
        },
      )))

  unfoldable pub dir_next : Bool → Dir → Action (Dir × Option Dirent)
  dir_next named d = do
    (d₁, more) ← next_header (header_fuel d) d
    elim more [
      | false ↦ pure (d₁, none)
      | true ↦ do (d₂, e) ← read_entry named d.offset d₁; pure (d₂, some e)
    ]

  -- The loop of `sqfs_dir_ff_header`. `func` gets the cursor behind an index and says whether to
  -- stop; what it skips is behind the cursor that it returns.
  unfoldable pub ff_loop :
      (Cursor → DirIndex → Action (Cursor × Bool)) → ℕ → Cursor → Dir → Action Dir
  ff_loop func zero cur d = pure d
  ff_loop func (suc n) cur d = do
    (bytes, cur₁) ← md_bytes img cur (sizeof dir_index_widths)
    let idx = swapin_dir_index bytes
    (cur₂, stop) ← func cur₁ idx
    elim stop [
      | true ↦ pure d
      | false ↦ ff_loop func n cur₂ (record d {
        cur = record {
          block = idx.start_block + img.sb.directory_table_start;
          offset = d.cur.offset;
        };
        offset = idx.index;
      })
    ]

  unfoldable pub ff_header : (Cursor → DirIndex → Action (Cursor × Bool)) → Inode → Dir → Action Dir
  ff_header func i d = do
    x ← as_dir i
    (if x.idx_count == 0 then pure d else (do
      d' ← ff_loop func x.idx_count i.next d
      pure (record d' {
        cur = record { block = d'.cur.block; offset = (d'.cur.offset + d'.offset) % metadata_size };
      })))

  -- `sqfs_dir_ff_offset_f`.
  unfoldable pub ff_offset_test : ℕ → Cursor → DirIndex → Action (Cursor × Bool)
  ff_offset_test offset cur idx =
      if leb offset idx.index
      then pure (cur, true)
      else (do c ← md_skip img cur ((idx.size + 1) % 2 ^ 32); pure (c, false))

  -- The loop of `sqfs_dir_ff_offset`, on fuel: every entry raises the offset.
  unfoldable pub skip_entries : ℕ → ℕ → Dir → Action Dir
  skip_entries zero offset d = crash out_of_fuel
  skip_entries (suc fuel) offset d = elim (ltb d.offset offset) [
    | false ↦ pure d
    | true ↦ do
      (d', e) ← dir_next false d
      elim e [ none ↦ pure d' | some _ ↦ skip_entries fuel offset d' ]
  ]

  unfoldable pub ff_offset : Inode → Dir → ℕ → Action Dir
  ff_offset i d offset = do
    d₁ ← ff_header (ff_offset_test offset) i d
    d₂ ← skip_entries (offset + 1) offset d₁
    (if d₂.offset == offset then pure d₂ else fail err)

  unfoldable pub dir_open : Inode → ℕ → Action Dir
  dir_open i offset = do d ← dir_start i; (if offset == 0 then pure d else ff_offset i d offset)
