-- ===== src/File.antt =====
-- file.c and file.h: the blocks of a file, its fragment, and reading a range of its contents.
-- Offsets and sizes of type `off_t` are not negative here.
pub mod Index
pub mod Range
pub mod Blocks
use squashfuse.Common.{
  ℕ, ◌+◌, ◌-◌, ◌*◌, ◌/◌, ◌%◌, ◌^◌, Bool, true, false, Option, none, some, List, SqfsErr, err,
  failed, Outcome, done, fault, division_by_zero, leb, ltb, ◌==◌, if◌then◌else◌,
}
use squashfuse.Actions.{
  Answer, got, failure, Action, ◌>>=◌, pure, fail, crash, md_bytes, table_bytes,
}
use squashfuse.Block.{data_header, deref, block_dispose}
use squashfuse.Data.{data_cache}
use squashfuse.Format.{swapin}
use squashfuse.Format.Tables.{FragmentEntry, swapin_fragment_entry}
use squashfuse.Fs.{Image, Cursor, Caches, Block, Heap, BlockCache}
use squashfuse.Inode.{Inode, RegData, as_reg, has_type, s_ifreg}
use squashfuse.Metadata.{size_mod, copy}
use squashfuse.Tables.{divceil}

-- `SQUASHFS_INVALID_FRAG`.
abbrev pub invalid_frag : ℕ
invalid_frag = 0xffffffff

-- The cache that made a block.
pub data Home : Type 0 where
  in_data in_fragments : Home

abbrev pub cache_of : Home → Caches → BlockCache
cache_of in_data s = s.data_blocks
cache_of in_fragments s = s.fragments

abbrev pub with_cache : Home → BlockCache → Caches → Caches
with_cache in_data bc s = record s { data_blocks = bc }
with_cache in_fragments bc s = record s { fragments = bc }

abbrev flatten_error : {A : Type 0} → Outcome (Answer A × Caches) → Outcome (Answer A × Caches)
flatten_error (fault e) = fault e
flatten_error (done (got a, s)) = done (got a, s)
flatten_error (done (failure e, s)) = done (failure err, s)

abbrev held_answer :
    Home → Outcome (SqfsErr × Option ℕ × BlockCache) → Caches → Outcome (Answer (Option ℕ) × Caches)
held_answer home (fault e) s = fault e
held_answer home (done (e, p, bc)) s =
    done (if failed e then failure e else got p, with_cache home bc s)

-- The copy of so many bytes from an offset, and the block's release.
abbrev released :
    Home → BlockCache → Caches → List ℕ → Outcome Heap → Outcome (Answer (List ℕ) × Caches)
released home bc s bytes (fault e) = fault e
released home bc s bytes (done h) = done (got bytes, with_cache home (record bc { heap = h }) s)

abbrev copied : Home → Option ℕ → Caches → Outcome (List ℕ) → Outcome (Answer (List ℕ) × Caches)
copied home p s (fault e) = fault e
copied home p s (done bytes) =
    let bc = cache_of home s in released home bc s bytes (block_dispose p bc.heap)

abbrev copied_answer :
    Home
    → Option ℕ
    → (ℕ → ℕ)
    → ℕ
    → Caches
    → Outcome (ℕ × Block)
    → Outcome (Answer (List ℕ) × Caches)
copied_answer home p amount offset s (fault e) = fault e
copied_answer home p amount offset s (done (q, b)) =
    copied home p s (copy true b offset (amount b.size))

-- `if (err) return SQFS_ERR`, whatever the error was.
abbrev pub as_err : {A : Type 0} → Action A → Action A
as_err m s = flatten_error (m s)

unfoldable pub hold_block : Image → Home → ℕ → ℕ → Action (Option ℕ)
hold_block img home pos hdr s = held_answer home (data_cache img pos hdr (cache_of home s)) s

-- `memcpy` from a block that is held, of an amount that may depend on its size; the block is then
-- given back.
unfoldable pub copy_block : Home → Option ℕ → (ℕ → ℕ) → ℕ → Action (List ℕ)
copy_block home p amount offset s =
    copied_answer home p amount offset s (deref (cache_of home s).heap p)

pub record Blocklist : Type 0 where
  pub remain : ℕ
  pub cur : Cursor
  pub started : Bool
  pub pos : ℕ
  pub block : ℕ
  pub header : ℕ
  pub input_size : ℕ

module _ (img : Image) where
  unfoldable pub frag_entry : ℕ → Action FragmentEntry
  frag_entry idx =
      if idx == invalid_frag
      then fail err
      else (do bytes ← table_bytes img img.frag_table idx; pure (swapin_fragment_entry bytes))

  -- The offset and the size of the fragment in its block, and the block, held.
  unfoldable pub frag_block : Inode → Action (ℕ × ℕ × Option ℕ)
  frag_block i =
      if has_type s_ifreg i.base.mode
      then (do
        r ← as_reg i
        frag ← frag_entry r.frag_idx
        p ← as_err (hold_block img in_fragments frag.start_block frag.size)
        (if img.sb.block_size == 0
            then crash division_by_zero
            else pure (r.frag_off, r.file_size % img.sb.block_size, p)))
      else fail err

  unfoldable pub blocklist_count : RegData → Action ℕ
  blocklist_count r =
      if img.sb.block_size == 0
      then crash division_by_zero
      else (if r.frag_idx == invalid_frag
          then pure (divceil r.file_size img.sb.block_size)
          else pure (r.file_size / img.sb.block_size))

  unfoldable pub blocklist_init : Inode → Action Blocklist
  blocklist_init i = do
    r ← as_reg i
    n ← blocklist_count r
    pure (record {
      remain = n;
      cur = i.next;
      started = false;
      pos = 0;
      block = r.start_block;
      header = 0;
      input_size = 0;
    })

  unfoldable pub blocklist_next : Blocklist → Action Blocklist
  blocklist_next bl = if bl.remain == 0 then fail err else (do
    (bytes, cur) ← md_bytes img bl.cur 4
    let header = swapin 4 bytes
    pure (record {
      remain = bl.remain - 1;
      cur = cur;
      started = true;
      pos = if bl.started then (bl.pos + img.sb.block_size) % size_mod else bl.pos;
      block = (bl.block + bl.input_size) % size_mod;
      header = header;
      input_size = (data_header header).1;
    }))
