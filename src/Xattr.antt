-- ===== src/Xattr.antt =====
-- xattr.c and xattr.h: extended attributes, read by an iterator that remembers which of its cursors
-- are known. A null `buf`, `name` or `size` is the function that does not deliver.
pub mod Find
pub mod Attributes
pub mod Walk
pub mod Namespaces
pub mod Search
use squashfuse.Common.{
  ℕ, zero, suc, ◌+◌, ◌-◌, ◌*◌, ◌/◌, ◌%◌, ◌^◌, Bool, true, false, not, Option, none, some, List, [],
  ◌∷◌, ◌++◌, length, SqfsErr, ok, err, ltb, leb, ◌==◌, if◌then◌else◌,
}
use squashfuse.Actions.{Action, ◌>>=◌, pure, fail, md_bytes, md_skip, table_bytes}
use squashfuse.Format.{swapin, sizeof}
use squashfuse.Format.Tables.{
  XattrEntry, XattrVal, XattrId, XattrIdTable, xattr_entry_widths, xattr_val_widths,
  xattr_id_table_widths, swapin_xattr_entry, swapin_xattr_val, swapin_xattr_id,
  swapin_xattr_id_table,
}
use squashfuse.Fs.{Image, Cursor, System, Table}
use squashfuse.Format.Super.{SuperBlock}
use squashfuse.Identifiers.{invalid_blk}
use squashfuse.Inode.{Inode, invalid_xattr}
use squashfuse.File.{as_err}
use squashfuse.Metadata.{cursor_inode}
use squashfuse.Tables.{table_init}

-- The iterator. The flags `CURS_VSIZE`, `CURS_VAL` and `CURS_NEXT` of `cursors` are Booleans.
pub record Xattr : Type 0 where
  pub has_vsize : Bool
  pub has_val : Bool
  pub has_next : Bool
  pub c_name : Cursor
  pub c_vsize : Cursor
  pub c_val : Cursor
  pub c_next : Cursor
  pub remain : ℕ
  pub type : ℕ
  pub ool : Bool
  pub entry : XattrEntry
  pub val : XattrVal

-- `SQFS_XATTR_PREFIX_MAX`.
abbrev pub prefix_max : ℕ
prefix_max = 2

-- `sqfs_xattr_prefixes`: "user.", "trusted." and "security.".
abbrev pub user_prefix : List ℕ
user_prefix = 117 ∷ 115 ∷ 101 ∷ 114 ∷ 46 ∷ []

abbrev pub trusted_prefix : List ℕ
trusted_prefix = 116 ∷ 114 ∷ 117 ∷ 115 ∷ 116 ∷ 101 ∷ 100 ∷ 46 ∷ []

abbrev pub security_prefix : List ℕ
security_prefix = 115 ∷ 101 ∷ 99 ∷ 117 ∷ 114 ∷ 105 ∷ 116 ∷ 121 ∷ 46 ∷ []

unfoldable pub prefix : ℕ → List ℕ
prefix type =
    if type == 0 then user_prefix else (if type == 1 then trusted_prefix else security_prefix)

-- `sqfs_xattr_init`: what it leaves in `xattr_info` and `xattr_table`.
unfoldable pub xattr_init :
    System → ℕ → SuperBlock → XattrIdTable → Table → SqfsErr × XattrIdTable × Table
xattr_init system offset sb info table =
    let start = sb.xattr_id_table_start in
    let size = sizeof xattr_id_table_widths in
    if start == invalid_blk then (ok, info, table) else elim (system.pread size (start + offset)) [
      | none ↦ (err, info, table)
      | some bytes ↦
          let info' = swapin_xattr_id_table bytes in
          let (e, table') = table_init system table (start + size + offset) 16 info'.xattr_ids in
          if length bytes == size then (e, info', table') else (err, info, table)
    ]

abbrev zero_cursor : Cursor
zero_cursor = record { block = 0; offset = 0 }

-- What `sqfs_xattr_open` does not write is not read before it is written.
abbrev pub closed : Xattr
closed = record {
  has_vsize = false;
  has_val = false;
  has_next = true;
  c_name = zero_cursor;
  c_vsize = zero_cursor;
  c_val = zero_cursor;
  c_next = zero_cursor;
  remain = 0;
  type = 0;
  ool = false;
  entry = record { type = 0; size = 0 };
  val = record { vsize = 0 };
}

module _ (img : Image) where
  unfoldable pub xattr_open : Inode → Action Xattr
  xattr_open i =
      if img.xattr_info.xattr_ids == 0
      then pure closed
      else (if i.xattr == invalid_xattr then pure closed else (do
        bytes ← as_err (table_bytes img img.xattr_table i.xattr)
        let info = swapin_xattr_id bytes
        pure (record closed {
          c_next = cursor_inode info.xattr img.xattr_info.xattr_table_start;
          remain = info.count;
        })))

  -- `sqfs_xattr_name` into a buffer, without the prefix.
  unfoldable pub xattr_name : Xattr → Action (List ℕ × Xattr)
  xattr_name x = do
    (bytes, cur) ← md_bytes img x.c_name x.entry.size
    pure (bytes, record x { c_vsize = cur; has_vsize = true })

  -- With the prefix.
  unfoldable pub xattr_full_name : Xattr → Action (List ℕ × Xattr)
  xattr_full_name x = do (bytes, x') ← xattr_name x; pure (prefix x.type ++ bytes, x')

  unfoldable pub xattr_skip_name : Xattr → Action Xattr
  xattr_skip_name x = do
    cur ← md_skip img x.c_name x.entry.size
    pure (record x { c_vsize = cur; has_vsize = true })

  -- The size of a value at a cursor.
  unfoldable pub read_val : Cursor → Action (XattrVal × Cursor)
  read_val cur = do
    (bytes, cur') ← md_bytes img cur (sizeof xattr_val_widths)
    pure (swapin_xattr_val bytes, cur')

  -- A value out of line: what stands inline is its position.
  unfoldable pub follow : Xattr → Action Xattr
  follow x = do
    (bytes, next) ← md_bytes img x.c_val 8
    (val, cur) ← read_val (cursor_inode (swapin 8 bytes) img.xattr_info.xattr_table_start)
    pure (record x { c_next = next; has_next = true; c_val = cur; val = val })

  -- `sqfs_xattr_value_size`: the size is that of `val`.
  unfoldable pub xattr_value_size : Xattr → Action Xattr
  xattr_value_size x = do
    x₁ ← (if x.has_vsize then pure x else xattr_skip_name x)
    (val, cur) ← read_val x₁.c_vsize
    let x₂ = record x₁ { c_val = cur; val = val }
    x₃ ← (if x₂.ool then follow x₂ else pure x₂)
    pure (record x₃ { has_val = true })

  -- A value inline ends where the next attribute begins.
  abbrev pub past_value : Xattr → Cursor → Xattr
  past_value x cur = if x.ool then x else record x { c_next = cur; has_next = true }

  unfoldable pub xattr_value : Xattr → Action (List ℕ × Xattr)
  xattr_value x = do
    x₁ ← (if x.has_val then pure x else xattr_value_size x)
    (bytes, cur) ← md_bytes img x₁.c_val x₁.val.vsize
    pure (bytes, past_value x₁ cur)

  unfoldable pub xattr_skip_value : Xattr → Action Xattr
  xattr_skip_value x = do
    x₁ ← (if x.has_val then pure x else xattr_value_size x)
    cur ← md_skip img x₁.c_val x₁.val.vsize
    pure (past_value x₁ cur)

  -- `entry.type & 0xff` is the type, and the bit above it the flag.
  unfoldable pub xattr_read : Xattr → Action Xattr
  xattr_read x = if x.remain == 0 then fail err else (do
    x₁ ← (if x.has_next then pure x else xattr_skip_value (record x { ool = false }))
    (bytes, cur) ← md_bytes img x₁.c_next (sizeof xattr_entry_widths)
    let e = swapin_xattr_entry bytes
    (if ltb prefix_max (e.type % 2 ^ 8)
        then fail err
        else pure (record x₁ {
          c_name = cur;
          entry = e;
          type = e.type % 2 ^ 8;
          ool = e.type / 2 ^ 8 % 2 == 1;
          remain = x₁.remain - 1;
          has_vsize = false;
          has_val = false;
          has_next = false;
        })))
