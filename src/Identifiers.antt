-- ===== src/Identifiers.antt =====
-- fs.c: the numbers that stand in lookup tables, user and group identifiers and the identifiers of
-- exported inodes.
pub mod Lookup
use squashfuse.Common.{
  ℕ, ◌+◌, ◌-◌, ◌%◌, ◌^◌, Bool, true, false, not, Option, none, some, List, SqfsErr, ok, unsup,
  failed, Outcome, done, ◌>>=◌, ◌==◌, if◌then◌else◌,
}
use squashfuse.Format.{swapin}
use squashfuse.Fs.{Table, BlockCache, Image}
use squashfuse.Tables.{table_get}

-- `sqfs_id_get`.
unfoldable pub id_get : Image → ℕ → BlockCache → Outcome (SqfsErr × Option ℕ × BlockCache)
id_get img idx bc = do
  (e, bytes, bc') ← table_get img img.id_table idx bc
  done (e, if failed e then none else some (swapin 4 bytes), bc')

-- `SQUASHFS_INVALID_BLK`, -1 in 64 bits.
abbrev pub invalid_blk : ℕ
invalid_blk = 2 ^ 64 - 1

unfoldable pub export_ok : Image → Bool
export_ok img = not (img.sb.lookup_table_start == invalid_blk)

-- `sqfs_export_inode`: the subtraction is of 32 bits.
unfoldable pub export_inode : Image → ℕ → BlockCache → Outcome (SqfsErr × Option ℕ × BlockCache)
export_inode img n bc = if not (export_ok img) then done (unsup, none, bc) else (do
  (e, bytes, bc') ← table_get img img.export_table ((n + 2 ^ 32 - 1) % 2 ^ 32) bc
  done (e, if failed e then none else some (swapin 8 bytes), bc'))
