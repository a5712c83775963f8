-- ===== src/Data.antt =====
-- fs.c: data blocks through a cache of them.
pub mod Cached
use squashfuse.Common.{
  ℕ, Bool, true, false, Option, none, some, List, SqfsErr, ok, failed, Outcome, done, ◌>>=◌,
  if◌then◌else◌,
}
use squashfuse.Block.{data_block_read, through_cache}
use squashfuse.Fs.{BlockEntry, BlockCache, Heap, Image}

module _ (img : Image) where
  -- `sqfs_data_block_read` into a cache entry, which keeps its `data_size`.
  unfoldable pub data_entry_read : ℕ → ℕ → BlockEntry → Heap → Outcome (SqfsErr × BlockEntry × Heap)
  data_entry_read pos hdr old h = do
    (e, block, h') ← data_block_read img pos hdr h
    done (e, record old { block = block }, h')

  -- `sqfs_data_cache`: the block at a position, held.
  unfoldable pub data_cache : ℕ → ℕ → BlockCache → Outcome (SqfsErr × Option ℕ × BlockCache)
  data_cache pos hdr bc = do
    (e, entry, bc') ← through_cache (data_entry_read pos hdr) pos bc
    (if failed e then done (e, none, bc') else done (ok, entry.block, bc'))
