-- ===== src/Metadata.antt =====
-- fs.c: reading metadata through the cache of metadata blocks.
pub mod Stream
pub mod Reads
pub mod Failing
use squashfuse.Common.{
  ℕ, zero, suc, ◌+◌, ◌-◌, ◌/◌, ◌%◌, ◌^◌, Bool, true, false, Option, none, some, List, [], ◌++◌,
  length, take, drop, SqfsErr, ok, err, failed, Outcome, done, fault, out_of_bounds, out_of_fuel,
  ◌>>=◌, ltb, leb, ◌==◌, if◌then◌else◌,
}
use squashfuse.Block.{md_block_read, through_cache, deref, block_dispose}
use squashfuse.Fs.{Block, BlockEntry, BlockCache, Heap, Image, Cursor}

abbrev pub size_mod : ℕ
size_mod = 2 ^ 64

-- `sqfs_md_cursor_inode`: `id & 0xffff` is the remainder by 2^16. The sum is of 64 bits.
unfoldable pub cursor_inode : ℕ → ℕ → Cursor
cursor_inode id base = record { block = (id / 2 ^ 16 + base) % size_mod; offset = id % 2 ^ 16 }

-- What one block gives to a read of `size` bytes: the subtraction of the offset wraps around.
unfoldable pub amount : ℕ → ℕ → ℕ → ℕ
amount block_size offset size =
    let left = (block_size + size_mod - offset) % size_mod in if ltb size left then size else left

-- `memcpy` from a block; with a null `buf` nothing is copied.
unfoldable pub copy : Bool → Block → ℕ → ℕ → Outcome (List ℕ)
copy wanted b offset n =
    if wanted
    then (if leb (offset + n) (length b.bytes)
        then done (take n (drop offset b.bytes))
        else fault out_of_bounds)
    else done []

module _ (img : Image) where
  -- `sqfs_md_block_read` into a cache entry.
  unfoldable pub md_entry_read : ℕ → BlockEntry → Heap → Outcome (SqfsErr × BlockEntry × Heap)
  md_entry_read pos old h = do
    (e, data_size, block, h') ← md_block_read img pos old.block h
    done (e, record { block = block; data_size = data_size }, h')

  -- `sqfs_md_cache`: the block at a position, held, and the position behind it.
  unfoldable pub md_cache : ℕ → BlockCache → Outcome (SqfsErr × Option ℕ × ℕ × BlockCache)
  md_cache pos bc = do
    (e, entry, bc') ← through_cache (md_entry_read pos) pos bc
    (if failed e
        then done (e, none, pos, bc')
        else done (ok, entry.block, pos + entry.data_size, bc'))

  -- The loop of `sqfs_md_read`, on fuel. The results are the error, the cursor, what was copied
  -- into `buf` (`wanted` is false if that is null), and the cache.
  unfoldable pub md_read_loop :
      ℕ
      → Bool
      → Cursor
      → ℕ
      → ℕ
      → List ℕ
      → BlockCache
      → Outcome (SqfsErr × Cursor × List ℕ × BlockCache)
  md_read_loop zero wanted cur pos size buf bc = fault out_of_fuel
  md_read_loop (suc fuel) wanted cur pos size buf bc = elim (size == 0) [
    | true ↦ done (ok, cur, buf, bc)
    | false ↦ do
      (e, held, pos', bc') ← md_cache pos bc
      elim (failed e) [
        | true ↦ done (e, cur, buf, bc')
        | false ↦ do
          (p, b) ← deref bc'.heap held
          let n = amount b.size cur.offset size
          copied ← copy wanted b cur.offset n
          let offset = (cur.offset + n) % size_mod
          h ← block_dispose held bc'.heap
          md_read_loop fuel wanted
              (if offset == b.size
                then record { block = pos'; offset = 0 }
                else record { block = cur.block; offset = offset })
              pos' (size - n) (buf ++ copied) (record bc' { heap = h })
      ]
  ]

  -- Each round but one at most takes a byte, if no block is empty.
  unfoldable pub md_read :
      Bool → Cursor → ℕ → BlockCache → Outcome (SqfsErr × Cursor × List ℕ × BlockCache)
  md_read wanted cur size bc = md_read_loop (size + 2) wanted cur cur.block size [] bc
