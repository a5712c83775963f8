-- ===== src/Block.antt =====
-- fs.c and common.h: blocks, their headers and reference counts, and the caches of blocks.
pub mod Headers
pub mod Reads
pub mod Coherence
use squashfuse.Common.{
  ℕ, zero, suc, ◌+◌, ◌-◌, ◌^◌, Bool, true, false, not, Option, none, some, List, [], length,
  SqfsErr, ok, err, failed, Outcome, done, fault, null_pointer, out_of_bounds, ◌>>=◌, ◌==◌,
  if◌then◌else◌,
}
use Prim.Native.Nat.{bit_and}
use squashfuse.Cache
use squashfuse.Format.{swapin}
use squashfuse.Fs.{Block, Heap, BlockEntry, BlockCache, Image, System}

-- `sizeof(sqfs_block)` on a 64-bit system.
abbrev pub block_bytes : ℕ
block_bytes = 24

abbrev pub metadata_size : ℕ
metadata_size = 8192

abbrev pub compressed_bit : ℕ
compressed_bit = 2 ^ 15

abbrev pub compressed_bit_block : ℕ
compressed_bit_block = 2 ^ 24

-- `hdr & ~bit` in an `int`, the complement written out; the result fits the header's type.
unfoldable pub md_header : ℕ → Bool × ℕ
md_header hdr =
    let size = bit_and hdr (2 ^ 32 - 1 - compressed_bit) in
    (bit_and hdr compressed_bit == 0, if size == 0 then compressed_bit else size)

unfoldable pub data_header : ℕ → Bool × ℕ
data_header hdr =
    (bit_and hdr compressed_bit_block == 0, bit_and hdr (2 ^ 32 - 1 - compressed_bit_block))

abbrev pub update : (ℕ → Option Block) → ℕ → Option Block → ℕ → Option Block
update blocks p o q = if q == p then o else blocks q

-- A new block at the next address.
unfoldable pub alloc : Heap → Block → ℕ × Heap
alloc h b = (h.next, record { next = h.next + 1; blocks = update h.blocks h.next (some b) })

-- The block that a pointer reaches: the null pointer and a freed block are faults.
unfoldable pub deref : Heap → Option ℕ → Outcome (ℕ × Block)
deref h none = fault null_pointer
deref h (some p) = elim (h.blocks p) [ none ↦ fault out_of_bounds | some b ↦ done (p, b) ]

unfoldable pub block_ref : Option ℕ → Heap → Outcome Heap
block_ref o h = do
  (p, b) ← deref h o
  done (record h { blocks = update h.blocks p (some (record b { refcount = b.refcount + 1 })) })

-- `sqfs_block_dispose`: the block is freed with its last reference.
unfoldable pub block_dispose : Option ℕ → Heap → Outcome Heap
block_dispose o h = do
  (p, b) ← deref h o
  done (record h {
    blocks =
        update h.blocks p
          (if b.refcount - 1 == 0 then none else some (record b { refcount = b.refcount - 1 }));
  })

-- `sqfs_block_cache_dispose`.
unfoldable pub block_cache_dispose : BlockEntry → Heap → Outcome Heap
block_cache_dispose e h = block_dispose e.block h

-- The `error:` label of `sqfs_block_read`.
unfoldable pub give_up : SqfsErr → ℕ → Heap → Outcome (SqfsErr × Option ℕ × Heap)
give_up e p h = do h' ← block_dispose (some p) h; done (e, none, h')

-- The block at an address gets its bytes and its size.
unfoldable pub block_fill : ℕ → List ℕ → Heap → Heap
block_fill p bytes h = record h {
  blocks = update h.blocks p (some (record { size = length bytes; bytes = bytes; refcount = 1 }));
}

module _ (img : Image) where
  open img.system use {grants, pread}

  -- `sqfs_block_read` once the stored bytes are read.
  unfoldable pub block_decode : Bool → ℕ → ℕ → Heap → List ℕ → Outcome (SqfsErr × Option ℕ × Heap)
  block_decode compressed outsize p h input =
      let (e, output) = img.decompressor input outsize in
      if compressed
      then (if grants outsize
          then (if failed e then give_up e p h else done (ok, some p, block_fill p output h))
          else give_up err p h)
      else done (ok, some p, block_fill p input h)

  -- `sqfs_block_read`: the pointer is null on every error.
  unfoldable pub block_read : ℕ → Bool → ℕ → ℕ → Heap → Outcome (SqfsErr × Option ℕ × Heap)
  block_read pos compressed size outsize h =
      let (p, h₁) = alloc h (record { size = 0; bytes = []; refcount = 1 }) in
      if grants block_bytes
      then (if grants size
          then elim (pread size (pos + img.offset)) [
            | none ↦ give_up err p h₁
            | some input ↦
                if length input == size
                then block_decode compressed outsize p h₁ input
                else give_up err p h₁
          ]
          else give_up err p h₁)
      else done (err, none, h)

  -- `sqfs_md_block_read`: the second part is `*data_size`, and the third `*block`, which stays as
  -- it was where the header cannot be read.
  unfoldable pub md_block_read : ℕ → Option ℕ → Heap → Outcome (SqfsErr × ℕ × Option ℕ × Heap)
  md_block_read pos old h = elim (pread 2 (pos + img.offset)) [
    | none ↦ done (err, 0, old, h)
    | some hdr ↦
        let (compressed, size) = md_header (swapin 2 hdr) in
        if not (length hdr == 2) then done (err, 0, old, h) else do
          (e, block, h') ← block_read (pos + 2) compressed size metadata_size h
          done (e, 2 + size, block, h')
  ]

  unfoldable pub data_block_read : ℕ → ℕ → Heap → Outcome (SqfsErr × Option ℕ × Heap)
  data_block_read pos hdr h =
      let (compressed, size) = data_header hdr in block_read pos compressed size img.sb.block_size h

-- A reference for the caller, after which the entry may be evicted.
unfoldable pub hold :
    BlockEntry → Cache.Cache BlockEntry → Heap → Outcome (SqfsErr × BlockEntry × BlockCache)
hold entry c h = do h' ← block_ref entry.block h; done (ok, entry, record { cache = c; heap = h' })

-- An entry that is not valid is read; it becomes valid if that succeeds.
unfoldable pub fill_entry :
    (BlockEntry → Heap → Outcome (SqfsErr × BlockEntry × Heap))
    → ℕ
    → BlockEntry
    → Cache.Cache BlockEntry
    → Heap
    → Outcome (SqfsErr × BlockEntry × BlockCache)
fill_entry read i old c h = do
  (e, new, h') ← read old h
  c' ← Cache.store c i new
  (if failed e
      then done (e, new, record { cache = Cache.put c' i; heap = h' })
      else Cache.entry_mark_valid c' i >>= λ marked. hold new (Cache.put marked i) h')

-- What `sqfs_md_cache` and `sqfs_data_cache` share: the entry of an index, filled by `read` if it is
-- not valid. `read` gets the entry as it is and returns it with what it writes, an error included.
-- On success the block has one reference more, the caller's.
unfoldable pub through_cache :
    (BlockEntry → Heap → Outcome (SqfsErr × BlockEntry × Heap))
    → ℕ
    → BlockCache
    → Outcome (SqfsErr × BlockEntry × BlockCache)
through_cache read idx bc = do
  (i, c, h) ← Cache.get block_cache_dispose bc.cache idx bc.heap
  old ← Cache.load c i
  valid ← Cache.entry_valid c i
  (if valid then hold old (Cache.put c i) h else fill_entry read i old c h)
