-- ===== src/Data/Cached.antt =====
-- What `sqfs_data_cache` yields from a coherent state of its cache.
use squashfuse.Common.{ℕ, ◌<◌, ◌≡◌, refl, sym, ◌∙◌, Option, some, List, ok, done}
use squashfuse.Block.{data_header, data_block_read}
use squashfuse.Block.Reads.{IsGranted, block_at, block_read_lem}
use squashfuse.Block.Coherence.{counted_block, held, IsCoherent}
use squashfuse.Block.Coherence.Through.{Reads, through_cache-Holds}
use squashfuse.Data.{data_entry_read, data_cache}
use squashfuse.Fs.{BlockCache, Image}

-- The bytes of the data block at a position under its header.
unfoldable pub data_at : Image → ℕ → ℕ → Option (List ℕ)
data_at img pos hdr =
    let (compressed, size) = data_header hdr in block_at img pos compressed size img.sb.block_size

-- What an entry should hold, where `hdr_of` gives the header of the block at a position.
abbrev pub IsDataOf : Image → (ℕ → ℕ) → ℕ → ℕ → List ℕ → Type 0
IsDataOf img hdr_of pos n bytes = data_at img pos (hdr_of pos) ≡ some bytes

module _ (img : Image) (all : IsGranted img) (hdr_of : ℕ → ℕ) (pos : ℕ) (bytes : List ℕ)
    (there : data_at img pos (hdr_of pos) ≡ some bytes) where
  data_entry_read-Reads : Reads (IsDataOf img hdr_of) pos (data_entry_read img pos (hdr_of pos))
  unfolding data_entry_read data_block_read data_at
  data_entry_read-Reads =
      let (compressed, size) = data_header (hdr_of pos) in
      record {
        bytes = bytes;
        size = λ old. old.data_size;
        right = λ old. there;
        reads = λ old h.
            rw (block_read_lem h img all pos compressed size img.sb.block_size bytes there) refl;
      }

  -- What a call returns that finds the block.
  pub record HoldsData (bc : BlockCache) : Type 0 where
    pub address : ℕ
    pub state : BlockCache
    pub coherent : IsCoherent (IsDataOf img hdr_of) state
    pub live : state.heap.blocks address ≡ some (counted_block bytes 1)
    pub returns :
        data_cache img pos (hdr_of pos) bc
        ≡ done (ok, some address, record state { heap = held state.heap address bytes })

  -- Where all allocations succeed and the data block at a position that is not 0 is in the file,
  -- under headers that depend on the position only, from a coherent state of the cache
  -- `sqfs_data_cache` succeeds, whether it finds the block or reads it after an eviction: the
  -- caller holds that block's bytes with the second reference, and without it the state is
  -- coherent again.
  pub data_cache-HoldsData :
      (bc : BlockCache) → IsCoherent (IsDataOf img hdr_of) bc → 0 < pos → HoldsData bc
  unfolding data_cache
  data_cache-HoldsData bc c behind =
      let x =
        through_cache-Holds (IsDataOf img hdr_of) bc c pos behind
          (data_entry_read img pos (hdr_of pos)) data_entry_read-Reads in
      let same : some bytes ≡ some x.bytes = sym there ∙ x.right in
      let same_bytes : x.bytes ≡ bytes = cc in
      record {
        address = x.address;
        state = x.state;
        coherent = x.coherent;
        live = rw same_bytes at x.live;
        returns = rw (x.returns, x.block, same_bytes) refl;
      }
