-- ===== src/Metadata/Stream.antt =====
-- The metadata as a stream: blocks one behind the other, each found from the size of the one before.
use squashfuse.Common.{
  ℕ, ◌+◌, ◌≤◌, ◌<◌, ◌≡◌, refl, sym, ◌∙◌, Option, none, some, List, [], ◌∷◌, ◌++◌, drop, length, ok,
  done, ◌==◌, if◌then◌else◌, arith, Option-cases, inl, inr,
}
use squashfuse.Format.{swapin}
use squashfuse.Fs.{BlockCache, Heap, Image}
use squashfuse.Block.{md_header, metadata_size, md_block_read}
use squashfuse.Block.Reads.{IsGranted, with_block, block_at, block_read_lem}
use squashfuse.Block.Coherence.{counted_block, held, IsCoherent}
use squashfuse.Block.Coherence.Through.{Reads, through_cache-Holds}
use squashfuse.Metadata.{size_mod, md_entry_read, md_cache}

-- The bytes of the metadata block at a position, and what it takes up in the file.
unfoldable pub md_at : Image → ℕ → Option (List ℕ × ℕ)
md_at img pos = elim (img.system.pread 2 (pos + img.offset)) [
  | none ↦ none
  | some hdr ↦
      let (compressed, size) = md_header (swapin 2 hdr) in
      if length hdr == 2
      then elim (block_at img (pos + 2) compressed size metadata_size) [
        | none ↦ none
        | some bytes ↦ some (bytes, 2 + size)
      ]
      else none
]

-- What an entry of the cache of metadata should hold.
abbrev pub IsMetadata : Image → ℕ → ℕ → List ℕ → Type 0
IsMetadata img pos n bytes = md_at img pos ≡ some (bytes, n)

module _ (img : Image) (all : IsGranted img) (pos : ℕ) (bytes : List ℕ) (n : ℕ)
    (there : md_at img pos ≡ some (bytes, n)) where
  md_block_read_lem :
      (old : Option ℕ) (h : Heap)
      → md_block_read img pos old h ≡ done (ok, n, some h.next, with_block h bytes)
  unfolding md_block_read md_at
  md_block_read_lem old h = elim (Option-cases (img.system.pread 2 (pos + img.offset))) [
    | inl missing ↦ absurd (ground arith)
    | inr (hdr, e) ↦
        let (compressed, size) = md_header (swapin 2 hdr) in
        elim (Option-cases (block_at img (pos + 2) compressed size metadata_size)) [
          | inl missing ↦ absurd (ground arith)
          | inr (found, at) ↦
              ground
                (arith, block_read_lem h img all (pos + 2) compressed size metadata_size found at)
        ]
  ]

  md_entry_read-Reads : Reads (IsMetadata img) pos (md_entry_read img pos)
  unfolding md_entry_read
  md_entry_read-Reads = record {
    bytes = bytes;
    size = λ old. n;
    right = λ old. there;
    reads = λ old h. rw (md_block_read_lem old.block h);
  }

  -- What a call returns that finds the block.
  pub record Cached (bc : BlockCache) : Type 0 where
    pub address : ℕ
    pub state : BlockCache
    pub coherent : IsCoherent (IsMetadata img) state
    pub live : state.heap.blocks address ≡ some (counted_block bytes 1)
    pub returns :
        md_cache img pos bc
        ≡ done (ok, some address, pos + n, record state { heap = held state.heap address bytes })

  -- Where all allocations succeed and there is a metadata block at a position that is not 0, from
  -- a coherent state of the cache `sqfs_md_cache` succeeds, whether it finds the block or reads
  -- it after an eviction: the caller holds that block's bytes with the second reference, gets the
  -- position behind the block, and without the caller's reference the state is coherent again.
  pub md_cache-Cached : (bc : BlockCache) → IsCoherent (IsMetadata img) bc → 0 < pos → Cached bc
  unfolding md_cache
  md_cache-Cached bc c behind =
      let x =
        through_cache-Holds (IsMetadata img) bc c pos behind (md_entry_read img pos)
          md_entry_read-Reads in
      let same : some (bytes, n) ≡ some (x.bytes, x.entry.data_size) = sym there ∙ x.right in
      let same_bytes : x.bytes ≡ bytes = cc in
      let same_size : x.entry.data_size ≡ n = cc in
      record {
        address = x.address;
        state = x.state;
        coherent = x.coherent;
        live = rw same_bytes at x.live;
        returns = rw (x.returns, x.block, same_size, same_bytes) refl;
      }

-- From a position in the metadata, the block's address and the offset in it, these bytes lie ahead.
-- Only the start may stand at the very end of its block.
pub data Ahead (img : Image) : ℕ → ℕ → List ℕ → Type 0 where
  finished : {pos offset : ℕ} {all : List ℕ} → offset ≡ 0 → all ≡ [] → Ahead img pos offset all
  inside :
      {pos offset n : ℕ} {all bytes rest : List ℕ}
      → 0 < pos
      → md_at img pos ≡ some (bytes, n)
      → 0 < length bytes
      → length bytes < size_mod
      → offset ≤ length bytes
      → Ahead img (pos + n) 0 rest
      → all ≡ drop offset bytes ++ rest
      → Ahead img pos offset all

-- Two ways to cut a list in two.
pub append_split :
    {A : Type 0} (xs ys zs ws : List A)
    → xs ++ ys ≡ zs ++ ws
    → length xs ≤ length zs
    → (t : List A) × (zs ≡ xs ++ t) × (ys ≡ t ++ ws)
append_split [] ys zs ws e h = (zs, refl, e)
append_split (x ∷ xs) ys [] ws e h = absurd (omega arith)
append_split (x ∷ xs) ys (z ∷ zs) ws e h =
    let tails : xs ++ ys ≡ zs ++ ws = cc in
    let heads : x ≡ z = cc in
    let (t, front, back) = append_split xs ys zs ws tails (omega arith) in (t, cc, back)
