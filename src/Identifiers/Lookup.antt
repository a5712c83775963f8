-- ===== src/Identifiers/Lookup.antt =====
-- A table of numbers of one width is read back number by number.
use squashfuse.Common.{
  ℕ, zero, suc, ◌+◌, ◌*◌, ◌%◌, ◌^◌, ◌-◌, true, ◌<◌, ◌≡◌, refl, sym, ap, ◌∙◌, some, List, [], ◌∷◌,
  ◌++◌, take, drop, drop-drop, get_elem?, ok, done, arith,
}
use native.Mathlib.Nat.{suc-mul}
use squashfuse.Block.Reads.{IsGranted}
use squashfuse.Block.Coherence.{IsCoherent}
use squashfuse.Format.{swapin, le_bytes}
use squashfuse.Format.RoundTrip.{swapin-le_bytes, take-le_bytes, drop-le_bytes}
use squashfuse.Fs.{BlockCache, Image}
use squashfuse.Identifiers.{id_get, export_ok, export_inode}
use squashfuse.Metadata.Stream.{IsMetadata}
use squashfuse.Tables.Entries.{IsTable, table_get_lem}

-- The little-endian bytes of numbers of w bytes each.
unfoldable pub all_bytes : ℕ → List ℕ → List ℕ
all_bytes w [] = []
all_bytes w (v ∷ vs) = le_bytes w v ++ all_bytes w vs

pub entry-all_bytes :
    (w idx v : ℕ) (vs : List ℕ)
    → get_elem? vs idx ≡ some v
    → take w (drop (idx * w) (all_bytes w vs)) ≡ le_bytes w v
unfolding all_bytes
entry-all_bytes w idx v [] e = absurd (ground arith)
entry-all_bytes w zero v (u ∷ vs) e =
    let same : u ≡ v = cc in
    let start : zero * w ≡ 0 = omega arith in
    rw start (take-le_bytes w u (all_bytes w vs) ∙ ap (le_bytes w) same)
entry-all_bytes w (suc i) v (u ∷ vs) e =
    let shift : suc i * w ≡ w + i * w = suc-mul i w ∙ omega arith in
    let rest = all_bytes w vs in
    ap (λ k. take w (drop k (le_bytes w u ++ rest))) shift
    ∙ ap (take w) (
        sym (drop-drop w (i * w) (le_bytes w u ++ rest))
        ∙ ap (drop (i * w)) (drop-le_bytes w u rest))
    ∙ entry-all_bytes w i v vs e

module _ (img : Image) (all : IsGranted img) (ids : List ℕ)
    (is : IsTable img img.id_table (all_bytes 4 ids)) (width : img.id_table.each ≡ 4)
    (bc : BlockCache) (c : IsCoherent (IsMetadata img) bc) where
  -- Where all allocations succeed and the cache is coherent, on an image whose table of
  -- identifiers holds numbers of 32 bits in little-endian form, in blocks at positions that are
  -- not 0, `sqfs_id_get` of an index within the count gives the number at that index, and leaves
  -- the cache coherent.
  pub id_get_lem :
      (idx id : ℕ)
      → get_elem? ids idx ≡ some id
      → idx < img.id_table.count
      → id < 2 ^ 32
      → (bc' : BlockCache) × (id_get img idx bc ≡ done (ok, some id, bc'))
        × IsCoherent (IsMetadata img) bc'
  unfolding id_get
  id_get_lem idx id there inside small =
      let (bc', run, c') =
        table_get_lem img all img.id_table (all_bytes 4 ids) is idx bc c inside in
      let read : swapin 4
            (take img.id_table.each (drop (idx * img.id_table.each) (all_bytes 4 ids)))
          ≡ id =
        rw (width, entry-all_bytes 4 idx id ids there) (swapin-le_bytes 4 id small) in
      (bc', rw run (rw read refl), c')

module _ (img : Image) (all : IsGranted img) (inodes : List ℕ)
    (is : IsTable img img.export_table (all_bytes 8 inodes)) (width : img.export_table.each ≡ 8)
    (bc : BlockCache) (c : IsCoherent (IsMetadata img) bc) where
  -- Where all allocations succeed and the cache is coherent, on an image that can be exported and
  -- whose export table holds numbers of 64 bits in little-endian form, in blocks at positions
  -- that are not 0, `sqfs_export_inode` of the inode number i + 1 gives the number at i, within
  -- the count and 32 bits, and leaves the cache coherent.
  pub export_inode_lem :
      (i inode : ℕ)
      → export_ok img ≡ true
      → get_elem? inodes i ≡ some inode
      → i < img.export_table.count
      → i + 1 < 2 ^ 32
      → inode < 2 ^ 64
      → (bc' : BlockCache) × (export_inode img (i + 1) bc ≡ done (ok, some inode, bc'))
        × IsCoherent (IsMetadata img) bc'
  unfolding export_inode
  export_inode_lem i inode there here inside little small =
      let (bc', run, c') =
        table_get_lem img all img.export_table (all_bytes 8 inodes) is i bc c inside in
      let each = img.export_table.each in
      let read : swapin 8 (take each (drop (i * each) (all_bytes 8 inodes))) ≡ inode =
        rw (width, entry-all_bytes 8 i inode inodes here) (swapin-le_bytes 8 inode small) in
      let index : (i + 1 + 2 ^ 32 - 1) % 2 ^ 32 ≡ i = omega arith in
      (bc', rw (there, index, run) (rw read refl), c')
