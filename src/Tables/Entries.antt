-- ===== src/Tables/Entries.antt =====
-- What table.c reads: the entry of an index out of all the entries, one behind the other.
use squashfuse.Common.{
  ℕ, zero, suc, ◌+◌, ◌*◌, ◌/◌, ◌%◌, ◌≤◌, ◌<◌, ◌≡◌, refl, sym, ap, ◌∙◌, true, some, List, [], ◌∷◌,
  take, drop, length, length-take, length-drop, take-take, drop-drop, get_elem?, ok, err, done,
  lt→leb, le→leb, arith,
}
use native.Mathlib.Nat.{
  mod-eq_of_lt, mul-div-mul_right, lt-div-mul-add, mul-le-mul_right, mul_assoc, suc-mul,
}
use squashfuse.Block.{metadata_size}
use squashfuse.Block.Reads.{IsGranted}
use squashfuse.Block.Coherence.{IsCoherent, block_dispose-held, deref-held}
use squashfuse.Fs.{Table, BlockCache, Image}
use squashfuse.Metadata.{size_mod}
use squashfuse.Metadata.Reads.{copy_lem}
use squashfuse.Metadata.Stream.{md_at, IsMetadata, Cached, md_cache-Cached}
use squashfuse.Tables.{table_get}

-- The table stands for `entries`, the bytes of all its entries: block i holds the i-th 8192 of them.
pub record IsTable (img : Image) (t : Table) (entries : List ℕ) : Type 0 where
  pub per_block : ℕ
  pub some_per_block : 0 < per_block
  pub some_bytes : 0 < t.each
  pub whole : per_block * t.each ≡ metadata_size
  pub small : t.count * t.each < size_mod
  pub width : length entries ≡ t.count * t.each
  pub block_there :
      (i : ℕ)
      → i * metadata_size < length entries
      → (pos : ℕ) × (n : ℕ) × (get_elem? t.blocks i ≡ some pos)
        × (0 < pos)
        × (md_at img pos ≡ some (take metadata_size (drop (i * metadata_size) entries), n))

take-drop-take :
    (k o m : ℕ) (xs : List ℕ) → o + k ≤ m → take k (drop o (take m xs)) ≡ take k (drop o xs)
take-drop-take k zero m xs h = take-take k m xs (omega arith)
take-drop-take k (suc o) zero xs h = absurd (omega arith)
take-drop-take k (suc o) (suc m) [] h = refl
take-drop-take k (suc o) (suc m) (x ∷ xs) h = take-drop-take k o m xs (omega arith)

-- Where an entry lies: entirely in one block.
module _ (img : Image) (t : Table) (entries : List ℕ) (is : IsTable img t entries) (idx : ℕ)
    (inside : idx < t.count) where
  place_end : idx * t.each + t.each ≤ length entries
  place_end = omega (arith, mul-le-mul_right t.each inside, suc-mul idx t.each, is.width)

  place_block : idx * t.each / metadata_size ≡ idx / is.per_block
  place_block =
      ap (λ (k : ℕ). idx * t.each / k) (sym is.whole)
      ∙ mul-div-mul_right idx is.per_block is.some_bytes

  place_fits : idx * t.each % metadata_size + t.each ≤ metadata_size
  place_fits =
      let q = idx / is.per_block in
      let below : suc idx ≤ suc q * is.per_block =
        omega (arith, lt-div-mul-add {a = idx} is.some_per_block, suc-mul q is.per_block) in
      let scaled : suc idx * t.each ≤ suc q * metadata_size =
        rw (← is.whole, ← mul_assoc (suc q) is.per_block t.each) (mul-le-mul_right t.each below) in
      omega (arith, scaled, suc-mul idx t.each, place_block)

-- The steps of a read whose block is there.
get_run :
    (img : Image) (all : IsGranted img) (t : Table) (idx p pos n : ℕ) (bytes : List ℕ)
    (bc : BlockCache) (there : md_at img pos ≡ some (bytes, n))
    (x : Cached img all pos bytes n there bc)
    → idx < t.count
    → idx * t.each % size_mod ≡ p
    → get_elem? t.blocks (p / metadata_size) ≡ some pos
    → p % metadata_size + t.each ≤ length bytes
    → table_get img t idx bc ≡ done (ok, take t.each (drop (p % metadata_size) bytes), x.state)
unfolding table_get
get_run img all t idx p pos n bytes bc there x inside exact slot room =
    rw (lt→leb t.count idx inside, exact, slot, table_get, x.returns)
      (rw (exact, deref-held x.state.heap x.address bytes x.live)
        (rw
          (
            copy_lem true bytes (p % metadata_size) t.each room,
            block_dispose-held x.state.heap x.address bytes x.live,
          )
          refl))

module _ (img : Image) (all : IsGranted img) (t : Table) (entries : List ℕ)
    (is : IsTable img t entries) (idx : ℕ) (bc : BlockCache)
    (c : IsCoherent (IsMetadata img) bc) where
  -- Where all allocations succeed and the cache is coherent, on a table with entries of a size
  -- that divides 8192 and with blocks, at positions that are not 0, that hold the bytes of all
  -- entries, `sqfs_table_get` of an index within the count delivers the bytes of that entry,
  -- though it may lie in any of the blocks, and leaves the cache coherent.
  pub table_get_lem :
      idx < t.count
      → (bc' : BlockCache) × (table_get img t idx bc
          ≡ done (ok, take t.each (drop (idx * t.each) entries), bc'))
        × IsCoherent (IsMetadata img) bc'
  unfolding table_get
  table_get_lem inside =
      let p = idx * t.each in
      let o = p % metadata_size in
      let i = p / metadata_size in
      let end = place_end img t entries is idx inside in
      let fits = place_fits img t entries is idx inside in
      let exact : p % size_mod ≡ p =
        mod-eq_of_lt (omega (arith, is.small, is.width, is.some_bytes)) in
      let (pos, n, slot, behind, there) = is.block_there i (omega (arith, is.some_bytes)) in
      let bytes = take metadata_size (drop (i * metadata_size) entries) in
      let x = md_cache-Cached img all pos bytes n there bc c behind in
      let room : o + t.each ≤ length bytes = omega (
        arith,
        length-take metadata_size (drop (i * metadata_size) entries),
        length-drop (i * metadata_size) entries,
      ) in
      let at : i * metadata_size + o ≡ p = omega arith in
      let entry : take t.each (drop o bytes) ≡ take t.each (drop p entries) =
        take-drop-take t.each o metadata_size (drop (i * metadata_size) entries) fits
        ∙ ap (take t.each)
            (drop-drop (i * metadata_size) o entries ∙ ap (λ k. drop k entries) at) in
      (
        x.state,
        get_run img all t idx p pos n bytes bc there x inside exact slot room
            ∙ ap (λ l. done (ok, l, x.state)) entry,
        x.coherent,
      )

pub table_get_bounds :
    (img : Image) (t : Table) (idx : ℕ) (bc : BlockCache)
    → t.count ≤ idx
    → table_get img t idx bc ≡ done (err, [], bc)
unfolding table_get
table_get_bounds img t idx bc out = rw (le→leb t.count idx out) refl
