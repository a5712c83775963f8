-- ===== src/Hash/Writes.antt =====
-- What the operations that write one bucket of hash.c's table do to the function that it stands for.
use squashfuse.Common.{
  ℕ, ◌+◌, ◌-◌, ◌%◌, ◌≤◌, ◌<◌, ◌≡◌, refl, sym, ◌∙◌, Bool, true, Option, none, some, [], ◌∷◌, set,
  length, arith, inl, inr, ok, done, ◌>>=◌, Option-cases,
}
use squashfuse.Hash.{
  Hash, Chain, size_mod, bucket_bytes, chain_get, chain_remove, chain_assign, assign, remove,
  add_internal,
}
use squashfuse.Hash.Buckets.{
  chain_get-chain_remove, chain_remove-ChainIsPlaced, length-chain_remove, chain_get-chain_assign,
  chain_assign-ChainIsPlaced, length-chain_assign, length-flatten-set,
}
use squashfuse.Hash.Laws.{
  update, Represents, found, Represents-ext, home, Home, bucket-Home, bucket_lem, update_elsewhere,
  write-Represents,
}

module _ {V : Type 0} (h : Hash V) (f : ℕ → Option V) (r : Represents h f) (k : ℕ) where
  entries_in_bucket : (c : Chain V) → Home h f r k c → length c ≤ h.size
  entries_in_bucket c b =
      omega (arith, r.counted, length-flatten-set h.buckets (home h f r k) c [] b.here)

  -- On a table that represents f, removing a key succeeds, gives a table that represents f
  -- without the key, and lowers the size by one exactly if f maps the key.
  pub remove-Represents :
      (h' : Hash V) × (remove h k ≡ done (ok, h'))
      × Represents h' (update f k none)
      × (h'.size + found (f k) ≡ h.size)
  unfolding remove
  remove-Represents =
      let (c, b) = bucket-Home h f r k in
      let reads = b.reads k refl in
      elim (Option-cases (chain_get k c)) [
        | inl absent ↦
            let nothing : f k ≡ none = sym reads ∙ absent in
            (
              h,
              rw (bucket_lem h f r k c b, ◌>>=◌, absent),
              Represents-ext h f (update f k none) r (λ q. ground (arith, nothing)),
              rw nothing (omega arith),
            )
        | inr (v, present) ↦
            let d = chain_remove k c in
            let n = (h.size + size_mod - 1) % size_mod in
            let shorter = length-chain_remove h.capacity (home h f r k) k c v present in
            let filled = entries_in_bucket c b in
            let down : n + 1 ≡ h.size = omega (arith, r.load, r.small) in
            (
              record h { buckets = set h.buckets (home h f r k) d; size = n },
              rw (bucket_lem h f r k c b, ◌>>=◌, present),
              write-Represents h f r k (update f k none) n c d b
                  (chain_remove-ChainIsPlaced h.capacity (home h f r k) k c b.placed) (omega arith)
                  (omega (arith, r.load))
                  (λ q same.
                    chain_get-chain_remove h.capacity (home h f r k) k q c b.placed
                    ∙ rw (b.reads q same))
                  (λ q other. update_elsewhere h f r k q none other),
              rw (← reads, present) down,
            )
      ]

  -- On a table that represents f, a caller's write to the value found under a key that f maps
  -- changes that key's value and no other, and keeps the size and the size of values.
  pub assign-Represents :
      (v old : V)
      → f k ≡ some old
      → (h' : Hash V) × (assign h k v ≡ done h')
        × Represents h' (update f k (some v))
        × (h'.size ≡ h.size)
        × (h'.value_size ≡ h.value_size)
  unfolding assign
  assign-Represents v old present =
      let (c, b) = bucket-Home h f r k in
      let d = chain_assign k v c in
      (
        record h { buckets = set h.buckets (home h f r k) d },
        rw (bucket_lem h f r k c b),
        write-Represents h f r k (update f k (some v)) h.size c d b
            (chain_assign-ChainIsPlaced h.capacity (home h f r k) k v c b.placed)
            (rw (length-chain_assign h.capacity (home h f r k) k v c)) r.load
            (λ q same.
              chain_get-chain_assign h.capacity (home h f r k) k v q c old
                (b.reads k refl ∙ present)
              ∙ rw (b.reads q same))
            (λ q other. update_elsewhere h f r k q (some v) other),
        refl,
        refl,
      )

  -- Adding a new key maps it to the value and changes nothing else.
  pub add_internal-Represents :
      (grants : ℕ → Bool) (v : V)
      → grants (bucket_bytes + h.value_size) ≡ true
      → f k ≡ none
      → h.size < h.capacity
      → (h' : Hash V) × (add_internal grants h k v ≡ done (ok, h'))
        × Represents h' (update f k (some v))
        × (h'.size ≡ h.size + 1)
        × (h'.capacity ≡ h.capacity)
        × (h'.value_size ≡ h.value_size)
  unfolding add_internal
  add_internal-Represents grants v granted absent room =
      let (c, b) = bucket-Home h f r k in
      let up : (h.size + 1) % size_mod ≡ h.size + 1 = omega (arith, r.small) in
      (
        record h {
          buckets = set h.buckets (home h f r k) ((k, v) ∷ c);
          size = (h.size + 1) % size_mod;
        },
        rw (granted, bucket_lem h f r k c b),
        write-Represents h f r k (update f k (some v)) ((h.size + 1) % size_mod) c ((k, v) ∷ c) b
            (refl, b.reads k refl ∙ absent, b.placed) (omega arith) (omega arith)
            (λ q same. unfold chain_get in ground (arith, b.reads q same))
            (λ q other. update_elsewhere h f r k q (some v) other),
        up,
        refl,
        refl,
      )
