-- ===== src/Hash/Buckets.antt =====
-- Where entries stand in hash.c's array, and what the array means: with every entry in the bucket
-- of its key and no key twice, a lookup in the key's bucket is a lookup among all the entries.
use squashfuse.Common.{
  ℕ, zero, suc, ◌+◌, ◌-◌, ◌≤◌, ◌<◌, ◌≡◌, refl, ap, ◌∙◌, ◌≢◌, none, some, List, [], ◌∷◌, ◌++◌,
  replicate, set, get_elem?, length, length-append, arith, ◌==◌, if◌then◌else◌, ℕ-cases, inl, inr,
}
use native.Mathlib.Nat.{add-zero}
use mathlib.Core.List.{flatten}
use squashfuse.Hash.{Chain, slot, chain_get, chain_remove, chain_assign}

module _ {V : Type 0} (q : ℕ) where
  pub chain_get-append_none :
      (c d : Chain V) → chain_get q c ≡ none → chain_get q (c ++ d) ≡ chain_get q d
  unfolding chain_get
  chain_get-append_none [] d h = refl
  chain_get-append_none (e ∷ c) d h = ground (arith, chain_get-append_none c d)

  chain_get-none_append :
      (c d : Chain V) → chain_get q d ≡ none → chain_get q (c ++ d) ≡ chain_get q c
  unfolding chain_get
  chain_get-none_append [] d h = h
  chain_get-none_append (e ∷ c) d h = ground (arith, chain_get-none_append c d)

module _ {V : Type 0} (capacity : ℕ) where
  -- Every key of the chain belongs to bucket i, and none stands there twice.
  abbrev pub ChainIsPlaced : ℕ → Chain V → Type 0
  ChainIsPlaced i [] = Unit {0}
  ChainIsPlaced i (e ∷ c) = (slot e.0 capacity ≡ i) × (chain_get e.0 c ≡ none) × ChainIsPlaced i c

  -- The buckets from number i on.
  abbrev pub ArePlaced : ℕ → List (Chain V) → Type 0
  ArePlaced i [] = Unit {0}
  ArePlaced i (c ∷ cs) = ChainIsPlaced i c × ArePlaced (suc i) cs

  chain_get_elsewhere :
      (q i : ℕ) (c : Chain V) → ChainIsPlaced i c → slot q capacity ≢ i → chain_get q c ≡ none
  unfolding chain_get
  chain_get_elsewhere q i [] p ne = refl
  chain_get_elsewhere q i (e ∷ c) p ne = ground (arith, chain_get_elsewhere q i c)

  pub flatten_elsewhere :
      (q i : ℕ) (cs : List (Chain V))
      → ArePlaced i cs
      → slot q capacity < i
      → chain_get q (flatten cs) ≡ none
  unfolding flatten
  flatten_elsewhere q i [] p h = unfold chain_get in refl
  flatten_elsewhere q i (c ∷ cs) p h =
      chain_get-append_none q c (flatten cs) (chain_get_elsewhere q i c p.0 (omega arith))
      ∙ flatten_elsewhere q (suc i) cs p.1 (omega arith)

  -- A lookup among all the entries is one in the bucket of the key.
  pub chain_get-flatten :
      (q i : ℕ) (cs : List (Chain V)) (c : Chain V)
      → ArePlaced i cs
      → i ≤ slot q capacity
      → get_elem? cs (slot q capacity - i) ≡ some c
      → chain_get q (flatten cs) ≡ chain_get q c
  unfolding flatten
  chain_get-flatten q i [] c p h e = ground arith
  chain_get-flatten q i (d ∷ cs) c p h e = elim (ℕ-cases (slot q capacity - i)) [
    | inl here ↦
        let first : some d ≡ some c = rw here at e in
        let same : d ≡ c = cc in
        chain_get-none_append q d (flatten cs) (flatten_elsewhere q (suc i) cs p.1 (omega arith))
        ∙ ap (chain_get q) same
    | inr (k, there) ↦
        let next : slot q capacity - suc i ≡ k = omega arith in
        chain_get-append_none q d (flatten cs) (chain_get_elsewhere q i d p.0 (omega arith))
        ∙ chain_get-flatten q (suc i) cs c p.1 (omega arith) (rw (next) (rw there at e))
  ]

  -- Writing one bucket keeps the others placed.
  pub set-ArePlaced :
      (i j : ℕ) (cs : List (Chain V)) (c : Chain V)
      → ArePlaced i cs
      → ChainIsPlaced (i + j) c
      → ArePlaced i (set cs j c)
  set-ArePlaced i j [] c p h = tt
  set-ArePlaced i zero (d ∷ cs) c p h = (rw (add-zero i) at h, p.1)
  set-ArePlaced i (suc j) (d ∷ cs) c p h =
      let shift : i + suc j ≡ suc i + j = omega arith in
      (p.0, set-ArePlaced (suc i) j cs c p.1 (rw shift at h))

  pub get_elem?-ArePlaced :
      (i j : ℕ) (cs : List (Chain V)) (c : Chain V)
      → ArePlaced i cs
      → get_elem? cs j ≡ some c
      → ChainIsPlaced (i + j) c
  get_elem?-ArePlaced i j [] c p e = ground arith
  get_elem?-ArePlaced i zero (d ∷ cs) c p e = let same : d ≡ c = cc in rw (← same, add-zero i) p.0
  get_elem?-ArePlaced i (suc j) (d ∷ cs) c p e =
      let shift : i + suc j ≡ suc i + j = omega arith in
      rw shift (get_elem?-ArePlaced (suc i) j cs c p.1 e)

pub replicate-ArePlaced :
    (V : Type 0) (capacity n i : ℕ) → ArePlaced {V = V} capacity i (replicate n [])
replicate-ArePlaced V capacity zero i = tt
replicate-ArePlaced V capacity (suc n) i = (tt, replicate-ArePlaced V capacity n (suc i))

-- One chain with an entry taken out, or with its value written.
module _ {V : Type 0} (capacity i k : ℕ) where
  pub chain_get-chain_remove :
      (q : ℕ) (c : Chain V)
      → ChainIsPlaced capacity i c
      → chain_get q (chain_remove k c) ≡ (if q == k then none else chain_get q c)
  unfolding chain_get chain_remove
  chain_get-chain_remove q [] p = ground arith
  chain_get-chain_remove q (e ∷ c) p = ground (arith, chain_get-chain_remove q c)

  pub chain_remove-ChainIsPlaced :
      (c : Chain V) → ChainIsPlaced capacity i c → ChainIsPlaced capacity i (chain_remove k c)
  unfolding chain_remove
  chain_remove-ChainIsPlaced [] p = tt
  chain_remove-ChainIsPlaced (e ∷ c) p =
      ground (arith, chain_remove-ChainIsPlaced c, chain_get-chain_remove e.0 c)

  pub length-chain_remove :
      (c : Chain V) (v : V) → chain_get k c ≡ some v → length (chain_remove k c) + 1 ≡ length c
  unfolding chain_get chain_remove
  length-chain_remove [] v e = ground arith
  length-chain_remove (x ∷ c) v e = ground (arith, length-chain_remove c v)

  module _ (v : V) where
    pub chain_get-chain_assign :
        (q : ℕ) (c : Chain V) (old : V)
        → chain_get k c ≡ some old
        → chain_get q (chain_assign k v c) ≡ (if q == k then some v else chain_get q c)
    unfolding chain_get chain_assign
    chain_get-chain_assign q [] old h = ground arith
    chain_get-chain_assign q (e ∷ c) old h = ground (arith, chain_get-chain_assign q c old)

    chain_assign_absent :
        (q : ℕ) (c : Chain V) → chain_get q c ≡ none → chain_get q (chain_assign k v c) ≡ none
    unfolding chain_get chain_assign
    chain_assign_absent q [] h = refl
    chain_assign_absent q (e ∷ c) h = ground (arith, chain_assign_absent q c)

    pub chain_assign-ChainIsPlaced :
        (c : Chain V) → ChainIsPlaced capacity i c → ChainIsPlaced capacity i (chain_assign k v c)
    unfolding chain_assign
    chain_assign-ChainIsPlaced [] p = tt
    chain_assign-ChainIsPlaced (e ∷ c) p =
        ground (arith, chain_assign-ChainIsPlaced c, chain_assign_absent e.0 c)

    pub length-chain_assign : (c : Chain V) → length (chain_assign k v c) ≡ length c
    unfolding chain_assign
    length-chain_assign [] = refl
    length-chain_assign (e ∷ c) = ground (arith, length-chain_assign c)

pub length-flatten-set :
    {A : Type 0} (bs : List (List A)) (i : ℕ) (c d : List A)
    → get_elem? bs i ≡ some c
    → length (flatten (set bs i d)) + length c ≡ length (flatten bs) + length d
unfolding flatten
length-flatten-set [] i c d e = ground arith
length-flatten-set (b ∷ bs) zero c d e =
    let same : b ≡ c = cc in
    omega (arith, ap length same, length-append d (flatten bs), length-append b (flatten bs))
length-flatten-set (b ∷ bs) (suc i) c d e = omega (
  arith,
  length-append b (flatten bs),
  length-append b (flatten (set bs i d)),
  length-flatten-set bs i c d e,
)
