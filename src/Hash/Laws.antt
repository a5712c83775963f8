-- ===== src/Hash/Laws.antt =====
-- hash.c refines a function from keys to optional values.
use squashfuse.Common.{
  ℕ, ◌+◌, ◌-◌, ◌%◌, ◌^◌, ◌≤◌, ◌<◌, ◌≡◌, refl, sym, ap, ◌∙◌, ◌≢◌, Option, none, some, set, get_elem?,
  length, length-set, get_elem?-lt, get_elem?-set_self, get_elem?-set_ne, arith, ◌==◌,
  if◌then◌else◌, ==_iff, Bool-cases, inl, inr, done, fun_ext,
}
use squashfuse.Common.Bits.{bit_and-mask}
use mathlib.Core.List.{flatten}
use native.Mathlib.Nat.{mod-lt, zero-add, sub-zero}
use squashfuse.Hash.{Hash, Chain, size_mod, slot, bucket, chain_get, get}
use squashfuse.Hash.Buckets.{
  ChainIsPlaced, ArePlaced, chain_get-flatten, set-ArePlaced, get_elem?-ArePlaced,
  length-flatten-set,
}

abbrev pub update : {V : Type 0} → (ℕ → Option V) → ℕ → Option V → ℕ → Option V
update f k o q = if q == k then o else f q

-- The capacity is a power of two and no less than the size, every entry stands once and in its key's bucket, the size counts
-- the entries, and a lookup of q among them is `f q`.
pub record Represents {V : Type 0} (h : Hash V) (f : ℕ → Option V) : Type 0 where
  pub log : ℕ
  pub power : h.capacity ≡ 2 ^ log
  pub nonempty : 0 < h.capacity
  pub small : h.capacity < size_mod
  pub width : length h.buckets ≡ h.capacity
  pub placed : ArePlaced h.capacity 0 h.buckets
  pub load : h.size ≤ h.capacity
  pub counted : h.size ≡ length (flatten h.buckets)
  pub reads : (q : ℕ) → chain_get q (flatten h.buckets) ≡ f q

-- The mask of a power of two is the remainder by it.
pub slot-mod :
    (k capacity log : ℕ)
    → capacity ≡ 2 ^ log
    → 0 < capacity
    → capacity < size_mod
    → slot k capacity ≡ k % capacity
unfolding slot
slot-mod k capacity log power pos small =
    let mask : (capacity + size_mod - 1) % size_mod ≡ 2 ^ log - 1 = omega arith in
    rw (mask, bit_and-mask log k, power)

pub Represents-ext :
    {V : Type 0} (h : Hash V) (f g : ℕ → Option V)
    → Represents h f
    → ((q : ℕ) → f q ≡ g q)
    → Represents h g
Represents-ext h f g r e = rw (← fun_ext e) r

abbrev pub found : {V : Type 0} → Option V → ℕ
found none = 0
found (some _) = 1

module _ {V : Type 0} (h : Hash V) (f : ℕ → Option V) (r : Represents h f) (k : ℕ) where
  abbrev pub home : ℕ
  home = slot k h.capacity

  home-lt : home < length h.buckets
  home-lt =
      omega (
        arith,
        r.width,
        slot-mod k h.capacity r.log r.power r.nonempty r.small,
        mod-lt k r.nonempty,
      )

  -- The bucket of the key, and what it holds.
  pub record Home (c : Chain V) : Type 0 where
    pub here : get_elem? h.buckets home ≡ some c
    pub placed : ChainIsPlaced h.capacity home c
    pub reads : (q : ℕ) → slot q h.capacity ≡ home → chain_get q c ≡ f q

  bucket_of : (q : ℕ) → (c : Chain V) × (get_elem? h.buckets (slot q h.capacity) ≡ some c)
  bucket_of q = get_elem?-lt h.buckets (slot q h.capacity) (
      omega (
        arith,
        r.width,
        slot-mod q h.capacity r.log r.power r.nonempty r.small,
        mod-lt q r.nonempty,
      ))

  pub bucket-Home : (c : Chain V) × Home c
  bucket-Home =
      let (c, here) = get_elem?-lt h.buckets home home-lt in
      (
        c,
        record {
          here = here;
          placed =
              rw (zero-add home) at
                (get_elem?-ArePlaced h.capacity 0 home h.buckets c r.placed here);
          reads = λ q same.
              sym (
                chain_get-flatten h.capacity q 0 h.buckets c r.placed (omega arith)
                  (rw (same, sub-zero) here))
              ∙ r.reads q;
        },
      )

  pub bucket_lem : (c : Chain V) → Home c → bucket h home ≡ done c
  unfolding bucket
  bucket_lem c b = rw (b.here, bucket)

  -- A lookup in a table that represents f ends normally and gives what f gives for the key.
  pub get_lem : get h k ≡ done (f k)
  unfolding get
  get_lem = let (c, b) = bucket-Home in rw (bucket_lem c b, b.reads k refl)

  -- Keys of other buckets are other keys.
  pub update_elsewhere : (q : ℕ) (o : Option V) → slot q h.capacity ≢ home → f q ≡ update f k o q
  update_elsewhere q o other = elim (Bool-cases (q == k)) [
    | inl same ↦ absurd (other (ap (λ t. slot t h.capacity) ((==_iff q k).0 same)))
    | inr differs ↦ rw differs
  ]

  -- One bucket is written: the table then means what the bucket and the others say.
  module _ (g : ℕ → Option V) (n : ℕ) (c d : Chain V) (b : Home c) where
    pub write-Represents :
        ChainIsPlaced h.capacity home d
        → n + length c ≡ h.size + length d
        → n ≤ h.capacity
        → ((q : ℕ) → slot q h.capacity ≡ home → chain_get q d ≡ g q)
        → ((q : ℕ) → slot q h.capacity ≢ home → f q ≡ g q)
        → Represents (record h { buckets = set h.buckets home d; size = n }) g
    write-Represents p count load near far =
        let after = set h.buckets home d in
        let placed' : ArePlaced h.capacity 0 after =
          set-ArePlaced h.capacity 0 home h.buckets d r.placed (rw (zero-add home) p) in
        record {
          log = r.log;
          power = r.power;
          nonempty = r.nonempty;
          small = r.small;
          width = length-set h.buckets home d ∙ r.width;
          placed = placed';
          load = load;
          counted = omega (arith, r.counted, length-flatten-set h.buckets home c d b.here);
          reads = λ q. elim (Bool-cases (slot q h.capacity == home)) [
            | inl yes' ↦
                let same : slot q h.capacity ≡ home = (==_iff _ _).0 yes' in
                chain_get-flatten h.capacity q 0 after d placed' (omega arith)
                  (rw (same, sub-zero) (get_elem?-set_self h.buckets home d home-lt))
                ∙ near q same
            | inr no' ↦
                let other : slot q h.capacity ≢ home = ground arith in
                let (e, there) = bucket_of q in
                chain_get-flatten h.capacity q 0 after e placed' (omega arith) (
                  rw sub-zero (
                    get_elem?-set_ne h.buckets home (slot q h.capacity) d (λ x. other (sym x))
                    ∙ there))
                ∙ sym (
                    chain_get-flatten h.capacity q 0 h.buckets e r.placed (omega arith)
                      (rw sub-zero there))
                ∙ r.reads q
                ∙ far q other
          ];
        }
