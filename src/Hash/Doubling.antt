-- ===== src/Hash/Doubling.antt =====
-- Growing hash.c's table, and adding to it: doubling keeps every lookup.
use squashfuse.Common.{
  ℕ, zero, suc, ◌+◌, ◌-◌, ◌*◌, ◌%◌, ◌^◌, ◌≤◌, ◌<◌, ◌≡◌, refl, sym, ap, ◌∙◌, ◌≢◌, ◌⊎◌, Bool, true,
  false, Option, none, some, List, [], ◌∷◌, ◌++◌, length, length-replicate, replicate, arith,
  if◌then◌else◌, leb, Bool-cases, inl, inr, ok, err, done, failed, fault, out_of_bounds, SqfsErr,
  Outcome, ◌>>=◌, fun_ext, bind_assoc, ℕ-cases,
}
use Prim.Native.Nat.{bit_and}
use squashfuse.Common.Bits.{pow2-bit_and_pred, bit_and_pred-pow2}
use mathlib.Core.List.{flatten}
use mathlib.Core.Option.{or_else}
use native.Mathlib.Nat.{pow-suc}
use squashfuse.Hash.{
  Hash, Chain, size_mod, bucket_bytes, pointer_bytes, slot, chain_get, init, add_internal,
  move_chain, move_all, double, add, get, bucket,
}
use squashfuse.Hash.Buckets.{
  ChainIsPlaced, ArePlaced, replicate-ArePlaced, chain_get-append_none, flatten_elsewhere,
}
use squashfuse.Hash.Laws.{update, Represents, Represents-ext}
use squashfuse.Hash.Writes.{add_internal-Represents}

flatten-replicate : {A : Type 0} (n : ℕ) → flatten {A = A} (replicate n []) ≡ []
unfolding flatten
flatten-replicate zero = refl
flatten-replicate (suc n) = flatten-replicate n

-- A table of a power of two buckets stands for the function without values.
pub init-Represents :
    (V : Type 0) (grants : ℕ → Bool) (vsize initial log : ℕ)
    → initial ≡ 2 ^ log
    → 0 < initial
    → initial < size_mod
    → grants (initial * pointer_bytes) ≡ true
    → ((init {V = V} grants vsize initial).0 ≡ ok)
      × Represents (init {V = V} grants vsize initial).1 (λ _. none)
      × ((init {V = V} grants vsize initial).1.size ≡ 0)
      × ((init {V = V} grants vsize initial).1.capacity ≡ initial)
      × ((init {V = V} grants vsize initial).1.value_size ≡ vsize)
unfolding init
init-Represents V grants vsize initial log power pos small granted =
    let pred : (initial + size_mod - 1) % size_mod ≡ initial - 1 = omega arith in
    let none_in_common : bit_and initial (initial - 1) ≡ 0 = rw power (pow2-bit_and_pred log) in
    rw (pred, none_in_common, granted)
      (
        refl,
        record {
          log = log;
          power = power;
          nonempty = pos;
          small = small;
          width = length-replicate initial [];
          placed = replicate-ArePlaced V initial initial 0;
          load = omega arith;
          counted = rw (flatten-replicate initial);
          reads = λ q. rw (flatten-replicate initial) (unfold chain_get in refl);
        },
        refl,
        refl,
        refl,
      )

-- If `sqfs_hash_init` accepts an initial capacity of 64 bits, it is 0 or a power of two.
pub init-accepts :
    (V : Type 0) (grants : ℕ → Bool) (vsize initial : ℕ)
    → initial < size_mod
    → (init {V = V} grants vsize initial).0 ≡ ok
    → (initial ≡ 0) ⊎ ((log : ℕ) × (initial ≡ 2 ^ log))
unfolding init
init-accepts V grants vsize initial small accepted = elim (ℕ-cases initial) [
  | inl empty ↦ inl empty
  | inr (n, e) ↦
      let pred : (initial + size_mod - 1) % size_mod ≡ initial - 1 = omega arith in
      let disjoint : bit_and initial ((initial + size_mod - 1) % size_mod) ≡ 0 = ground arith in
      inr (bit_and_pred-pow2 initial initial (omega arith) (omega arith) (rw (← pred) disjoint))
]

module _ {V : Type 0} where
  abbrev HasDistinctKeys : Chain V → Type 0
  HasDistinctKeys [] = Unit {0}
  HasDistinctKeys (e ∷ c) = (chain_get e.0 c ≡ none) × HasDistinctKeys c

  append-HasDistinctKeys :
      (capacity i : ℕ) (c d : Chain V)
      → ChainIsPlaced capacity i c
      → HasDistinctKeys d
      → ((q : ℕ) → slot q capacity ≡ i → chain_get q d ≡ none)
      → HasDistinctKeys (c ++ d)
  append-HasDistinctKeys capacity i [] d p dd h = dd
  append-HasDistinctKeys capacity i (e ∷ c) d p dd h = (
    chain_get-append_none e.0 c d p.1 ∙ h e.0 p.0,
    append-HasDistinctKeys capacity i c d p.2 dd h,
  )

  flatten-HasDistinctKeys :
      (capacity i : ℕ) (cs : List (Chain V))
      → ArePlaced capacity i cs
      → HasDistinctKeys (flatten cs)
  unfolding flatten
  flatten-HasDistinctKeys capacity i [] p = tt
  flatten-HasDistinctKeys capacity i (c ∷ cs) p =
      append-HasDistinctKeys capacity i c (flatten cs) p.0
        (flatten-HasDistinctKeys capacity (suc i) cs p.1)
        (λ q same. flatten_elsewhere capacity q (suc i) cs p.1 (omega arith))

module _ {V : Type 0} (k : ℕ) (v : V) (c : Chain V) where
  present_head : chain_get k ((k, v) ∷ c) ≢ none
  unfolding chain_get
  present_head = ground arith

  apart_tail :
      (f : ℕ → Option V) (q : ℕ)
      → chain_get k c ≡ none
      → ((j : ℕ) → chain_get j ((k, v) ∷ c) ≢ none → f j ≡ none)
      → chain_get q c ≢ none
      → update f k (some v) q ≡ none
  unfolding chain_get
  apart_tail f q distinct apart ne = ground (arith, apart q)

module _ {V : Type 0} (grants : ℕ → Bool) where
  move_chain-append :
      (e : SqfsErr) (c d : Chain V) (h : Hash V)
      → move_chain grants e (c ++ d) h
        ≡ move_chain grants e c h >>= (λ r. move_chain grants r.0 d r.1)
  unfolding move_chain
  move_chain-append e [] d h = refl
  move_chain-append e (x ∷ c) d h =
      let step : Outcome (SqfsErr × Hash V) =
        if failed e then done (e, h) else add_internal grants h x.0 x.1 in
      ap (λ t. step >>= t) (fun_ext (λ y. move_chain-append y.0 c d y.1))
      ∙ sym (bind_assoc step (λ y. move_chain grants y.0 c y.1) (λ r. move_chain grants r.0 d r.1))

  -- The nested loops are one loop over all the entries.
  move_all-flatten :
      (e : SqfsErr) (cs : List (Chain V)) (h : Hash V)
      → move_all grants e cs h ≡ move_chain grants e (flatten cs) h
  unfolding flatten move_all
  move_all-flatten e [] h = unfold move_chain in refl
  move_all-flatten e (c ∷ cs) h =
      ap (λ t. move_chain grants e c h >>= t) (fun_ext (λ y. move_all-flatten y.0 cs y.1))
      ∙ sym (move_chain-append e c (flatten cs) h)

  -- The state after all the entries of a chain are added to a table.
  record Moved (c : Chain V) (h : Hash V) (f : ℕ → Option V) (h' : Hash V) : Type 0 where
    represents : Represents h' (λ q. or_else (chain_get q c) (f q))
    size : h'.size ≡ h.size + length c
    capacity : h'.capacity ≡ h.capacity
    value_size : h'.value_size ≡ h.value_size

  move_chain-Moved :
      (c : Chain V) (h : Hash V) (f : ℕ → Option V)
      → Represents h f
      → HasDistinctKeys c
      → ((q : ℕ) → chain_get q c ≢ none → f q ≡ none)
      → h.size + length c ≤ h.capacity
      → grants (bucket_bytes + h.value_size) ≡ true
      → (h' : Hash V) × (move_chain grants ok c h ≡ done (ok, h')) × Moved c h f h'
  unfolding move_chain
  move_chain-Moved [] h f r distinct apart room granted = (
    h,
    refl,
    record {
      represents = Represents-ext h f _ r (λ q. unfold chain_get or_else in refl);
      size = omega arith;
      capacity = refl;
      value_size = refl;
    },
  )
  move_chain-Moved ((k, v) ∷ c) h f r distinct apart room granted =
      let absent : f k ≡ none = apart k (present_head k v c) in
      let (h₁, run, rep, size, cap, width) =
        add_internal-Represents h f r k grants v granted absent (omega arith) in
      let (h₂, rest, m) =
        move_chain-Moved c h₁ (update f k (some v)) rep distinct.1
          (λ q ne. apart_tail k v c f q distinct.0 apart ne) (omega arith) (rw width granted) in
      (
        h₂,
        rw run rest,
        record {
          represents =
              Represents-ext h₂ _ _ m.represents
                (λ q. unfold chain_get or_else in ground (arith, distinct.0));
          size = omega (arith, m.size);
          capacity = m.capacity ∙ cap;
          value_size = m.value_size ∙ width;
        },
      )

  -- Doubling a table that represents f, where the allocations succeed and the capacity does not
  -- overflow, gives a table of twice the capacity that represents the same f, with the same
  -- number of entries and the same size of values.
  pub double-Represents :
      (h : Hash V) (f : ℕ → Option V)
      → Represents h f
      → h.capacity * 2 < size_mod
      → grants (h.capacity * 2 * pointer_bytes) ≡ true
      → grants (bucket_bytes + h.value_size) ≡ true
      → (h' : Hash V) × (double grants h ≡ done (ok, h'))
        × Represents h' f
        × (h'.size ≡ h.size)
        × (h'.capacity ≡ h.capacity * 2)
        × (h'.value_size ≡ h.value_size)
  unfolding double
  double-Represents h f r small table entry =
      let wide : h.capacity * 2 % size_mod ≡ h.capacity * 2 = omega arith in
      let (e, rep, size, cap, width) =
        init-Represents V grants h.value_size (h.capacity * 2) (suc r.log)
          (omega (arith, pow-suc 2 r.log, r.power)) (omega (arith, r.nonempty)) small table in
      let fresh = (init {V = V} grants h.value_size (h.capacity * 2)).1 in
      let entries = flatten h.buckets in
      let start : double grants h ≡ move_chain grants ok entries fresh =
        rw (wide, e) (move_all-flatten ok h.buckets fresh) in
      let (h', run, m) =
        move_chain-Moved entries fresh (λ _. none) rep
          (flatten-HasDistinctKeys h.capacity 0 h.buckets r.placed) (λ q _. refl)
          (omega (arith, r.counted, r.load)) (rw width entry) in
      (
        h',
        start ∙ run,
        Represents-ext h' _ f m.represents (λ q. unfold or_else in ground (arith, r.reads q)),
        omega (arith, m.size, r.counted),
        m.capacity ∙ cap,
        m.value_size ∙ width,
      )

  -- On a table that represents a function f, adding a key that f does not map, where the
  -- allocations succeed and the doubled capacity does not overflow, succeeds and gives a table
  -- that represents f with the key mapped to the value, one entry larger and with the same size
  -- of values, also when the table has to grow.
  pub add-Represents :
      (h : Hash V) (f : ℕ → Option V) (k : ℕ) (v : V)
      → Represents h f
      → f k ≡ none
      → h.capacity * 2 < size_mod
      → grants (h.capacity * 2 * pointer_bytes) ≡ true
      → grants (bucket_bytes + h.value_size) ≡ true
      → (h' : Hash V) × (add grants h k v ≡ done (ok, h'))
        × Represents h' (update f k (some v))
        × (h'.size ≡ h.size + 1)
        × (h'.value_size ≡ h.value_size)
  unfolding add
  add-Represents h f k v r absent small table entry = elim (Bool-cases (leb h.capacity h.size)) [
    | inr roomy ↦
        let room : h.size < h.capacity = ground arith in
        let (h', run, rep, size, _, width) =
          add_internal-Represents h f r k grants v entry absent room in
        (h', rw roomy run, rep, size, width)
    | inl full ↦
        let (d, grown, rep, size, cap, width) = double-Represents h f r small table entry in
        let (h', run, rep', size', _, width') =
          add_internal-Represents d f rep k grants v (rw width entry) absent
            (omega (arith, r.load, r.nonempty)) in
        (h', rw (full, grown) run, rep', omega arith, width' ∙ width)
  ]

  -- If a full table cannot get memory for the doubled array, `sqfs_hash_add` returns an error and
  -- the next lookup of any key reads through the null array.
  pub get-add_refused :
      (h : Hash V) (k q : ℕ) (v : V)
      → h.capacity ≤ h.size
      → grants (h.capacity * 2 % size_mod * pointer_bytes) ≡ false
      → (add grants h k v >>= λ r. done r.0) ≡ done err
        × ((add grants h k v >>= λ r. get r.1 q) ≡ fault out_of_bounds)
  unfolding add double init get bucket
  get-add_refused h k q v full refused = ground arith
