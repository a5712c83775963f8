-- ===== src/Cache/Misses.antt =====
-- What a client of cache.c's cache sees over several calls: an entry that it fills is found again
-- and stays for as many misses as the cache has entries.
use squashfuse.Common.{
  ℕ, suc, ◌+◌, ◌-◌, ◌*◌, ◌%◌, ◌≤◌, ◌<◌, ◌≡◌, refl, sym, ap, ◌∙◌, ◌≢◌, Bool, true, false, some, set,
  get_elem?, length, length-set, replicate, get_elem?-set_self, get_elem?-set_ne, set-set, ok,
  Outcome, done, fault, assertion, ◌>>=◌, arith, ℕ-cases, inl, inr,
}
use native.Mathlib.Nat.{zero-add, add-zero, mod-lt, mod-eq_of_lt, mod-add-mod, mod-eq-sub-mod}
use native.Mathlib.Decide.{dec_lt}
use squashfuse.Cache.{
  Cache, Entry, init, find, load, store, entry_mark_valid, evict, get, internal_bytes, header_bytes,
}
use squashfuse.Cache.Laws.{IsValid, Absent, find-set, get_hit, get_miss}

-- The state that it leaves.
abbrev pub filled : {V : Type 0} → Cache V → ℕ → V → Cache V
filled c idx v = record c {
  next = (c.next + 1) % c.count;
  entries = set c.entries c.next (record { valid = true; idx = idx; value = v });
}

module _ {V W : Type 0} (dispose : V → W → Outcome W) where
  -- How a client fills an entry on a miss.
  abbrev pub fill : Cache V → ℕ → V → W → Outcome (Cache V × W)
  fill c idx v w = do
    (i, c₁, w₁) ← get dispose c idx w
    c₂ ← store c₁ i v
    c₃ ← entry_mark_valid c₂ i
    done (c₃, w₁)

  module _ (c : Cache V) (idx : ℕ) (w w' : W) (e : Entry V) (valid : IsValid c)
      (absent : Absent idx c.entries) (turn : get_elem? c.entries c.next ≡ some e)
      (evicted : evict dispose e w ≡ done w') where
    after-lt : c.next < length c.entries
    after-lt = omega (arith, valid.width, valid.turn)

    -- On a valid cache without the index, whose entry in turn is evicted without a fault, a
    -- client that gets the index, stores a value and marks the entry valid ends in the state
    -- where that entry carries the index and the value, is valid, and the next entry is in turn.
    pub fill_lem : (v : V) → fill c idx v w ≡ done (filled c idx v, w')
    unfolding store entry_mark_valid
    fill_lem v =
        let at : (x : Entry V) → get_elem? (set c.entries c.next x) c.next ≡ some x =
          λ x. get_elem?-set_self c.entries c.next x after-lt in
        rw (get_miss dispose c idx w w' e valid absent turn evicted) (
          rw (at (record e { valid = false; idx = idx }), store, set-set)
            (rw (at (record { valid = false; idx = idx; value = v }), entry_mark_valid, set-set)))

    get-filled :
        (v : V) (w₂ : W)
        → get dispose (filled c idx v) idx w₂ ≡ done (c.next, filled c idx v, w₂)
          × (load (filled c idx v) c.next ≡ done v)
    unfolding load
    get-filled v w₂ =
        let new : Entry V = record { valid = true; idx = idx; value = v } in
        let there : find idx 0 (filled c idx v).entries ≡ some (c.next, new) =
          find-set idx 0 c.next c.entries new absent after-lt refl ∙ rw (zero-add c.next) in
        (
          get_hit dispose (filled c idx v) idx c.next new w₂ there refl,
          rw (get_elem?-set_self c.entries c.next new after-lt, load),
        )

    -- On a valid cache without the index, whose entry in turn is evicted without a fault, the
    -- calls of a client on a miss, `sqfs_cache_get`, the store of a value in the entry and
    -- `sqfs_cache_entry_mark_valid`, end without a fault in a state where `sqfs_cache_get` of the
    -- same index returns that entry and changes nothing, and the entry holds the stored value.
    pub get-fill :
        (v : V) (w₂ : W)
        → (d : Cache V) × (fill c idx v w ≡ done (d, w'))
          × (get dispose d idx w₂ ≡ done (c.next, d, w₂))
          × (load d c.next ≡ done v)
    get-fill v w₂ = let again = get-filled v w₂ in (filled c idx v, fill_lem v, again.0, again.1)

  -- On a new cache with at least one entry, made where the allocations succeed, `sqfs_cache_get`
  -- of index 0 fails an assertion.
  pub get-init_fault :
      (grants : ℕ → Bool) (blank : V) (size count : ℕ) (w : W)
      → 0 < count
      → grants internal_bytes ≡ true
      → grants (count * (size + header_bytes)) ≡ true
      → (c : Cache V) × (init grants blank size count ≡ (ok, some c))
        × (get dispose c 0 w ≡ fault assertion)
  unfolding init get find
  get-init_fault grants blank size count w some_entries first second =
      let empty : Entry V = record { valid = false; idx = 0; value = blank } in
      elim (ℕ-cases count) [
        | inl zero' ↦ absurd (omega arith)
        | inr (n, e) ↦ (
          record { count = count; next = 0; entries = replicate count empty },
          rw (first, second),
          rw e refl,
        )
      ]

-- Turns in a ring of m entries, from the one after a: entry a is reached at the m-th and no sooner.
turn_mod : (a n m : ℕ) → m ≤ a + 1 + n → a + 1 + n < m + m → (a + 1 + n) % m ≡ a + 1 + n - m
turn_mod a n m h k = mod-eq-sub-mod h ∙ mod-eq_of_lt (omega arith)

turn_elsewhere : (a n m : ℕ) → a < m → n + 1 < m → (a + 1 + n) % m ≢ a
turn_elsewhere a n m h k e = elim (dec_lt (a + 1 + n) m) [
  | yes short ↦ absurd (omega (arith, mod-eq_of_lt short))
  | no long ↦ absurd (omega (arith, turn_mod a n m (omega arith) (omega arith)))
]

-- The states that n misses lead to, each with the entry in turn filled.
pub data Fills {V : Type 0} (c : Cache V) : ℕ → Cache V → Type 0 where
  start : Fills c 0 c
  miss :
      {n : ℕ} {d : Cache V} (idx : ℕ) (v : V)
      → Fills c n d
      → Absent idx d.entries
      → Fills c (suc n) (filled d idx v)

module _ {V : Type 0} where
  record Turn (c : Cache V) (n : ℕ) (d : Cache V) : Type 0 where
    count : d.count ≡ c.count
    width : length d.entries ≡ length c.entries
    next : d.next ≡ (c.next + n) % c.count

  Fills-Turn : (c : Cache V) {n : ℕ} {d : Cache V} → IsValid c → Fills c n d → Turn c n d
  Fills-Turn c valid start = record {
    count = refl;
    width = refl;
    next = rw (add-zero c.next) (sym (mod-eq_of_lt valid.turn));
  }
  Fills-Turn c valid (miss {n = n} {d = d} idx v before absent) =
      let t = Fills-Turn c valid before in
      record {
        count = t.count;
        width = length-set d.entries d.next _ ∙ t.width;
        next =
            rw (t.next, t.count, mod-add-mod (c.next + n) c.count 1)
              (ap (λ (k : ℕ). k % c.count) (omega arith));
      }

  pub filled-IsValid : (c : Cache V) (idx : ℕ) (v : V) → IsValid c → IsValid (filled c idx v)
  filled-IsValid c idx v valid = record {
    some_entries = valid.some_entries;
    width = length-set c.entries c.next _ ∙ valid.width;
    turn = mod-lt (c.next + 1) valid.some_entries;
  }

  -- An entry that a client has filled keeps its index and its value for the next count - 1 misses.
  pub filled_stays :
      (c : Cache V) (idx : ℕ) (v : V) {n : ℕ} {d : Cache V}
      → IsValid c
      → Fills (filled c idx v) n d
      → n < c.count
      → get_elem? d.entries c.next ≡ some (record { valid = true; idx = idx; value = v })
  filled_stays c idx v valid start few =
      get_elem?-set_self c.entries c.next _ (omega (arith, valid.width, valid.turn))
  filled_stays c idx v valid (miss {n = n} {d = d} idx' v' before absent) few =
      let t = Fills-Turn (filled c idx v) (filled-IsValid c idx v valid) before in
      let elsewhere : d.next ≢ c.next = (λ e.
        turn_elsewhere c.next n c.count valid.turn (omega arith)
          (sym (mod-add-mod (c.next + 1) c.count n) ∙ sym t.next ∙ e)) in
      get_elem?-set_ne d.entries d.next c.next _ elsewhere
      ∙ filled_stays c idx v valid before (omega arith)

  -- The count-th miss takes its place.
  pub filled_evicted :
      (c : Cache V) (idx : ℕ) (v : V) {n : ℕ} {d : Cache V}
      → IsValid c
      → Fills (filled c idx v) n d
      → n + 1 ≡ c.count
      → d.next ≡ c.next
  filled_evicted c idx v {n = n} {d = d} valid before full =
      let t = Fills-Turn (filled c idx v) (filled-IsValid c idx v valid) before in
      t.next
      ∙ mod-add-mod (c.next + 1) c.count n
      ∙ turn_mod c.next n c.count (omega arith) (omega (arith, valid.turn))
      ∙ omega arith
