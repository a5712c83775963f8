-- ===== src/Cache/Sequences.antt =====
-- Sequences of misses of cache.c's cache, each filled by its client.
use squashfuse.Common.{
  ℕ, suc, ◌+◌, ◌<◌, ◌≡◌, refl, sym, ap, ◌∙◌, ◌⊎◌, inl, inr, true, false, some, get_elem?,
  get_elem?-lt, Outcome, done, fault, Fault, ◌==◌, arith,
}
use squashfuse.Cache.{Cache, get, claim, evict}
use squashfuse.Cache.Laws.{IsValid, Absent, find-eq-none}
use squashfuse.Cache.Misses.{
  filled, fill, fill_lem, Fills, start, miss, filled-IsValid, filled_stays, filled_evicted,
}

Outcome-cases :
    {A : Type 0} (o : Outcome A) → ((a : A) × (o ≡ done a)) ⊎ ((f : Fault) × (o ≡ fault f))
Outcome-cases (done a) = inl (a, refl)
Outcome-cases (fault f) = inr (f, refl)

done_injective : {A : Type 0} {a b : A} → done a ≡ done b → a ≡ b
done_injective e = cc

module _ {V W : Type 0} (dispose : V → W → Outcome W) where
  -- A fill that ends normally leaves the state that `filled` describes.
  fill-filled :
      (c d : Cache V) (idx : ℕ) (v : V) (w w' : W)
      → IsValid c
      → Absent idx c.entries
      → fill dispose c idx v w ≡ done (d, w')
      → d ≡ filled c idx v
  unfolding get claim
  fill-filled c d idx v w w' valid absent run =
      let (e, turn) = get_elem?-lt c.entries c.next (omega (arith, valid.width, valid.turn)) in
      elim (Outcome-cases (evict dispose e w)) [
        | inl (w'', evicted) ↦
            let runs : done (d, w') ≡ done (filled c idx v, w'') =
              sym run ∙ fill_lem dispose c idx w w'' e valid absent turn evicted v in
            ap (λ p. p.0) (done_injective runs)
        | inr (f, faults) ↦
            let some_left : (c.count == 0) ≡ false = ground (arith, valid.some_entries) in
            let stops : fill dispose c idx v w ≡ fault f =
              rw (find-eq-none idx 0 c.entries absent, get, some_left, turn, claim, faults) refl in
            let both : done (d, w') ≡ fault f = sym run ∙ stops in absurd (ground arith)
      ]

  -- n misses of the cache, one after the other, each filled.
  pub data Misses (c : Cache V) : ℕ → Cache V → Type 0 where
    none_yet : Misses c 0 c
    another :
        {n : ℕ} {d d' : Cache V} (idx : ℕ) (v : V) (w w' : W)
        → Misses c n d
        → Absent idx d.entries
        → fill dispose d idx v w ≡ done (d', w')
        → Misses c (suc n) d'

  Misses-Fills :
      (c : Cache V) {n : ℕ} {d : Cache V} → IsValid c → Misses c n d → IsValid d × Fills c n d
  Misses-Fills c valid none_yet = (valid, start)
  Misses-Fills c valid (another {d = d} {d' = d'} idx v w w' before absent run) =
      let (there, fills) = Misses-Fills c valid before in
      rw (fill-filled d d' idx v w w' there absent run)
        (filled-IsValid d idx v there, miss idx v fills absent)

  module _ (c : Cache V) (idx : ℕ) (v : V) (w w' : W) {n : ℕ} {d₀ d : Cache V} (valid : IsValid c)
      (absent : Absent idx c.entries) (run : fill dispose c idx v w ≡ done (d₀, w'))
      (later : Misses d₀ n d) where
    after_fill : Fills (filled c idx v) n d
    after_fill =
        let same = fill-filled c d₀ idx v w w' valid absent run in
        let start' : IsValid d₀ = rw same (filled-IsValid c idx v valid) in
        rw same at (Misses-Fills d₀ start' later).1

    -- After a client fills an entry for an index that a valid cache of count entries does not
    -- have, that entry keeps its index and its value, and is valid, over any sequence of fewer
    -- than count further misses that are filled.
    pub fill_stays :
        n < c.count
        → get_elem? d.entries c.next ≡ some (record { valid = true; idx = idx; value = v })
    fill_stays few = filled_stays c idx v valid after_fill few

    -- After a client fills an entry for an index that a valid cache of count entries does not
    -- have, and count - 1 further misses are filled, that entry is in turn to be evicted.
    pub fill_evicted : n + 1 ≡ c.count → d.next ≡ c.next
    fill_evicted full = filled_evicted c idx v valid after_fill full
