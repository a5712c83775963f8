-- ===== src/Cache/Laws.antt =====
-- Hits of cache.c's cache, and what a miss does to the entries.
use squashfuse.Common.{
  ℕ, zero, suc, ◌+◌, ◌-◌, ◌%◌, ◌≤◌, ◌<◌, ◌≡◌, refl, ◌∙◌, ◌≢◌, true, false, none, some, List, [],
  ◌∷◌, set, get_elem?, length, length-set, Outcome, done, ◌==◌, arith, Bool-cases, inl, inr,
}
use native.Mathlib.Nat.{mod-lt}
use squashfuse.Cache.{
  Cache, Entry, find, entry_valid, load, store, entry_mark_valid, evict, claim, get,
}

module _ {V : Type 0} where
  -- The array has `count` entries, one at least, and the turn is one of them.
  pub record IsValid (c : Cache V) : Type 0 where
    pub some_entries : 0 < c.count
    pub width : length c.entries ≡ c.count
    pub turn : c.next < c.count

  -- No entry from the front on carries the index.
  abbrev pub Absent : ℕ → List (Entry V) → Type 0
  Absent idx [] = Unit {0}
  Absent idx (e ∷ es) = (e.idx ≢ idx) × Absent idx es

  pub find-eq-none : (idx i : ℕ) (es : List (Entry V)) → Absent idx es → find idx i es ≡ none
  unfolding find
  find-eq-none idx i [] h = refl
  find-eq-none idx i (e ∷ es) h = ground (arith, find-eq-none idx (suc i) es)

  pub Absent-find : (idx i : ℕ) (es : List (Entry V)) → find idx i es ≡ none → Absent idx es
  unfolding find
  Absent-find idx i [] h = tt
  Absent-find idx i (e ∷ es) h = ground (arith, Absent-find idx (suc i) es)

  -- After a write of one entry of an array without the index, the search finds that entry.
  pub find-set :
      (idx i j : ℕ) (es : List (Entry V)) (e : Entry V)
      → Absent idx es
      → j < length es
      → e.idx ≡ idx
      → find idx i (set es j e) ≡ some (i + j, e)
  unfolding find
  find-set idx i j [] e h lt same = absurd (omega arith)
  find-set idx i zero (d ∷ es) e h lt same = ground arith
  find-set idx i (suc j) (d ∷ es) e h lt same = ground (arith, find-set idx (suc i) j es e)

  -- What the search finds stands there and carries the index.
  pub find-some :
      (idx i j : ℕ) (es : List (Entry V)) (e : Entry V)
      → find idx i es ≡ some (j, e)
      → (i ≤ j) × (get_elem? es (j - i) ≡ some e) × (e.idx ≡ idx)
  unfolding find
  find-some idx i j [] e h = absurd (ground arith)
  find-some idx i j (d ∷ es) e h = elim (Bool-cases (d.idx == idx)) [
    | inl same ↦
        let here : i ≡ j = ground arith in
        let first : j - i ≡ 0 = omega arith in (omega arith, rw first (ground arith), ground arith)
    | inr other ↦
        let (le, there, same) = find-some idx (suc i) j es e (rw other at h) in
        let shift : j - i ≡ suc (j - suc i) = omega arith in (omega arith, rw shift there, same)
  ]

module _ {V W : Type 0} (dispose : V → W → Outcome W) where
  -- A valid entry is found and nothing changes.
  pub get_hit :
      (c : Cache V) (idx i : ℕ) (e : Entry V) (w : W)
      → find idx 0 c.entries ≡ some (i, e)
      → e.valid ≡ true
      → get dispose c idx w ≡ done (i, c, w)
  unfolding get
  get_hit c idx i e w there valid = rw (there, get, valid)

  -- The state after a miss: the entry whose turn it was carries the index and is not valid.
  abbrev pub claimed : Cache V → ℕ → Entry V → Cache V
  claimed c idx e = record c {
    next = (c.next + 1) % c.count;
    entries = set c.entries c.next (record e { valid = false; idx = idx });
  }

  module _ (c : Cache V) (idx : ℕ) (w w' : W) (e : Entry V) (ok' : IsValid c) where
    pub turn-lt : c.next < length c.entries
    turn-lt = omega (arith, ok'.width, ok'.turn)

    pub get_miss :
        Absent idx c.entries
        → get_elem? c.entries c.next ≡ some e
        → evict dispose e w ≡ done w'
        → get dispose c idx w ≡ done (c.next, claimed c idx e, w')
    unfolding get claim
    get_miss absent turn evicted =
        let some_left : (c.count == 0) ≡ false = ground (arith, ok'.some_entries) in
        rw (find-eq-none idx 0 c.entries absent, get, some_left, turn, claim, evicted)

    pub claimed-IsValid : IsValid (claimed c idx e)
    claimed-IsValid = record {
      some_entries = ok'.some_entries;
      width = length-set c.entries c.next _ ∙ ok'.width;
      turn = mod-lt (c.next + 1) ok'.some_entries;
    }

-- An entry that is there can be read, written, and marked valid once.
module _ {V : Type 0} (c : Cache V) (i : ℕ) (e : Entry V)
    (there : get_elem? c.entries i ≡ some e) where
  pub load_lem : load c i ≡ done e.value
  unfolding load
  load_lem = rw (there, load)

  pub entry_valid_lem : entry_valid c i ≡ done e.valid
  unfolding entry_valid
  entry_valid_lem = rw (there, entry_valid)

  pub store_lem :
      (v : V) → store c i v ≡ done (record c { entries = set c.entries i (record e { value = v }) })
  unfolding store
  store_lem v = rw (there, store)

  pub entry_mark_valid_lem :
      e.valid ≡ false
      → entry_mark_valid c i
        ≡ done (record c { entries = set c.entries i (record e { valid = true }) })
  unfolding entry_mark_valid
  entry_mark_valid_lem invalid = rw (there, entry_mark_valid, invalid)
