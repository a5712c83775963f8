-- ===== src/Tests/Caches.antt =====
-- Runs of cache.c.
use squashfuse.Common.{
  ℕ, ◌≡◌, refl, Bool, true, some, List, [], ◌∷◌, get_elem?, ok, Outcome, done, fault, assertion,
  arith,
}
use squashfuse.Cache.{Cache, Entry, init, find, get, claim, load, store, entry_mark_valid, evict}
use squashfuse.Cache.Laws.{IsValid, Absent}
use squashfuse.Cache.Misses.{filled, fill, fill_lem, get-fill, get-init_fault}
use squashfuse.Cache.Sequences.{Misses, none_yet, another, fill_stays, fill_evicted}

abbrev plenty : ℕ → Bool
plenty n = true

-- The callback keeps a log.
abbrev dispose : ℕ → List ℕ → Outcome (List ℕ)
dispose v w = done (v ∷ w)

abbrev old_entry : Entry ℕ
old_entry = record { valid = true; idx = 96; value = 1 }

abbrev two_entries : Cache ℕ
two_entries = record {
  count = 2;
  next = 0;
  entries = old_entry ∷ record { valid = true; idx = 200; value = 2 } ∷ [];
}

two_entries-IsValid : IsValid two_entries
two_entries-IsValid = record { some_entries = omega arith; width = refl; turn = omega arith }

two_entries-Absent : Absent 500 two_entries.entries
two_entries-Absent = (omega arith, (omega arith, tt))

evict_old : evict dispose old_entry [] ≡ done (1 ∷ [])
unfolding evict
evict_old = refl

fill_lem_test : fill dispose two_entries 500 5 [] ≡ done (filled two_entries 500 5, 1 ∷ [])
fill_lem_test =
    fill_lem dispose two_entries 500 [] (1 ∷ []) old_entry two_entries-IsValid two_entries-Absent
      refl evict_old 5

get-fill_example :
    (d : Cache ℕ) × (fill dispose two_entries 500 5 [] ≡ done (d, 1 ∷ []))
    × (get dispose d 500 [] ≡ done (0, d, []))
    × (load d 0 ≡ done 5)
get-fill_example =
    get-fill dispose two_entries 500 [] (1 ∷ []) old_entry two_entries-IsValid two_entries-Absent
      refl evict_old 5 []

get-init_fault_test :
    (c : Cache ℕ) × (init plenty 0 8 2 ≡ (ok, some c)) × (get dispose c 0 [] ≡ fault assertion)
get-init_fault_test = get-init_fault dispose plenty 0 8 2 [] (omega arith) refl refl

abbrev later : Cache ℕ
later = filled (filled two_entries 500 5) 600 6

first_fill : fill dispose two_entries 500 5 [] ≡ done (filled two_entries 500 5, 1 ∷ [])
unfolding find get claim evict store entry_mark_valid
first_fill = refl

second_fill : fill dispose (filled two_entries 500 5) 600 6 [] ≡ done (later, 2 ∷ [])
unfolding find get claim evict store entry_mark_valid
second_fill = refl

one_miss : Misses dispose (filled two_entries 500 5) 1 later
one_miss = another 600 6 [] (2 ∷ []) none_yet (omega arith, (omega arith, tt)) second_fill

fill_stays_example :
    get_elem? later.entries 0 ≡ some (record { valid = true; idx = 500; value = 5 })
fill_stays_example =
    fill_stays dispose two_entries 500 5 [] (1 ∷ []) two_entries-IsValid two_entries-Absent
      first_fill one_miss (omega arith)

fill_evicted_test : later.next ≡ 0
fill_evicted_test =
    fill_evicted dispose two_entries 500 5 [] (1 ∷ []) two_entries-IsValid two_entries-Absent
      first_fill one_miss refl
