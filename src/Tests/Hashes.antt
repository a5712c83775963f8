-- ===== src/Tests/Hashes.antt =====
-- Runs of hash.c.
use squashfuse.Common.{
  ℕ, ◌+◌, ◌*◌, ◌^◌, ◌≡◌, ◌⊎◌, refl, Bool, true, false, Option, none, some, [], ◌∷◌, ok, err, done,
  fault, out_of_bounds, ◌>>=◌, arith,
}
use squashfuse.Hash.{Hash, slot, chain_get, init, get, assign, remove, double, add}
use mathlib.Core.List.{flatten}
use squashfuse.Hash.Laws.{update, Represents, found, get_lem}
use squashfuse.Hash.Writes.{remove-Represents, assign-Represents}
use squashfuse.Hash.Doubling.{
  init-Represents, init-accepts, double-Represents, add-Represents, get-add_refused,
}

abbrev plenty : ℕ → Bool
plenty n = true

abbrev nothing : ℕ → Bool
nothing n = false

abbrev empty : Hash ℕ
empty = (init plenty 4 1).1

abbrev absent : ℕ → Option ℕ
absent q = none

empty-Represents : Represents empty absent
empty-Represents = (init-Represents ℕ plenty 4 1 0 refl (omega arith) (omega arith) refl).1

abbrev one : ℕ → Option ℕ
one = update absent 5 (some 50)

add-Represents_example :
    (h' : Hash ℕ) × (add plenty empty 5 50 ≡ done (ok, h'))
    × Represents h' one
    × (h'.size ≡ empty.size + 1)
    × (h'.value_size ≡ empty.value_size)
unfolding init
add-Represents_example =
    add-Represents plenty empty absent 5 50 empty-Represents refl (omega arith) refl refl

-- The table that this leaves: the next entry makes it grow.
abbrev full : Hash ℕ
full = record { value_size = 4; capacity = 1; size = 1; buckets = ((5, 50) ∷ []) ∷ [] }

full-Represents : Represents full one
unfolding slot chain_get flatten
full-Represents = record {
  log = 0;
  power = refl;
  nonempty = omega arith;
  small = omega arith;
  width = refl;
  placed = ((refl, refl, tt), tt);
  load = omega arith;
  counted = refl;
  reads = λ q. ground arith;
}

get_lem_example : get full 5 ≡ done (some 50)
get_lem_example = get_lem full one full-Represents 5

double-Represents_example :
    (h' : Hash ℕ) × (double plenty full ≡ done (ok, h'))
    × Represents h' one
    × (h'.size ≡ full.size)
    × (h'.capacity ≡ full.capacity * 2)
    × (h'.value_size ≡ full.value_size)
unfolding init add double
double-Represents_example =
    double-Represents plenty full one full-Represents (omega arith) refl refl

remove-Represents_example :
    (h' : Hash ℕ) × (remove full 5 ≡ done (ok, h'))
    × Represents h' (update one 5 none)
    × (h'.size + found (one 5) ≡ full.size)
remove-Represents_example = remove-Represents full one full-Represents 5

assign-Represents_test :
    (h' : Hash ℕ) × (assign full 5 51 ≡ done h')
    × Represents h' (update one 5 (some 51))
    × (h'.size ≡ full.size)
    × (h'.value_size ≡ full.value_size)
assign-Represents_test = assign-Represents full one full-Represents 5 51 50 refl

get-add_refused_example :
    (add nothing full 6 60 >>= λ r. done r.0) ≡ done err
    × ((add nothing full 6 60 >>= λ r. get r.1 6) ≡ fault out_of_bounds)
get-add_refused_example = get-add_refused nothing full 6 6 60 (omega arith) refl

init-accepts_test : (◌≡◌ {A = ℕ} 4 0) ⊎ ((log : ℕ) × (◌≡◌ {A = ℕ} 4 (2 ^ log)))
unfolding init
init-accepts_test = init-accepts ℕ plenty 4 4 (omega arith) refl
