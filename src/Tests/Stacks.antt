-- ===== src/Tests/Stacks.antt =====
-- Runs of stack.c.
use squashfuse.Common.{
  ℕ, ◌+◌, ◌*◌, ◌<◌, ◌≤◌, ◌≡◌, refl, Bool, true, false, none, some, List, [], ◌∷◌, err, done, fault,
  null_pointer, arith,
}
use mathlib.Core.List.{foldr}
use squashfuse.Stack.{Stack, size_mod, capacity_default, next_capacity, push, pop, init, destroy}
use squashfuse.Stack.Contents.{IsValid, contents, HasRoom, Pushed, push-Pushed, push_refused}
use squashfuse.Stack.Growth.{next_capacity_bounds}
use squashfuse.Stack.Release.{lower, pop_lem, destroy-foldr, destroy-init_fault}

abbrev plenty : ℕ → Bool
plenty n = true

abbrev nothing : ℕ → Bool
nothing n = false

-- The callback keeps a log.
abbrev log_value : ℕ → List ℕ → List ℕ
log_value v w = v ∷ w

abbrev two_items : Stack ℕ (List ℕ)
two_items = record {
  value_size = 4;
  size = 2;
  capacity = 2;
  items = 7 ∷ 9 ∷ [];
  freer = some log_value;
}

two_items-IsValid : IsValid two_items
two_items-IsValid = record { within = omega arith; backed = omega arith }

two_items-HasRoom : HasRoom plenty two_items
unfolding next_capacity
two_items-HasRoom = record {
  slot = omega arith;
  small = omega arith;
  fits = ground arith;
  granted = refl;
}

push-Pushed_example : Pushed plenty 0 two_items (push plenty 0 two_items)
push-Pushed_example = push-Pushed plenty 0 two_items two_items-IsValid two_items-HasRoom

push_refused_test : push nothing 0 two_items ≡ (err, two_items, none)
push_refused_test = push_refused nothing 0 two_items refl (omega arith) refl

pop_lem_example :
    (pop two_items [] ≡ done (true, lower two_items, 9 ∷ []))
    × (contents (lower two_items) ≡ 7 ∷ [])
    × IsValid (lower two_items)
pop_lem_example = pop_lem two_items [] log_value (7 ∷ []) 9 two_items-IsValid refl refl

destroy-foldr_example :
    destroy two_items []
    ≡ done (
      record two_items { size = 0; capacity = 0; items = [] },
      foldr log_value [] (contents two_items),
    )
destroy-foldr_example = destroy-foldr two_items [] log_value two_items-IsValid refl

destroy-init_fault_example : destroy (init two_items) [] ≡ fault null_pointer
destroy-init_fault_example = destroy-init_fault two_items [] log_value refl (omega arith)

next_capacity_bounds_test :
    (8 < next_capacity 8)
    × (next_capacity 8 < size_mod)
    × (2 * next_capacity 8 ≤ 3 * 8 + 2 * capacity_default)
next_capacity_bounds_test = next_capacity_bounds 8 (omega arith)
