-- ===== src/Stack/Growth.antt =====
-- The capacity of stack.c's array.
use squashfuse.Common.{ℕ, ◌+◌, ◌*◌, ◌<◌, ◌≤◌, arith}
use squashfuse.Stack.{next_capacity, size_mod, capacity_default}

-- For a capacity whose successor fits 64 bits, the next capacity is larger, fits 64 bits, and
-- exceeds it by at most one half and the default, also where the product overflows.
pub next_capacity_bounds :
    (cap : ℕ)
    → cap + 1 < size_mod
    → (cap < next_capacity cap)
      × (next_capacity cap < size_mod)
      × (2 * next_capacity cap ≤ 3 * cap + 2 * capacity_default)
unfolding next_capacity
next_capacity_bounds cap h = ground arith
