-- ===== src/Stack.antt =====
-- stack.c and stack.h: a growing array of values of one size.
-- A slot of `items` is one element of a list. A `void **` out-parameter that receives a slot's
-- address is the slot's index, and is `none` where the code leaves it unwritten.
pub mod Growth
pub mod Contents
pub mod Release
use squashfuse.Common.{
  ℕ, zero, suc, ◌+◌, ◌-◌, ◌*◌, ◌/◌, ◌%◌, ◌^◌, Bool, true, false, Option, none, some, List, [], ◌++◌,
  take, replicate, length, get_elem?, SqfsErr, ok, err, failed, Outcome, done, fault, Fault,
  null_pointer, out_of_fuel, ◌>>=◌, ltb, leb, ◌==◌, if◌then◌else◌,
}

abbrev pub size_mod : ℕ
size_mod = 2 ^ 64

abbrev pub capacity_default : ℕ
capacity_default = 8

-- `W` is what the callback `freer` acts on.
pub record Stack {ℓ} (A W : Type ℓ) : Type ℓ where
  pub value_size : ℕ
  pub size : ℕ
  pub capacity : ℕ
  pub items : List A
  pub freer : Option (A → W → W)

-- `realloc` to a number of whole slots keeps what fits; `junk` is what fresh memory holds.
unfoldable pub resize {ℓ} : {A : Type ℓ} → A → ℕ → List A → List A
resize junk n xs = take n xs ++ replicate (n - length xs) junk

-- `grants n` says whether an allocation of n bytes succeeds.
module _ {ℓ} {A W : Type ℓ} (grants : ℕ → Bool) (junk : A) where
  -- The product that `realloc` is given wraps around.
  unfoldable pub ensure_capacity : Stack A W → ℕ → SqfsErr × Stack A W
  ensure_capacity s cap =
      let bytes = cap * s.value_size % size_mod in
      if leb cap s.capacity
      then (ok, s)
      else (if grants bytes
          then (ok, record s { items = resize junk (bytes / s.value_size) s.items; capacity = cap })
          else (err, s))

  -- `sqfs_stack_create`: the fields that the call leaves are those it sets.
  unfoldable pub create : ℕ → ℕ → Option (A → W → W) → SqfsErr × Stack A W
  create vsize initial freer =
      ensure_capacity
        (record { value_size = vsize; size = 0; capacity = 0; items = []; freer = freer }) initial

-- `cap * 3 / 2` with the product in 64 bits.
unfoldable pub next_capacity : ℕ → ℕ
next_capacity cap =
    let n = cap * 3 % size_mod / 2 in
    if cap == 0 then capacity_default else (if leb n cap then (cap + 1) % size_mod else n)

module _ {ℓ} {A W : Type ℓ} where
  unfoldable pub at : Stack A W → ℕ → SqfsErr × Option ℕ
  at s i = if leb s.size i then (err, none) else (ok, some i)

  unfoldable pub top : Stack A W → SqfsErr × Option ℕ
  top s = if s.size == 0 then (err, none) else at s (s.size - 1)

  -- `sqfs_stack_init` sets `items` and `capacity` only.
  unfoldable pub init : Stack A W → Stack A W
  init s = record s { items = []; capacity = 0 }

  -- The callback reads its value through the slot's address.
  unfoldable pub call_freer : Stack A W → Option ℕ → W → Outcome W
  call_freer s none w = fault null_pointer
  call_freer s (some i) w = elim s.freer [
    | none ↦ done w
    | some f ↦ elim (get_elem? s.items i) [ none ↦ fault null_pointer | some v ↦ done (f v w) ]
  ]

  unfoldable pub pop : Stack A W → W → Outcome (Bool × Stack A W × W)
  pop s w =
      if s.size == 0
      then done (false, s, w)
      else do w' ← call_freer s (top s).1 w; done (true, record s { size = s.size - 1 }, w')

  -- `while (sqfs_stack_pop(s))`, on fuel.
  unfoldable pub pop_all : ℕ → Stack A W → W → Outcome (Stack A W × W)
  pop_all zero s w = fault out_of_fuel
  pop_all (suc fuel) s w = do
    (popped, s', w') ← pop s w
    elim popped [ true ↦ pop_all fuel s' w' | false ↦ done (s', w') ]

  unfoldable pub destroy : Stack A W → W → Outcome (Stack A W × W)
  destroy s w = do (s', w') ← pop_all (s.size + 1) s w; done (init s', w')

module _ {ℓ} {A W : Type ℓ} (grants : ℕ → Bool) (junk : A) where
  unfoldable pub grow : Stack A W → SqfsErr × Stack A W
  grow s =
      let (e, s') = ensure_capacity grants junk s (next_capacity s.capacity) in
      if s.size == s.capacity
      then (if failed e then (e, s') else (ok, record s' { size = s'.size + 1 }))
      else (ok, record s { size = s.size + 1 })

  -- The new slot is the caller's to fill, through the address in the third part.
  unfoldable pub push : Stack A W → SqfsErr × Stack A W × Option ℕ
  push s = let (e, s') = grow s in if failed e then (e, s', none) else ((top s').0, s', (top s').1)
