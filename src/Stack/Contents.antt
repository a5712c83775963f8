-- ===== src/Stack/Contents.antt =====
-- What stack.c's array holds, as a list with the top at its end: stack.c refines such a list.
use squashfuse.Common.{
  ℕ, ◌+◌, ◌-◌, ◌*◌, ◌%◌, ◌≤◌, ◌<◌, ◌≡◌, refl, ◌∙◌, Bool, true, false, Option, none, some, List, [],
  ◌∷◌, ◌++◌, take, replicate, set, length, SqfsErr, ok, err, length-append, length-take,
  length-replicate, take-append, take-take, take-suc-set, arith, ◌==◌, lt→leb, Bool-cases, inl, inr,
}
use native.Mathlib.Nat.{mod-eq_of_lt, mul-div_left}
use native.Mathlib.Numerals.{add-one}
use squashfuse.Stack.{Stack, size_mod, next_capacity, resize, ensure_capacity, grow, push, top, at}
use squashfuse.Stack.Growth.{next_capacity_bounds}

module _ {ℓ} {A : Type ℓ} (junk : A) where
  pub length-resize : (n : ℕ) (xs : List A) → length (resize junk n xs) ≡ n
  unfolding resize
  length-resize n xs = rw (length-append, length-take, length-replicate) (omega arith)

  pub take-resize :
      (k n : ℕ) (xs : List A) → k ≤ n → k ≤ length xs → take k (resize junk n xs) ≡ take k xs
  unfolding resize
  take-resize k n xs h l =
      take-append k (take n xs) (replicate (n - length xs) junk) (omega (arith, length-take n xs))
      ∙ take-take k n xs h

module _ {ℓ} {A W : Type ℓ} where
  -- The array has the slots that the fields promise.
  pub record IsValid (s : Stack A W) : Type ℓ where
    pub within : s.size ≤ s.capacity
    pub backed : s.capacity ≤ length s.items

  -- The elements, the top at the end.
  abbrev pub contents : Stack A W → List A
  contents s = take s.size s.items

  -- The caller writes `v` through a slot's address.
  abbrev pub write : Stack A W → ℕ → A → Stack A W
  write s i v = record s { items = set s.items i v }

  -- A stack with room for n more bytes: the next allocation is granted and its size does not wrap.
  pub record HasRoom (grants : ℕ → Bool) (s : Stack A W) : Type ℓ where
    pub slot : 0 < s.value_size
    pub small : s.capacity + 1 < size_mod
    pub fits : next_capacity s.capacity * s.value_size < size_mod
    pub granted : grants (next_capacity s.capacity * s.value_size) ≡ true

pub top_lem {ℓ} : {A W : Type ℓ} (s : Stack A W) (n : ℕ) → s.size ≡ n + 1 → top s ≡ (ok, some n)
unfolding top at
top_lem s n e = ground arith

module _ {ℓ} {A W : Type ℓ} (grants : ℕ → Bool) (junk : A) where
  ensure_capacity_lem :
      (s : Stack A W) (cap : ℕ)
      → IsValid s
      → s.capacity < cap
      → 0 < s.value_size
      → cap * s.value_size < size_mod
      → grants (cap * s.value_size) ≡ true
      → ensure_capacity grants junk s cap
        ≡ (ok, record s { items = resize junk cap s.items; capacity = cap })
  unfolding ensure_capacity
  ensure_capacity_lem s cap v h p f g =
      rw (lt→leb cap s.capacity h, mod-eq_of_lt f, g, mul-div_left cap p)

  -- The state that a successful `grow` leaves.
  record Grown (s t : Stack A W) : Type ℓ where
    valid : IsValid t
    one_more : t.size ≡ s.size + 1
    same_width : t.value_size ≡ s.value_size
    same_freer : t.freer ≡ s.freer
    kept : take s.size t.items ≡ contents s

  grow-Grown :
      (s : Stack A W)
      → IsValid s
      → HasRoom grants s
      → ((grow grants junk s).0 ≡ ok) × Grown s (grow grants junk s).1
  unfolding grow
  grow-Grown s v room = elim (Bool-cases (s.size == s.capacity)) [
    | inl full ↦
        let (more, below, _) = next_capacity_bounds s.capacity room.small in
        let e =
          ensure_capacity_lem s (next_capacity s.capacity) v more room.slot room.fits
            room.granted in
        rw (full, e)
          (
            refl,
            record {
              valid = record {
                within = omega arith;
                backed = omega (arith, length-resize junk (next_capacity s.capacity) s.items);
              };
              one_more = refl;
              same_width = refl;
              same_freer = refl;
              kept =
                  take-resize junk s.size (next_capacity s.capacity) s.items (omega arith)
                    (omega arith);
            },
          )
    | inr roomy ↦ rw roomy (
      refl,
      record {
        valid = record { within = ground arith; backed = omega arith };
        one_more = refl;
        same_width = refl;
        same_freer = refl;
        kept = refl;
      },
    )
  ]

  -- What a successful push does, whatever the caller then writes into the new slot.
  pub record Pushed (s : Stack A W) (r : SqfsErr × Stack A W × Option ℕ) : Type ℓ where
    pub succeeds : r.0 ≡ ok
    pub slot : r.2 ≡ some s.size
    pub valid : IsValid r.1
    pub one_more : r.1.size ≡ s.size + 1
    pub same_freer : r.1.freer ≡ s.freer
    pub written : (v : A) → contents (write r.1 s.size v) ≡ contents s ++ v ∷ []

  -- On a valid stack with room to grow, `sqfs_stack_push` succeeds and returns the slot at the
  -- old size, the stack stays valid with one element more and the same callback, and once the
  -- caller writes v to the slot the contents are the old ones followed by v.
  pub push-Pushed : (s : Stack A W) → IsValid s → HasRoom grants s → Pushed s (push grants junk s)
  unfolding push
  push-Pushed s v room =
      let (e, g) = grow-Grown s v room in
      let t = (grow grants junk s).1 in
      let after : push grants junk s ≡ (ok, t, some s.size) = rw (e, top_lem t s.size g.one_more) in
      let wide : s.size < length t.items = omega (arith, g.valid.within, g.valid.backed) in
      rw after (record {
        succeeds = refl;
        slot = refl;
        valid = g.valid;
        one_more = g.one_more;
        same_freer = g.same_freer;
        written = λ x. rw (g.one_more, add-one, take-suc-set s.size t.items x wide, g.kept);
      })

  -- If a full stack cannot get memory for the next capacity, `sqfs_stack_push` returns an error,
  -- writes no slot and leaves the stack as it was.
  pub push_refused :
      (s : Stack A W)
      → s.size ≡ s.capacity
      → s.capacity + 1 < size_mod
      → grants (next_capacity s.capacity * s.value_size % size_mod) ≡ false
      → push grants junk s ≡ (err, s, none)
  unfolding push grow ensure_capacity
  push_refused s full small refused = ground (arith, next_capacity_bounds s.capacity)
