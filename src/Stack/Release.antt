-- ===== src/Stack/Release.antt =====
-- Taking elements off stack.c's array, and destroying it.
use squashfuse.Common.{
  ℕ, zero, suc, ◌+◌, ◌-◌, ◌<◌, ◌≡◌, sym, ap, ◌∙◌, true, false, some, List, [], ◌∷◌, ◌++◌, take,
  length, get_elem?, done, fault, null_pointer, length-append, length-take, take-take,
  take-length_append, get_elem?-take, get_elem?-snoc, get_elem?-lt, take-suc-snoc, ℕ-cases, inl,
  inr, arith, ◌==◌, ne→==,
}
use mathlib.Core.List.{foldr, foldr-append}
use native.Mathlib.Numerals.{add-one}
use squashfuse.Stack.{Stack, pop, init, pop_all, destroy, call_freer}
use squashfuse.Stack.Contents.{IsValid, contents, top_lem}

module _ {ℓ} {A W : Type ℓ} where
  -- The stack below its top element.
  abbrev pub lower : Stack A W → Stack A W
  lower s = record s { size = s.size - 1 }

  record Splits (s : Stack A W) (xs : List A) (v : A) : Type ℓ where
    size : s.size ≡ length xs + 1
    stored : get_elem? s.items (length xs) ≡ some v
    rest : contents (lower s) ≡ xs

  contents-Splits :
      (s : Stack A W) (xs : List A) (v : A) → IsValid s → contents s ≡ xs ++ v ∷ [] → Splits s xs v
  contents-Splits s xs v valid e =
      let n : s.size ≡ length xs + 1 = omega (
        arith,
        ap length e,
        length-append xs (v ∷ []),
        length-take s.size s.items,
        valid.within,
        valid.backed,
      ) in
      let below : s.size - 1 ≡ length xs = omega arith in
      record {
        size = n;
        stored =
            sym (get_elem?-take s.size (length xs) s.items (omega arith))
            ∙ ap (λ t. get_elem? t (length xs)) e
            ∙ get_elem?-snoc xs v;
        rest = rw below (
            sym (take-take (length xs) s.size s.items (omega arith))
            ∙ ap (take (length xs)) e
            ∙ take-length_append xs (v ∷ []));
      }

  -- On a valid stack with a callback whose contents are xs followed by v, `sqfs_stack_pop` hands
  -- v to the callback, says that it popped, and leaves a valid stack with the contents xs.
  pub pop_lem :
      (s : Stack A W) (w : W) (f : A → W → W) (xs : List A) (v : A)
      → IsValid s
      → s.freer ≡ some f
      → contents s ≡ xs ++ v ∷ []
      → (pop s w ≡ done (true, lower s, f v w)) × (contents (lower s) ≡ xs) × IsValid (lower s)
  unfolding pop call_freer
  pop_lem s w f xs v valid callback e =
      let p = contents-Splits s xs v valid e in
      let some_left : (s.size == 0) ≡ false = ne→== s.size 0 (omega (arith, p.size)) in
      (
        rw (some_left, top_lem s (length xs) p.size, call_freer, callback, p.stored),
        p.rest,
        record { within = omega (arith, valid.within); backed = valid.backed },
      )

  pop_empty : (s : Stack A W) (w : W) → s.size ≡ 0 → pop s w ≡ done (false, s, w)
  unfolding pop
  pop_empty s w e = ground arith

  pop_all_lem :
      (fuel : ℕ) (s : Stack A W) (w : W) (f : A → W → W)
      → IsValid s
      → s.freer ≡ some f
      → s.size < fuel
      → pop_all fuel s w ≡ done (record s { size = 0 }, foldr f w (contents s))
  unfolding pop_all
  pop_all_lem zero s w f valid callback more = absurd (omega arith)
  pop_all_lem (suc fuel) s w f valid callback more = elim (ℕ-cases s.size) [
    | inl none_left ↦ rw (pop_empty s w none_left) (ground arith)
    | inr (n, e) ↦
        let (v, stored) = get_elem?-lt s.items n (omega (arith, valid.within, valid.backed)) in
        let split : contents s ≡ take n s.items ++ v ∷ [] =
          ap (λ t. take t s.items) e ∙ take-suc-snoc n s.items v stored in
        let (popped, rest, valid') = pop_lem s w f (take n s.items) v valid callback split in
        rw (popped, pop_all_lem fuel (lower s) (f v w) f valid' callback (omega arith))
          (rw (rest, split, foldr-append))
  ]

  -- Destroying a valid stack with a callback ends: every element goes through the callback, the
  -- top one first, and the stack is left empty.
  pub destroy-foldr :
      (s : Stack A W) (w : W) (f : A → W → W)
      → IsValid s
      → s.freer ≡ some f
      → destroy s w ≡ done (record s { size = 0; capacity = 0; items = [] }, foldr f w (contents s))
  unfolding destroy init
  destroy-foldr s w f valid callback =
      rw (pop_all_lem (s.size + 1) s w f valid callback (omega arith))

  -- Destroying a stack with a callback and a size above 0 that was then only passed to
  -- `sqfs_stack_init` reads an element through the null pointer.
  pub destroy-init_fault :
      (s : Stack A W) (w : W) (f : A → W → W)
      → s.freer ≡ some f
      → 0 < s.size
      → destroy (init s) w ≡ fault null_pointer
  unfolding destroy init pop_all pop call_freer
  destroy-init_fault s w f callback stale =
      let some_left : (s.size == 0) ≡ false = ne→== s.size 0 (omega arith) in
      rw (add-one, some_left, top_lem (init s) (s.size - 1) (omega arith), call_freer, callback)
