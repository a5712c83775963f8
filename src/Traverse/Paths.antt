-- ===== src/Traverse/Paths.antt =====
-- The path's buffer as a string: adding at its end and removing from it.
use squashfuse.Common.{
  ℕ, zero, suc, ◌+◌, ◌-◌, ◌*◌, ◌%◌, ◌^◌, ◌≤◌, ◌<◌, ◌≡◌, refl, sym, ap, ◌∙◌, Bool, true, List, [],
  ◌∷◌, ◌++◌, some, length, take, drop, set, get_elem?, ok, done, false, arith, ltb, inl, inr,
  Bool-cases, length-append, length-take, length-drop, length-set, take-take, take_all,
  get_elem?-set_self, take-length_append, append_assoc, ltb→lt,
}
use mathlib.Core.Path.{subst}
use native.Mathlib.Nat.{mod-eq_of_lt, pow-suc}
use squashfuse.Stack.{size_mod, resize}
use squashfuse.Stack.Contents.{length-resize, take-resize}
use squashfuse.Traverse.Buffer.{
  PathBuffer, terminate, overwrite, grown_cap, ensure_path, path_add, path_remove,
}

-- The memory has the capacity, the string lies within it, and a 0 stands behind the string.
pub record IsPath (p : PathBuffer) : Type 0 where
  pub backed : length p.bytes ≡ p.cap
  pub some_size : 0 < p.size
  pub within : p.size ≤ p.cap
  pub ended : get_elem? p.bytes (p.size - 1) ≡ some 0

abbrev pub string : PathBuffer → List ℕ
string p = take (p.size - 1) p.bytes

take-set : (i : ℕ) (xs : List ℕ) (v : ℕ) → take i (set xs i v) ≡ take i xs
take-set zero xs v = refl
take-set (suc i) [] v = refl
take-set (suc i) (x ∷ xs) v = ap (λ t. x ∷ t) (take-set i xs v)

-- The 0 is written behind the string.
terminate-IsPath :
    (p : PathBuffer)
    → length p.bytes ≡ p.cap
    → 0 < p.size
    → p.size ≤ p.cap
    → IsPath (terminate p) × (string (terminate p) ≡ string p)
unfolding terminate
terminate-IsPath p backed some_size within = (
  record {
    backed = length-set p.bytes (p.size - 1) 0 ∙ backed;
    some_size = some_size;
    within = within;
    ended = get_elem?-set_self p.bytes (p.size - 1) 0 (omega arith);
  },
  take-set (p.size - 1) p.bytes 0,
)

length-overwrite :
    (memory : List ℕ) (at : ℕ) (str : List ℕ)
    → at + length str ≤ length memory
    → length (overwrite memory at str) ≡ length memory
unfolding overwrite
length-overwrite memory at str h = omega (
  arith,
  length-append (take at memory) (str ++ drop (at + length str) memory),
  length-append str (drop (at + length str) memory),
  length-take at memory,
  length-drop (at + length str) memory,
)

take-overwrite :
    (memory : List ℕ) (at : ℕ) (str : List ℕ)
    → at ≤ length memory
    → take (at + length str) (overwrite memory at str) ≡ take at memory ++ str
unfolding overwrite
take-overwrite memory at str h =
    let front = take at memory ++ str in
    let width : length front ≡ at + length str =
      omega (arith, length-append (take at memory) str, length-take at memory) in
    rw (← append_assoc (take at memory) str (drop (at + length str) memory), ← width)
      (take-length_append front (drop (length front) memory))

-- Doubling reaches any need of at most half the numbers of 64 bits, before the fuel is used up.
grown_cap_bounds :
    (n k need cap : ℕ)
    → k + n ≡ 63
    → 2 ^ k ≤ cap
    → need ≤ 2 ^ 63
    → (c : ℕ) × (grown_cap (suc n) need cap ≡ done c) × (need ≤ c)
unfolding grown_cap
grown_cap_bounds zero k need cap e h small =
    let k_is : k ≡ 63 = omega (arith, e) in
    let full : 2 ^ 63 ≤ cap = subst (λ (j : ℕ). 2 ^ j ≤ cap) k_is h in
    let roomy : ltb cap need ≡ false = ground arith in (cap, rw roomy refl, omega arith)
grown_cap_bounds (suc n) k need cap e h small = elim (Bool-cases (ltb cap need)) [
  | inr roomy ↦ (cap, rw roomy refl, ground (arith, roomy))
  | inl short ↦
      let low : cap < need = ltb→lt cap need short in
      let exact : cap * 2 % size_mod ≡ cap * 2 = mod-eq_of_lt (omega arith) in
      rw (short, exact)
        (grown_cap_bounds n (suc k) need (cap * 2) (omega arith) (omega (arith, pow-suc 2 k)) small)
]

module _ (grants : ℕ → Bool) (junk : ℕ) (all : (n : ℕ) → grants n ≡ true) where
  -- A buffer with room for what is needed, and the same string.
  record Ensured (p : PathBuffer) (need : ℕ) : Type 0 where
    buffer : PathBuffer
    returns : ensure_path grants junk p need ≡ done (ok, buffer)
    same_size : buffer.size ≡ p.size
    backed : length buffer.bytes ≡ buffer.cap
    room : need ≤ buffer.cap
    kept : take (p.size - 1) buffer.bytes ≡ string p

  ensure_path-Ensured :
      (p : PathBuffer) (need : ℕ) → IsPath p → p.size ≤ need → need ≤ 2 ^ 63 → Ensured p need
  unfolding ensure_path
  ensure_path-Ensured p need is more small = elim (Bool-cases (ltb p.cap need)) [
    | inl short ↦
        let (cap, runs, enough) =
          grown_cap_bounds 63 0 need p.cap refl (omega (arith, is.some_size, is.within)) small in
        record {
          buffer = record p { bytes = resize junk cap p.bytes; cap = cap };
          returns = rw (short, runs, all cap) refl;
          same_size = refl;
          backed = length-resize junk cap p.bytes;
          room = enough;
          kept =
              take-resize junk (p.size - 1) cap p.bytes (omega arith)
                (omega (arith, is.backed, is.within));
        }
    | inr roomy ↦ record {
      buffer = p;
      returns = rw roomy refl;
      same_size = refl;
      backed = is.backed;
      room = ground (arith, roomy);
      kept = refl;
    }
  ]

  path_add_run :
      (p : PathBuffer) (str : List ℕ) (b : PathBuffer)
      → p.size + length str < size_mod
      → ensure_path grants junk p (p.size + length str) ≡ done (ok, b)
      → path_add grants junk p str (length str)
        ≡ done (
          ok,
          terminate
              (record b { bytes = overwrite b.bytes (b.size - 1) str; size = p.size + length str }),
        )
  unfolding path_add
  path_add_run p str b h run =
      let exact : (p.size + length str) % size_mod ≡ p.size + length str = mod-eq_of_lt h in
      rw (exact, run, take_all (length str) str (omega arith)) refl

  -- Where the allocations succeed, on a path's buffer that holds a string with a 0 behind it,
  -- adding characters that leave the size within 2^63 succeeds, also when the buffer has to grow,
  -- and gives such a buffer with the string and the characters at its end.
  pub path_add-IsPath :
      (p : PathBuffer) (str : List ℕ)
      → IsPath p
      → p.size + length str ≤ 2 ^ 63
      → (q : PathBuffer) × (path_add grants junk p str (length str) ≡ done (ok, q))
        × IsPath q
        × (string q ≡ string p ++ str)
  path_add-IsPath p str is small =
      let need = p.size + length str in
      let r = ensure_path-Ensured p need is (omega arith) small in
      let b = r.buffer in
      let at = b.size - 1 in
      let fits : at + length str ≤ length b.bytes =
        omega (arith, r.same_size, r.backed, r.room, is.some_size) in
      let ends : need - 1 ≡ at + length str = omega (arith, r.same_size, is.some_size) in
      let q = record b { bytes = overwrite b.bytes at str; size = need } in
      let t =
        terminate-IsPath q (length-overwrite b.bytes at str fits ∙ r.backed)
          (omega (arith, is.some_size)) r.room in
      let front : take at b.bytes ≡ string p =
        ap (λ n. take (n - 1) b.bytes) r.same_size ∙ r.kept in
      (
        terminate q,
        path_add_run p str b (omega arith) r.returns,
        t.0,
        t.1
            ∙ ap (λ n. take n q.bytes) ends
            ∙ take-overwrite b.bytes at str (omega (arith, fits))
            ∙ ap (λ x. x ++ str) front,
      )

-- Removing n characters leaves the string without its last n, or nothing if it has fewer.
pub path_remove-IsPath :
    (p : PathBuffer) (n : ℕ)
    → IsPath p
    → IsPath (path_remove p n)
      × (string (path_remove p n) ≡ take (length (string p) - n) (string p))
unfolding path_remove
path_remove-IsPath p n is =
    let width : length (string p) ≡ p.size - 1 =
      omega (arith, length-take (p.size - 1) p.bytes, is.backed, is.within) in
    elim (Bool-cases (ltb n p.size)) [
      | inl fewer ↦
          let low : n < p.size = ltb→lt n p.size fewer in
          let q = record p { size = p.size - n } in
          let t = terminate-IsPath q is.backed (omega arith) (omega (arith, is.within)) in
          let count : p.size - n - 1 ≡ length (string p) - n = omega (arith, width) in
          rw fewer (
            t.0,
            t.1
                ∙ ap (λ k. take k p.bytes) count
                ∙ sym
                    (take-take (length (string p) - n) (p.size - 1) p.bytes (omega (arith, width))),
          )
      | inr all_of_it ↦
          let q = record p { size = 1 } in
          let t =
            terminate-IsPath q is.backed (omega arith) (omega (arith, is.some_size, is.within)) in
          let none_left : length (string p) - n ≡ 0 = ground (arith, width, all_of_it) in
          rw all_of_it (t.0, t.1 ∙ ap (λ k. take k (string p)) (sym none_left))
    ]

-- Where the allocations succeed, on a path's buffer that holds a string with a 0 behind it,
-- adding characters that leave the size within 2^63 succeeds, and then removing as many leaves a
-- buffer with the same string, with a 0 behind it.
pub path_remove-path_add :
    (grants : ℕ → Bool) (junk : ℕ) (all : (n : ℕ) → grants n ≡ true) (p : PathBuffer) (str : List ℕ)
    → IsPath p
    → p.size + length str ≤ 2 ^ 63
    → (q : PathBuffer) × (path_add grants junk p str (length str) ≡ done (ok, q))
      × (string (path_remove q (length str)) ≡ string p)
      × IsPath (path_remove q (length str))
path_remove-path_add grants junk all p str is small =
    let (q, run, q_is, added) = path_add-IsPath grants junk all p str is small in
    let back = path_remove-IsPath q (length str) q_is in
    let count : length (string q) - length str ≡ length (string p) =
      omega (arith, ap (λ x. length x) added, length-append (string p) str) in
    (
      q,
      run,
      back.1
          ∙ ap (λ k. take k (string q)) count
          ∙ ap (λ x. take (length (string p)) x) added
          ∙ take-length_append (string p) str,
      back.0,
    )
