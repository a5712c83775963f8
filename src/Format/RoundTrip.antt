-- ===== src/Format/RoundTrip.antt =====
-- Swapping in reads back what the format's description writes, for a number and for the fields of
-- any structure.
use squashfuse.Common.{
  ℕ, zero, suc, ◌+◌, ◌*◌, ◌/◌, ◌%◌, ◌^◌, ◌≤◌, ◌<◌, ◌≡◌, refl, sym, ap, ◌∙◌, List, [], ◌∷◌, ◌++◌,
  get_or, take, drop, length, take-length_append, drop-length_append, append_assoc, arith,
}
use native.Mathlib.Nat.{mod-eq_of_lt, pow-suc}
use squashfuse.Format.{swapin_loop, swapin, swap16, swapin_fields, le_bytes, encode_fields}

-- What a list of bytes stands for, the lowest first.
pub le_value : List ℕ → ℕ
le_value [] = 0
le_value (b ∷ bs) = b + 256 * le_value bs

le_value-drop_le : (i : ℕ) (c : List ℕ) → le_value (drop i c) ≤ le_value c
unfolding le_value
le_value-drop_le zero c = omega arith
le_value-drop_le (suc i) [] = omega arith
le_value-drop_le (suc i) (b ∷ c) = omega (arith, le_value-drop_le i c)

le_value-drop :
    (i : ℕ) (c : List ℕ)
    → i < length c
    → le_value (drop i c) ≡ get_or c i 0 + 256 * le_value (drop (suc i) c)
unfolding le_value
le_value-drop i [] h = absurd (omega arith)
le_value-drop zero (b ∷ c) h = refl
le_value-drop (suc i) (b ∷ c) h = le_value-drop i c (omega arith)

swapin_loop_lem :
    (n i : ℕ) (c : List ℕ)
    → i ≤ length c
    → le_value c < 256 ^ n
    → swapin_loop n c i (le_value (drop i c)) ≡ le_value c
unfolding swapin_loop
swapin_loop_lem n zero c h fits = refl
swapin_loop_lem n (suc i) c h fits =
    let rest = le_value (drop (suc i) c) in
    let step = le_value-drop i c h in
    let bound = le_value-drop_le i c in
    let shifted : rest * 256 % 256 ^ n ≡ rest * 256 = mod-eq_of_lt (omega arith) in
    let added : (rest * 256 + get_or c i 0) % 256 ^ n ≡ le_value (drop i c) =
      mod-eq_of_lt (omega arith) ∙ omega arith in
    rw (shifted, added) (swapin_loop_lem n i c (omega arith) fits)

drop_all : (c : List ℕ) → drop (length c) c ≡ []
drop_all [] = refl
drop_all (b ∷ c) = drop_all c

-- Swapping in computes the value of the bytes, when that fits the number.
pub swapin-le_value : (c : List ℕ) → le_value c < 256 ^ length c → swapin (length c) c ≡ le_value c
unfolding swapin
swapin-le_value c fits =
    let start : le_value (drop (length c) c) ≡ 0 =
      ap le_value (drop_all c) ∙ (unfold le_value in refl) in
    rw start at (swapin_loop_lem (length c) (length c) c (omega arith) fits)

pub length-le_bytes : (n v : ℕ) → length (le_bytes n v) ≡ n
unfolding le_bytes
length-le_bytes zero v = refl
length-le_bytes (suc n) v = ap suc (length-le_bytes n (v / 256))

le_value-le_bytes : (n v : ℕ) → v < 256 ^ n → le_value (le_bytes n v) ≡ v
unfolding le_value le_bytes
le_value-le_bytes zero v h = omega arith
le_value-le_bytes (suc n) v h =
    omega (arith, pow-suc 256 n, le_value-le_bytes n (v / 256) (omega (arith, pow-suc 256 n)))

-- A number that fits n bytes is read back from its n little-endian bytes.
pub swapin-le_bytes : (n v : ℕ) → v < 256 ^ n → swapin n (le_bytes n v) ≡ v
swapin-le_bytes n v h =
    let value = le_value-le_bytes n v h in
    let width = length-le_bytes n v in
    rw (width, value) at (swapin-le_value (le_bytes n v) (rw (width, value) h))

pub take-le_bytes : (n v : ℕ) (t : List ℕ) → take n (le_bytes n v ++ t) ≡ le_bytes n v
take-le_bytes n v t =
    let b = le_bytes n v in
    ap (λ k. take k (b ++ t)) (sym (length-le_bytes n v)) ∙ take-length_append b t

pub drop-le_bytes : (n v : ℕ) (t : List ℕ) → drop n (le_bytes n v ++ t) ≡ t
drop-le_bytes n v t =
    let b = le_bytes n v in
    ap (λ k. drop k (b ++ t)) (sym (length-le_bytes n v)) ∙ drop-length_append b t

-- Each value fits the width of its field.
abbrev pub Fit : List ℕ → List ℕ → Type 0
Fit [] [] = Unit {0}
Fit (n ∷ ns) (v ∷ vs) = (v < 256 ^ n) × Fit ns vs
Fit _ _ = ⊥

-- The fields of a structure whose values fit their widths are read back from its little-endian
-- bytes, whatever bytes follow.
pub swapin_fields-encode_fields :
    (ns vs rest : List ℕ) → Fit ns vs → swapin_fields ns (encode_fields ns vs ++ rest) ≡ vs
unfolding swapin_fields encode_fields
swapin_fields-encode_fields [] [] rest h = refl
swapin_fields-encode_fields [] (v ∷ vs) rest h = absurd h
swapin_fields-encode_fields (n ∷ ns) [] rest h = absurd h
swapin_fields-encode_fields (n ∷ ns) (v ∷ vs) rest h =
    let t = encode_fields ns vs ++ rest in
    rw (append_assoc, take-le_bytes n v t, drop-le_bytes n v t, swapin-le_bytes n v h.0)
      (ap (λ u. v ∷ u) (swapin_fields-encode_fields ns vs rest h.1))

-- Swapping the two bytes of a 16-bit number twice gives it back, and it swaps them.
pub swap16-swap16 : (n : ℕ) → n < 2 ^ 16 → swap16 (swap16 n) ≡ n
unfolding swap16
swap16-swap16 n h = omega arith

-- `sqfs_swap16` of the 16-bit number with the bytes lo and hi is the one with the bytes in the
-- other order.
pub swap16-bytes : (lo hi : ℕ) → lo < 256 → hi < 256 → swap16 (lo + 256 * hi) ≡ hi + 256 * lo
unfolding swap16
swap16-bytes lo hi h k = omega arith
