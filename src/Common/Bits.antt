-- ===== src/Common/Bits.antt =====
-- Masks and disjoint sums of bits as arithmetic. The native operations have no laws at variables
-- but their digit recursion; these are derived from it.
use Prim.Native.Nat.{
  ℕ, zero, suc, ◌+◌, ◌-◌, ◌*◌, ◌/◌, ◌%◌, ◌^◌, ◌≤◌, ◌<◌, min, bit_and, digits, bit_and-bitwise,
}
use mathlib.Core.Path.{◌≡◌, refl, sym, ap, ◌∙◌}
use native.Mathlib.Omega.{arith}
use mathlib.Core.Logic.{inl, inr}
use native.Mathlib.Nat.{
  pow-suc, mod-lt, div-add-mod, add-mul-mod_self_right, mod-eq_of_lt, mod_self, mul_comm,
  div-div-eq-div-mul,
}
use squashfuse.Common.Tests.{◌==◌, Bool-cases, ==_iff}

-- Enough fuel is as good as any more.
and_fuel :
    (n m a b : ℕ) → a ≤ n → a ≤ m → digits (λ _. zero) min n a b ≡ digits (λ _. zero) min m a b
and_fuel zero zero a b p q = refl
and_fuel zero (suc m) (suc a) b p q = absurd (omega arith)
and_fuel (suc n) zero (suc a) b p q = absurd (omega arith)
and_fuel (suc n) (suc m) (suc a) b p q =
    omega (arith, and_fuel n m (suc a / 2) (b / 2) (omega arith) (omega arith))
and_fuel zero (suc m) zero b p q = refl
and_fuel (suc n) zero zero b p q = refl
and_fuel (suc n) (suc m) zero b p q = refl

zero-bit_and : (y : ℕ) → bit_and 0 y ≡ 0
zero-bit_and y = bit_and-bitwise 0 y

-- One digit of the conjunction.
pub bit_and_digit : (x y : ℕ) → bit_and x y ≡ bit_and (x / 2) (y / 2) * 2 + min (x % 2) (y % 2)
bit_and_digit zero y = omega (zero-bit_and (y / 2), zero-bit_and y, arith)
bit_and_digit (suc x) y =
    let half = suc x / 2 in
    let shorter = and_fuel x half half (y / 2) (omega arith) (omega arith) in
    omega (arith, shorter, bit_and-bitwise half (y / 2), bit_and-bitwise (suc x) y)

bit_and-zero_within : (x fuel : ℕ) → x ≤ fuel → bit_and x 0 ≡ 0
bit_and-zero_within zero fuel h = zero-bit_and 0
bit_and-zero_within (suc x) zero h = absurd (omega arith)
bit_and-zero_within (suc x) (suc fuel) h =
    let rest = bit_and-zero_within (suc x / 2) fuel (omega arith) in
    omega (arith, rest, bit_and_digit (suc x) 0)

pub bit_and-zero : (x : ℕ) → bit_and x 0 ≡ 0
bit_and-zero x = bit_and-zero_within x x (omega arith)

pow2_pos : (j : ℕ) → 0 < 2 ^ j
pow2_pos zero = omega arith
pow2_pos (suc j) = omega (arith, pow-suc 2 j, pow2_pos j)

mod_double : (a m : ℕ) → 0 < m → a % (m * 2) ≡ a / 2 % m * 2 + a % 2
mod_double a m pos =
    let q = a / 2 / m in
    let r = a / 2 % m * 2 + a % 2 in
    let small : r < m * 2 = omega (arith, mod-lt (a / 2) pos) in
    let split : a ≡ r + q * (m * 2) = omega (arith, div-add-mod (a / 2) m) in
    ap (λ (t : ℕ). t % (m * 2)) split ∙ add-mul-mod_self_right r q (m * 2) ∙ mod-eq_of_lt small

mask_digit : (a m : ℕ) → 0 < m → bit_and a (m * 2 - 1) ≡ bit_and (a / 2) (m - 1) * 2 + a % 2
mask_digit a m pos =
    let upper : (m * 2 - 1) / 2 ≡ m - 1 = omega arith in
    omega (arith, bit_and_digit a (m * 2 - 1), ap (λ (t : ℕ). bit_and (a / 2) t) upper)

-- The mask of j ones keeps the low j bits.
pub bit_and-mask : (j a : ℕ) → bit_and a (2 ^ j - 1) ≡ a % 2 ^ j
bit_and-mask zero a = omega (arith, bit_and-zero a)
bit_and-mask (suc j) a = rw (pow-suc 2 j) (
    omega (
      arith,
      mask_digit a (2 ^ j) (pow2_pos j),
      bit_and-mask j (a / 2),
      mod_double a (2 ^ j) (pow2_pos j),
    ))

-- A power of two has no bit in common with its predecessor, and 0 apart no other number has none.
pub pow2-bit_and_pred : (j : ℕ) → bit_and (2 ^ j) (2 ^ j - 1) ≡ 0
pow2-bit_and_pred j = bit_and-mask j (2 ^ j) ∙ mod_self (2 ^ j)

bit_and-self_fuel : (n a : ℕ) → a ≤ n → bit_and a a ≡ a
bit_and-self_fuel n zero h = zero-bit_and 0
bit_and-self_fuel zero (suc a) h = absurd (omega arith)
bit_and-self_fuel (suc n) (suc a) h =
    omega (arith, bit_and_digit (suc a) (suc a), bit_and-self_fuel n (suc a / 2) (omega arith))

pred_odd : (a : ℕ) → a % 2 ≡ 1 → bit_and a (a - 1) ≡ a / 2 * 2
pred_odd a odd =
    let below : (a - 1) / 2 ≡ a / 2 = omega arith in
    omega (
      arith,
      bit_and_digit a (a - 1),
      ap (λ (t : ℕ). bit_and (a / 2) t) below,
      bit_and-self_fuel (a / 2) (a / 2) (omega arith),
    )

pred_even : (a : ℕ) → 0 < a → a % 2 ≡ 0 → bit_and a (a - 1) ≡ bit_and (a / 2) (a / 2 - 1) * 2
pred_even a pos even =
    let below : (a - 1) / 2 ≡ a / 2 - 1 = omega arith in
    omega (arith, bit_and_digit a (a - 1), ap (λ (t : ℕ). bit_and (a / 2) t) below)

pub bit_and_pred-pow2 : (n a : ℕ) → a ≤ n → 0 < a → bit_and a (a - 1) ≡ 0 → (j : ℕ) × (a ≡ 2 ^ j)
bit_and_pred-pow2 zero a h pos e = absurd (omega arith)
bit_and_pred-pow2 (suc n) a h pos e = elim (Bool-cases (a % 2 == 1)) [
  | inl odd ↦ (0, omega (arith, pred_odd a ((==_iff (a % 2) 1).0 odd)))
  | inr more ↦
      let even : a % 2 ≡ 0 = ground arith in
      let (j, p) =
        bit_and_pred-pow2 n (a / 2) (omega arith) (omega arith)
          (omega (arith, pred_even a pos even)) in
      (suc j, omega (arith, pow-suc 2 j))
]

-- The conjunction of the parts above and below bit j.
split_step :
    (m a h l : ℕ)
    → 0 < m
    → bit_and (a / 2) (h * m + l / 2) ≡ bit_and (a / 2 / m) h * m + bit_and (a / 2 % m) (l / 2)
    → bit_and a (h * (m * 2) + l) ≡ bit_and (a / (m * 2)) h * (m * 2) + bit_and (a % (m * 2)) l
split_step m a h l pos ih =
    let upper : (h * (m * 2) + l) / 2 ≡ h * m + l / 2 = omega arith in
    let high : a / (m * 2) ≡ a / 2 / m =
      ap (λ (t : ℕ). a / t) (mul_comm m 2) ∙ sym (div-div-eq-div-mul a 2 m) in
    let low : a % (m * 2) / 2 ≡ a / 2 % m = omega (arith, mod_double a m pos) in
    let digit : a % (m * 2) % 2 ≡ a % 2 = omega (arith, mod_double a m pos) in
    rw high (
      omega (
        arith,
        bit_and_digit a (h * (m * 2) + l),
        bit_and_digit (a % (m * 2)) l,
        ap (λ (t : ℕ). bit_and (a / 2) t) upper,
        ap (λ (t : ℕ). bit_and t (l / 2)) low,
        ap (λ (t : ℕ). min t (l % 2)) digit,
      ))

pub bit_and-split :
    (j a h l : ℕ)
    → l < 2 ^ j
    → bit_and a (h * 2 ^ j + l) ≡ bit_and (a / 2 ^ j) h * 2 ^ j + bit_and (a % 2 ^ j) l
bit_and-split zero a h l small =
    let none_below : l ≡ 0 = omega arith in
    let whole : h * 2 ^ 0 + l ≡ h = omega arith in
    let same : a / 2 ^ 0 ≡ a = omega arith in
    omega (
      arith,
      ap (λ (t : ℕ). bit_and a t) whole,
      ap (λ (t : ℕ). bit_and t h) same,
      ap (λ (t : ℕ). bit_and (a % 1) t) none_below,
      bit_and-zero (a % 1),
    )
bit_and-split (suc j) a h l small = rw (pow-suc 2 j) (
    split_step (2 ^ j) a h l (pow2_pos j)
      (bit_and-split j (a / 2) h (l / 2) (omega (arith, pow-suc 2 j))))
