-- ===== src/Common/Outcomes.antt =====
-- What a call of the C code comes to: common.h's `sqfs_err`, and the ways in which a run is cut
-- short without a value.
use mathlib.Core.Path.{◌≡◌, refl}
use mathlib.Core.Bool.{Bool, true, false}
use native.Mathlib.Omega.{arith}

-- The error codes of common.h.
pub data SqfsErr : Type 0 where
  ok err badformat badversion badcomp unsup : SqfsErr

-- A run that ends in no value: an `assert` that fails, an access outside an object or through a
-- null pointer, a division by zero, a read of memory that nothing was written to, or (in the
-- model only) a loop that used up its fuel.
pub data Fault : Type 0 where
  assertion out_of_bounds null_pointer division_by_zero unwritten_memory out_of_fuel : Fault

pub data Outcome {ℓ} (A : Type ℓ) : Type ℓ where
  done : A → Outcome A
  fault : Fault → Outcome A

infixl 5 ◌>>=◌
abbrev pub ◌>>=◌ {ℓ κ} : {A : Type ℓ} {B : Type κ} → Outcome A → (A → Outcome B) → Outcome B
done a >>= f = f a
fault e >>= f = fault e

-- The C idiom `if (err)`.
abbrev pub failed : SqfsErr → Bool
failed ok = false
failed _ = true

pub >>=-eq-done {ℓ κ} :
    {A : Type ℓ} {B : Type κ} (m : Outcome A) (f : A → Outcome B) {b : B}
    → (m >>= f) ≡ done b
    → (a : A) × (m ≡ done a) × (f a ≡ done b)
>>=-eq-done (done a) f h = (a, refl, h)
>>=-eq-done (fault e) f h = ground arith

-- The run ends normally, in a value that satisfies `P`.
abbrev pub Returns {ℓ κ} : {A : Type ℓ} → Outcome A → (A → Type κ) → Type (ℓ ⊔ κ)
Returns {A} r P = (a : A) × (r ≡ done a) × P a

pub bind_assoc {ℓ κ μ} :
    {A : Type ℓ} {B : Type κ} {C : Type μ} (m : Outcome A) (f : A → Outcome B) (g : B → Outcome C)
    → m >>= f >>= g ≡ m >>= (λ a. f a >>= g)
bind_assoc (done a) f g = refl
bind_assoc (fault e) f g = refl
