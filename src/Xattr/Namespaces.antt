-- ===== src/Xattr/Namespaces.antt =====
-- The texts that stand for the types of extended attributes, as the format documents them.
use squashfuse.Common.{ℕ, zero, suc, ◌≤◌, ◌≡◌, refl, List, [], ◌∷◌, ◌++◌, length, drop, some, arith}
use squashfuse.Directory.Lookup.{strncmp}
use squashfuse.Xattr.{prefix}
use squashfuse.Xattr.Find.{find_prefix}

-- The types are 0 for "user.", 1 for "trusted." and 2 for "security."; there is no other.
abbrev pub namespace : ℕ → List ℕ
namespace zero = b'u' ∷ b's' ∷ b'e' ∷ b'r' ∷ b'.' ∷ []
namespace (suc zero) = b't' ∷ b'r' ∷ b'u' ∷ b's' ∷ b't' ∷ b'e' ∷ b'd' ∷ b'.' ∷ []
namespace (suc (suc zero)) = b's' ∷ b'e' ∷ b'c' ∷ b'u' ∷ b'r' ∷ b'i' ∷ b't' ∷ b'y' ∷ b'.' ∷ []
namespace (suc (suc (suc n))) = []

pub prefix-namespace : (type : ℕ) → type ≤ 2 → prefix type ≡ namespace type
unfolding prefix
prefix-namespace zero h = refl
prefix-namespace (suc zero) h = refl
prefix-namespace (suc (suc zero)) h = refl
prefix-namespace (suc (suc (suc n))) h = absurd (omega arith)

pub find_prefix-namespace :
    (type : ℕ) (name : List ℕ) → type ≤ 2 → find_prefix (namespace type ++ name) ≡ some type
unfolding find_prefix strncmp
find_prefix-namespace zero name h = refl
find_prefix-namespace (suc zero) name h = refl
find_prefix-namespace (suc (suc zero)) name h = refl
find_prefix-namespace (suc (suc (suc n))) name h = absurd (omega arith)

-- Behind the prefix stands the name.
pub drop-prefix :
    (type : ℕ) (name : List ℕ)
    → type ≤ 2
    → drop (length (prefix type)) (namespace type ++ name) ≡ name
unfolding prefix
drop-prefix zero name h = refl
drop-prefix (suc zero) name h = refl
drop-prefix (suc (suc zero)) name h = refl
drop-prefix (suc (suc (suc n))) name h = absurd (omega arith)
