-- ===== src/Opening/Slashes.antt =====
-- Opening with a subdirectory that names no component.
use squashfuse.Common.{
  ℕ, ◌≡◌, refl, Bool, true, none, some, List, [], ◌∷◌, done, fault, unwritten_memory, arith, ◌==◌,
}
use squashfuse.Actions.{got}
use squashfuse.Directory.Lookup.{slash, skip_slashes, component, walk_path, lookup_path}
use squashfuse.Fs.{Image, Caches}
use squashfuse.Inode.{Inode, inode_get}
use squashfuse.Opening.{enter_subdir}

abbrev pub AreSlashes : List ℕ → Type 0
AreSlashes [] = Unit {0}
AreSlashes (c ∷ path) = (c ≡ slash) × AreSlashes path

skip_slashes_lem : (path : List ℕ) → AreSlashes path → skip_slashes path ≡ []
unfolding skip_slashes
skip_slashes_lem [] all = refl
skip_slashes_lem (c ∷ path) all =
    let same : (c == slash) ≡ true = ground (arith, all.0) in rw same (skip_slashes_lem path all.1)

-- A path of slashes is found at once, and no identifier is written.
lookup_path_slashes :
    (img : Image) (i : Inode) (path : List ℕ) (s : Caches)
    → AreSlashes path
    → lookup_path img i path s ≡ done (got (some (i, none)), s)
unfolding lookup_path walk_path component
lookup_path_slashes img i path s all =
    let none_left : component (skip_slashes path) ≡ ([], []) =
      rw (skip_slashes_lem path all) refl in
    rw (lookup_path, walk_path, none_left) refl

-- Opening an image with a subdirectory that consists of slashes only, where the root's inode can
-- be read, takes the root from memory that nothing was written to.
pub enter_subdir_slashes :
    (img : Image) (bad : Bool) (root : Inode) (path : List ℕ) (s s' : Caches)
    → AreSlashes path
    → inode_get img img.sb.root_inode s ≡ done (got root, s')
    → enter_subdir bad img path (some s) ≡ fault unwritten_memory
unfolding enter_subdir
enter_subdir_slashes img bad root path s s' all there =
    rw (there, lookup_path_slashes img root path s' all) refl
