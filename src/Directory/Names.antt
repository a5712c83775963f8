-- ===== src/Directory/Names.antt =====
-- Looking up a name in a directory whose entries are in the order of their names.
use squashfuse.Common.{
  ℕ, ◌+◌, ◌<◌, ◌≡◌, ◌≢◌, refl, sym, ap, ◌∙◌, true, none, some, List, [], ◌∷◌, ◌++◌, length, ◌==◌,
  arith, ◌⊎◌, inl, inr, Bool-cases,
}
use mathlib.Core.Path.{subst}
use squashfuse.Actions.Rules.{IsSound, Ends, map-Yields}
use squashfuse.Block.Reads.{IsGranted}
use squashfuse.Fs.{Image, Caches}
use squashfuse.Metadata.Stream.{Ahead}
use squashfuse.Inode.{Inode, DirData, dir, has_type, s_ifdir}
use squashfuse.Directory.{Dirent}
use squashfuse.Directory.Lookup.{Ordering, less, equal, greater, strncmp, dir_lookup}
use squashfuse.Directory.Listing.{Group, AreGroups, groups_bytes, Delivers}
use squashfuse.Directory.Search.{Placed, entries, search, Matches, dir_lookup-search}

-- The order of strings, by their bytes.
abbrev pub Before : List ℕ → List ℕ → Type 0
Before s [] = ⊥
Before [] (c ∷ t) = Unit {0}
Before (a ∷ s) (c ∷ t) = (a < c) ⊎ ((a ≡ c) × Before s t)

-- A string has no 0 inside.
abbrev pub IsText : List ℕ → Type 0
IsText [] = Unit {0}
IsText (c ∷ t) = (0 < c) × IsText t

abbrev pub PrecedesAll : Placed → List Placed → Type 0
PrecedesAll y [] = Unit {0}
PrecedesAll y (z ∷ zs) = Before y.item.name z.item.name × PrecedesAll y zs

abbrev pub IsSorted : List Placed → Type 0
IsSorted [] = Unit {0}
IsSorted (y ∷ ys) = PrecedesAll y ys × IsSorted ys

strncmp-Before : (s t : List ℕ) → Before s t → IsText t → strncmp s t (length t) ≡ less
unfolding strncmp
strncmp-Before s [] b text = absurd b
strncmp-Before [] (c ∷ t) b text = ground arith
strncmp-Before (a ∷ s) (c ∷ t) (inl b) text = ground arith
strncmp-Before (a ∷ s) (c ∷ t) (inr (e, b)) text = ground (arith, strncmp-Before s t b text.1)

pub strncmp_refl : (t : List ℕ) → IsText t → strncmp t t (length t) ≡ equal
unfolding strncmp
strncmp_refl [] text = refl
strncmp_refl (c ∷ t) text = ground (arith, strncmp_refl t text.1)

-- Strings of one length that compare equal are the same.
pub strncmp_same :
    (s t : List ℕ) → length s ≡ length t → IsText t → strncmp s t (length t) ≡ equal → s ≡ t
unfolding strncmp
strncmp_same [] [] width text e = refl
strncmp_same [] (c ∷ t) width text e = absurd (omega arith)
strncmp_same (a ∷ s) [] width text e = absurd (omega arith)
strncmp_same (a ∷ s) (c ∷ t) width text e = elim (Bool-cases (a == c)) [
  | inl same ↦
      let heads : a ≡ c = ground (arith, same) in
      let rest : strncmp s t (length t) ≡ equal = ground (arith, e, same) in
      ap (λ h. h ∷ s) heads ∙ ap (λ r. c ∷ r) (strncmp_same s t (omega arith) text.1 rest)
  | inr other ↦ absurd (ground (arith, e, other))
]

-- No entry has the name.
abbrev pub Lacks : List ℕ → List Placed → Type 0
Lacks name [] = Unit {0}
Lacks name (y ∷ ys) = (y.item.name ≢ name) × Lacks name ys

PrecedesAll_lem :
    (z y : Placed) (above below : List Placed)
    → PrecedesAll z (above ++ y ∷ below)
    → Before z.item.name y.item.name
PrecedesAll_lem z y [] below p = p.0
PrecedesAll_lem z y (w ∷ above) below p = PrecedesAll_lem z y above below p.1

search_present :
    (y : Placed) (above below : List Placed)
    → IsSorted (above ++ y ∷ below)
    → IsText y.item.name
    → search y.item.name (above ++ y ∷ below) ≡ some y
unfolding search
search_present y [] below sorted text =
    let whole : (length y.item.name == length y.item.name) ≡ true = ground arith in
    rw (search, strncmp_refl y.item.name text, whole) refl
search_present y (z ∷ above) below sorted text =
    let first = PrecedesAll_lem z y above below sorted.0 in
    rw (search, strncmp-Before z.item.name y.item.name first text)
      (search_present y above below sorted.1 text)

Ordering-cases : (o : Ordering) → (o ≡ less) ⊎ ((o ≡ equal) ⊎ (o ≡ greater))
Ordering-cases less = inl refl
Ordering-cases equal = inr (inl refl)
Ordering-cases greater = inr (inr refl)

search_absent :
    (name : List ℕ) (ys : List Placed) → IsText name → Lacks name ys → search name ys ≡ none
unfolding search
search_absent name [] text lacks = refl
search_absent name (y ∷ ys) text lacks =
    let compared = strncmp y.item.name name (length name) in
    elim (Ordering-cases compared) [
      | inl e ↦ rw (search, e) (search_absent name ys text lacks.1)
      | inr (inr e) ↦ rw (search, e) refl
      | inr (inl e) ↦ elim (Bool-cases (length y.item.name == length name)) [
        | inr other ↦ rw (search, e, other) refl
        | inl same ↦
            let width : length y.item.name ≡ length name = ground (arith, same) in
            absurd (lacks.0 (strncmp_same y.item.name name width text e))
      ]
    ]

module _ (img : Image) (hdr_of : ℕ → ℕ) (all : IsGranted img) (rest name : List ℕ) (gs : List Group)
    (are : AreGroups gs) (i : Inode) (x : DirData) (is_dir : has_type s_ifdir i.base.mode ≡ true)
    (shape : i.xtra ≡ dir x) (sized : x.dir_size ≡ length (groups_bytes gs) + 3)
    (plain : x.idx_count ≡ 0)
    (ahead : Ahead img
      (x.start_block + img.sb.directory_table_start)
      x.offset
      (groups_bytes gs ++ rest))
    (text : IsText name) (s : Caches) (sound : IsSound img hdr_of s) where
  -- Where all allocations succeed and the state of the caches is sound, for a directory without
  -- an index whose groups of entries are in the metadata, in the order of their names,
  -- `sqfs_dir_lookup` of the name of one of the entries, a name without a 0, ends without an
  -- error, finds exactly that entry, with the inode, number, type and name that its header and
  -- fields give, and leaves the caches sound.
  pub dir_lookup_present :
      (y : Placed) (above below : List Placed)
      → entries 0 0 [] gs ≡ above ++ y ∷ below
      → IsSorted (entries 0 0 [] gs)
      → y.item.name ≡ name
      → Ends img hdr_of
          (λ o. (e : Dirent) × (o ≡ some e) × Delivers true y.start y.number y.item e)
          s
          (dir_lookup img i name s)
  dir_lookup_present y above below split sorted named =
      let found : search name (entries 0 0 [] gs) ≡ some y =
        rw (split, ← named)
          (search_present y above below (rw split at sorted) (subst IsText (sym named) text)) in
      map-Yields img hdr_of (dir_lookup img i name)
        (dir_lookup-search img hdr_of all rest name gs are i x is_dir shape sized plain ahead)
        (λ o m. subst (λ r. Matches r o) found m) s sound

  -- Where all allocations succeed and the state of the caches is sound, for a directory without
  -- an index whose groups of entries are in the metadata, in whatever order, `sqfs_dir_lookup` of
  -- a name without a 0 that no entry has ends without an error, finds nothing, and leaves the
  -- caches sound.
  pub dir_lookup_absent :
      Lacks name (entries 0 0 [] gs) → Ends img hdr_of (λ o. o ≡ none) s (dir_lookup img i name s)
  dir_lookup_absent lacks =
      map-Yields img hdr_of (dir_lookup img i name)
        (dir_lookup-search img hdr_of all rest name gs are i x is_dir shape sized plain ahead)
        (λ o m. subst (λ r. Matches r o) (search_absent name (entries 0 0 [] gs) text lacks) m) s
        sound
