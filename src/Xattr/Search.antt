-- ===== src/Xattr/Search.antt =====
-- `sqfs_xattr_find` finds the first attribute with the type and the name, whatever is before it.
use squashfuse.Common.{
  ℕ, zero, suc, ◌+◌, ◌<◌, ◌≤◌, ◌++◌, ◌≡◌, ◌⊎◌, refl, sym, ap, ◌∙◌, Bool, true, false, not, ◌&&◌,
  List, [], ◌∷◌, length, ◌==◌, if◌then◌else◌, arith, inl, inr, Bool-cases,
}
use squashfuse.Actions.{Action, ◌>>=◌, pure}
use squashfuse.Actions.Rules.{
  Yields, pure-Yields, bind-Yields, then-Yields, else-Yields, map-Yields, IsSound, Ends,
}
use squashfuse.Block.Reads.{IsGranted}
use squashfuse.Directory.Lookup.{Ordering, equal, less, greater, strncmp}
use squashfuse.Directory.Names.{IsText, strncmp_refl}
use squashfuse.Fs.{Image, Caches}
use squashfuse.Xattr.{Xattr, xattr_read, xattr_name}
use squashfuse.Xattr.Attributes.{Attribute, Inside, xattr_name-Inside}
use squashfuse.Xattr.Find.{find_loop, xattr_find, is_equal}
use squashfuse.Xattr.Namespaces.{namespace, find_prefix-namespace, drop-prefix}
use squashfuse.Xattr.Walk.{Place, remain_of, xattr_read-Inside}

-- The comparisons that the loop makes, of the type and the size and then of the name.
abbrev pub fits : ℕ → List ℕ → Attribute → Bool
fits type name a = (a.type == type) && (length a.name == length name)

abbrev pub matches : ℕ → List ℕ → Attribute → Bool
matches type name a =
    if fits type name a then is_equal (strncmp name a.name (length name)) else false

module _ (img : Image) (rest : List ℕ) (hdr_of : ℕ → ℕ) (all : IsGranted img) (type : ℕ)
    (name : List ℕ) where
  -- What the loop leaves: the reader at the first attribute that matches, or none.
  abbrev pub FindsFirst : List Attribute → Xattr × Bool → Type 0
  FindsFirst [] r = r.1 ≡ false
  FindsFirst (a ∷ ys) r =
      ((matches type name a ≡ true) × (r.1 ≡ true) × Inside img rest a ys r.0)
      ⊎ ((matches type name a ≡ false) × FindsFirst ys r)

  abbrev Finds : ℕ → List Attribute → Xattr → Type 0
  Finds fuel ys x = Yields img hdr_of (find_loop img fuel type name x) (FindsFirst ys)

  -- Behind the name of an attribute that fits.
  abbrev compare_name : ℕ → List ℕ × Xattr → Action (Xattr × Bool)
  compare_name fuel r =
      if is_equal (strncmp name r.0 (length name))
      then pure (r.1, true)
      else find_loop img fuel type name r.1

  compare_name-FindsFirst :
      (fuel : ℕ) (a : Attribute) (ys : List Attribute)
      → fits type name a ≡ true
      → ((x : Xattr) → Place img rest ys x → Finds fuel ys x)
      → (r : List ℕ × Xattr) → (r.0 ≡ a.name) × Inside img rest a ys r.1
      → Yields img hdr_of (compare_name fuel r) (FindsFirst (a ∷ ys))
  compare_name-FindsFirst fuel a ys fit again r p =
      let same : is_equal (strncmp name r.0 (length name))
          ≡ is_equal (strncmp name a.name (length name)) =
        ap (λ s. is_equal (strncmp name s (length name))) p.0 in
      elim (Bool-cases (is_equal (strncmp name a.name (length name)))) [
        | inl hit ↦
            then-Yields img hdr_of _ _ (same ∙ hit)
              (pure-Yields img hdr_of _ (r.1, true) (inl (rw fit hit, refl, p.1)))
        | inr miss ↦ else-Yields img hdr_of _ _ (same ∙ miss) (
            map-Yields img hdr_of (find_loop img fuel type name r.1) (again r.1 (inr (a, inl p.1)))
              (λ t q. inr (rw fit miss, q)))
      ]

  -- Behind the entry of an attribute.
  abbrev compare_entry : ℕ → Xattr → Action (Xattr × Bool)
  compare_entry fuel x =
      if not ((x.type == type) && (x.entry.size == length name))
      then find_loop img fuel type name x
      else xattr_name img x >>= compare_name fuel

  compare_entry-FindsFirst :
      (fuel : ℕ) (a : Attribute) (ys : List Attribute)
      → ((x : Xattr) → Place img rest ys x → Finds fuel ys x)
      → (x : Xattr) → Inside img rest a ys x
      → Yields img hdr_of (compare_entry fuel x) (FindsFirst (a ∷ ys))
  compare_entry-FindsFirst fuel a ys again x s =
      let same : ((x.type == type) && (x.entry.size == length name)) ≡ fits type name a =
        ap (λ t. (t == type) && (x.entry.size == length name)) s.type
        ∙ ap (λ t. (a.type == type) && (t == length name)) s.size in
      elim (Bool-cases (fits type name a)) [
        | inr other ↦ then-Yields img hdr_of _ _ (ap not (same ∙ other)) (
            map-Yields img hdr_of (find_loop img fuel type name x) (again x (inr (a, inl s)))
              (λ t q. inr (rw other refl, q)))
        | inl fit ↦ else-Yields img hdr_of _ _ (ap not (same ∙ fit)) (
            bind-Yields img hdr_of (xattr_name img x) (compare_name fuel)
              (xattr_name-Inside img rest hdr_of all a ys x s)
              (compare_name-FindsFirst fuel a ys fit again))
      ]

  find_loop-FindsFirst :
      (fuel : ℕ) (ys : List Attribute) (x : Xattr)
      → length ys < fuel
      → Place img rest ys x
      → Finds fuel ys x
  unfolding find_loop
  find_loop-FindsFirst zero ys x room p = absurd (omega arith)
  find_loop-FindsFirst (suc fuel) [] x room p =
      let over : (x.remain == 0) ≡ true = ground (arith, remain_of img rest hdr_of all [] x p) in
      then-Yields img hdr_of _ _ over (pure-Yields img hdr_of _ (x, false) refl)
  find_loop-FindsFirst (suc fuel) (a ∷ ys) x room p =
      let more : (x.remain == 0) ≡ false =
        ground (arith, remain_of img rest hdr_of all (a ∷ ys) x p) in
      else-Yields img hdr_of _ _ more (
        bind-Yields img hdr_of (xattr_read img x) (compare_entry fuel)
          (xattr_read-Inside img rest hdr_of all a ys x p)
          (compare_entry-FindsFirst fuel a ys
            (λ y q. find_loop-FindsFirst fuel ys y (omega arith) q)))

strncmp_equal :
    (s t : List ℕ) → length t ≡ length s → IsText s → strncmp s t (length s) ≡ equal → s ≡ t
unfolding strncmp
strncmp_equal [] [] width text e = refl
strncmp_equal [] (c ∷ t) width text e = absurd (omega arith)
strncmp_equal (a ∷ s) [] width text e = absurd (omega arith)
strncmp_equal (a ∷ s) (c ∷ t) width text e =
    let heads : a ≡ c = ground (arith, e) in
    let rest : strncmp s t (length s) ≡ equal = ground (arith, e, text.0) in
    ap (λ h. h ∷ s) heads ∙ ap (λ r. c ∷ r) (strncmp_equal s t (omega arith) text.1 rest)

abbrev pub Has : ℕ → List ℕ → Attribute → Type 0
Has type name a = (a.type ≡ type) × (a.name ≡ name)

equal_of : (o : Ordering) → is_equal o ≡ true → o ≡ equal
equal_of equal h = refl
equal_of less h = absurd (ground arith)
equal_of greater h = absurd (ground arith)

matches-Has :
    (type : ℕ) (name : List ℕ) (a : Attribute)
    → IsText name
    → matches type name a ≡ true
    → Has type name a
matches-Has type name a text h = elim (Bool-cases (fits type name a)) [
  | inr other ↦ absurd (ground (arith, rw other at h))
  | inl fit ↦
      let width : length a.name ≡ length name = ground (arith, fit) in
      let same : a.type ≡ type = ground (arith, fit) in
      (
        same,
        sym (
            strncmp_equal name a.name width text
              (equal_of (strncmp name a.name (length name)) (rw fit at h))),
      )
]

Has-matches :
    (type : ℕ) (name : List ℕ) (a : Attribute)
    → IsText name
    → Has type name a
    → matches type name a ≡ true
Has-matches type name a text (same, named) =
    let fit : fits type name a ≡ true = rw (same, named) (ground arith) in
    rw fit (rw named (rw (strncmp_refl name text) refl))

module _ (img : Image) (rest : List ℕ) (hdr_of : ℕ → ℕ) (all : IsGranted img) (type : ℕ)
    (name : List ℕ) (text : IsText name) where
  -- The reader is at the first attribute with the type and the name, or there is none.
  abbrev pub Located : List Attribute → Xattr × Bool → Type 0
  Located [] r = r.1 ≡ false
  Located (a ∷ ys) r =
      (Has type name a × (r.1 ≡ true) × Inside img rest a ys r.0)
      ⊎ ((Has type name a → ⊥) × Located ys r)

  FindsFirst-Located :
      (ys : List Attribute) (r : Xattr × Bool)
      → FindsFirst img rest hdr_of all type name ys r
      → Located ys r
  FindsFirst-Located [] r p = p
  FindsFirst-Located (a ∷ ys) r (inl p) = inl (matches-Has type name a text p.0, p.1, p.2)
  FindsFirst-Located (a ∷ ys) r (inr p) = inr (
    λ has. absurd (ground (arith, p.0, Has-matches type name a text has)),
    FindsFirst-Located ys r p.1,
  )

  find_loop-Located :
      (ys : List Attribute) (x : Xattr)
      → Place img rest ys x
      → Yields img hdr_of (find_loop img (x.remain + 1) type name x) (Located ys)
  find_loop-Located ys x p =
      map-Yields img hdr_of (find_loop img (x.remain + 1) type name x)
        (find_loop-FindsFirst img rest hdr_of all type name (x.remain + 1) ys x
          (omega (arith, remain_of img rest hdr_of all ys x p)) p)
        (FindsFirst-Located ys)

module _ (img : Image) (rest : List ℕ) (hdr_of : ℕ → ℕ) (all : IsGranted img) where
  -- Where all allocations succeed and the state of the caches is sound, for a full name that is
  -- the text of a type (user. for 0, trusted. for 1 and security. for 2) and behind it a name
  -- without a 0, from a reader before some attributes with values inline, or at one before them,
  -- `sqfs_xattr_find` ends without an error and without using up its fuel: it leaves the reader
  -- at the first attribute with that type and that name, its value unread, or says that there is
  -- none; the caches are sound afterwards.
  pub xattr_find-Ends :
      (type : ℕ) (name : List ℕ) (text : IsText name) (ys : List Attribute) (x : Xattr)
      → type ≤ 2
      → Place img rest ys x
      → (s : Caches) → IsSound img hdr_of s
      → Ends img hdr_of
          (Located img rest hdr_of all type name text ys)
          s
          (xattr_find img x (namespace type ++ name) s)
  unfolding xattr_find
  xattr_find-Ends type name text ys x known p s sound =
      rw (xattr_find, find_prefix-namespace type name known, drop-prefix type name known)
        (then-Yields img hdr_of _ _ (all.granted (length name))
          (find_loop-Located img rest hdr_of all type name text ys x p) s sound)
