-- ===== src/Directory/Search.antt =====
-- `sqfs_dir_lookup` against a search in the list of a directory's entries.
use squashfuse.Common.{
  ℕ, zero, suc, ◌+◌, ◌≤◌, ◌<◌, ◌≡◌, refl, sym, ap, ◌∙◌, true, Option, none, some, List, [], ◌∷◌,
  ◌++◌, length, ◌==◌, if◌then◌else◌, arith, inl, inr, Bool-cases,
}
use mathlib.Core.Path.{subst}
use squashfuse.Actions.{Action, pure}
use squashfuse.Actions.Rules.{Yields, pure-Yields, bind-Yields}
use squashfuse.Block.Reads.{IsGranted}
use squashfuse.Fs.{Image}
use squashfuse.Metadata.Stream.{Ahead}
use squashfuse.Inode.{Inode, DirData, dir, as_dir, has_type, s_ifdir}
use squashfuse.Directory.{Dir, Dirent, dir_start, dir_next, ff_header}
use squashfuse.Directory.Lookup.{
  Ordering, less, equal, greater, strncmp, find_entry, lookup_fuel, dir_lookup,
}
use squashfuse.Directory.Listing.{
  Item, Group, AreItems, AreGroups, items_bytes, groups_bytes, Stands, Delivers, Next,
}
use squashfuse.Directory.Entries.{group_extent, item_extent}
use squashfuse.Directory.Iteration.{dir_next-Next}

-- An entry with the fields of its header that belong to it.
pub record Placed : Type 0 where
  pub start : ℕ
  pub number : ℕ
  pub item : Item

abbrev pub entries : ℕ → ℕ → List Item → List Group → List Placed
entries start number (x ∷ xs) gs =
    record { start = start; number = number; item = x } ∷ entries start number xs gs
entries start number [] [] = []
entries start number [] (g ∷ gs) = entries g.header.start_block g.header.inode_number g.items gs

-- What the loop looks for in a list of entries.
unfoldable pub search : List ℕ → List Placed → Option Placed
search name [] = none
search name (y ∷ ys) =
    let rest = search name ys in
    elim (strncmp y.item.name name (length name)) [
      | less ↦ rest
      | equal ↦ if length y.item.name == length name then some y else none
      | greater ↦ none
    ]

abbrev pub Matches : Option Placed → Option Dirent → Type 0
Matches none o = o ≡ none
Matches (some y) o = (e : Dirent) × (o ≡ some e) × Delivers true y.start y.number y.item e

module _ (img : Image) (hdr_of : ℕ → ℕ) (all : IsGranted img) (rest name : List ℕ) where
  -- What the loop does with the next entry.
  abbrev decide : ℕ → Dirent → Dir → Ordering → Action (Option Dirent)
  decide fuel e d o = elim o [
    | less ↦ find_entry img fuel name d
    | equal ↦ pure (if e.name_size == length name then some e else none)
    | greater ↦ pure none
  ]

  abbrev step : ℕ → Dir × Option Dirent → Action (Option Dirent)
  step fuel r = elim r.1 [
    | none ↦ pure none
    | some e ↦ decide fuel e r.0 (strncmp e.name name (length name))
  ]

  abbrev Finds : ℕ → ℕ → ℕ → List Item → List Group → Type 0
  Finds fuel start number xs gs =
      (d : Dir)
      → Stands img rest start number xs gs d
      → Yields img hdr_of (find_entry img fuel name d)
          (Matches (search name (entries start number xs gs)))

  -- The three ways a comparison can go.
  decide-Yields :
      (o : Ordering) (fuel start number : ℕ) (x : Item) (xs : List Item) (gs : List Group)
      → Finds fuel start number xs gs
      → (e : Dirent) (d : Dir) → Delivers true start number x e
      → Stands img rest start number xs gs d
      → Yields img hdr_of (decide fuel e d o) (
          Matches (elim o [
            | less ↦ search name (entries start number xs gs)
            | equal ↦
                if length x.name == length name
                then some (record { start = start; number = number; item = x })
                else none
            | greater ↦ none
          ]))
  decide-Yields less fuel start number x xs gs finds e d told s = finds d s
  decide-Yields greater fuel start number x xs gs finds e d told s =
      pure-Yields img hdr_of _ none refl
  decide-Yields equal fuel start number x xs gs finds e d told s =
      let size : (e.name_size == length name) ≡ (length x.name == length name) =
        ap (λ n. n == length name) told.name_size in
      elim (Bool-cases (length x.name == length name)) [
        | inl same ↦ rw (size ∙ same, same) (pure-Yields img hdr_of _ (some e) (e, refl, told))
        | inr other ↦ rw (size ∙ other, other) (pure-Yields img hdr_of _ none refl)
      ]

  step-Yields :
      (fuel start number : ℕ) (xs : List Item) (gs : List Group)
      → ((start' number' : ℕ) (xs' : List Item) (gs' : List Group)
          → length (entries start' number' xs' gs') < fuel
          → Finds fuel start' number' xs' gs')
      → length (entries start number xs gs) ≤ fuel
      → (r : Dir × Option Dirent) → Next img rest true start number xs gs r
      → Yields img hdr_of (step fuel r) (Matches (search name (entries start number xs gs)))
  unfolding search
  step-Yields fuel start number [] [] again room r p = rw p.0 (pure-Yields img hdr_of _ none refl)
  step-Yields fuel start number (x ∷ xs) gs again room r p =
      let cmp : strncmp p.0.name name (length name) ≡ strncmp x.name name (length name) =
        ap (λ s. strncmp s name (length name)) p.2.name in
      let found = entries start number (x ∷ xs) gs in
      subst (λ t. Yields img hdr_of (step fuel (r.0, t)) (Matches (search name found))) (sym p.1)
        (subst (λ o. Yields img hdr_of (decide fuel p.0 r.0 o) (Matches (search name found)))
          (sym cmp)
          (decide-Yields (strncmp x.name name (length name)) fuel start number x xs gs
            (again start number xs gs (omega arith)) p.0 r.0 p.2 p.3))
  step-Yields fuel start number [] (g ∷ gs) again room r p =
      step-Yields fuel g.header.start_block g.header.inode_number g.items gs again room r p

  find_entry-Matches :
      (fuel start number : ℕ) (xs : List Item) (gs : List Group)
      → length (entries start number xs gs) < fuel
      → Finds fuel start number xs gs
  unfolding find_entry
  find_entry-Matches zero start number xs gs room d s = absurd (omega arith)
  find_entry-Matches (suc fuel) start number xs gs room d s =
      bind-Yields img hdr_of (dir_next img true d) _
        (dir_next-Next img hdr_of all rest true start number xs gs d s)
        (λ r p. step-Yields fuel start number xs gs (find_entry-Matches fuel) (omega arith) r p)

-- Every entry takes room.
length-entries :
    (start number : ℕ) (xs : List Item) (gs : List Group)
    → AreItems xs
    → AreGroups gs
    → length (entries start number xs gs) ≤ length (items_bytes xs) + length (groups_bytes gs)
length-entries start number (x ∷ xs) gs are ars =
    omega (arith, item_extent x xs are.0, length-entries start number xs gs are.1 ars)
length-entries start number [] [] are ars = omega arith
length-entries start number [] (g ∷ gs) are ars = omega (
  arith,
  group_extent g gs ars.0,
  length-entries g.header.start_block g.header.inode_number g.items gs ars.0.items ars.1,
)

module _ (img : Image) (hdr_of : ℕ → ℕ) (all : IsGranted img) (rest name : List ℕ) (gs : List Group)
    (are : AreGroups gs) (i : Inode) (x : DirData) where
  -- The reader that `sqfs_dir_open` makes stands before the first group.
  dir_start-Stands :
      has_type s_ifdir i.base.mode ≡ true
      → i.xtra ≡ dir x
      → x.dir_size ≡ length (groups_bytes gs) + 3
      → Ahead img (x.start_block + img.sb.directory_table_start) x.offset (groups_bytes gs ++ rest)
      → Yields img hdr_of (dir_start img i) (Stands img rest 0 0 [] gs)
  unfolding dir_start as_dir items_bytes
  dir_start-Stands is_dir shape sized ahead =
      rw (is_dir, shape)
        (pure-Yields img hdr_of _ _ (record {
          start_block = refl;
          inode_number = refl;
          count = refl;
          items = tt;
          groups = are;
          ahead = ahead;
          ends = ground (arith, sized);
        }))

  pub dir_lookup-search :
      has_type s_ifdir i.base.mode ≡ true
      → i.xtra ≡ dir x
      → x.dir_size ≡ length (groups_bytes gs) + 3
      → x.idx_count ≡ 0
      → Ahead img (x.start_block + img.sb.directory_table_start) x.offset (groups_bytes gs ++ rest)
      → Yields img hdr_of (dir_lookup img i name) (Matches (search name (entries 0 0 [] gs)))
  unfolding dir_lookup ff_header as_dir
  dir_lookup-search is_dir shape sized plain ahead =
      bind-Yields img hdr_of (dir_start img i) _ (dir_start-Stands is_dir shape sized ahead) (λ d s.
        rw (shape, plain)
          (find_entry-Matches img hdr_of all rest name (lookup_fuel img d) 0 0 [] gs
            (omega (arith, s.ends, length-entries 0 0 [] gs tt are)) d s))
