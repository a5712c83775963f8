-- ===== src/Directory/Iteration.antt =====
-- `sqfs_dir_next` delivers the entries of a directory one by one.
use squashfuse.Common.{
  ℕ, suc, ◌+◌, ◌-◌, ◌%◌, ◌^◌, ◌≡◌, refl, sym, ap, ◌∙◌, Bool, true, false, none, some, List, [], ◌∷◌,
  ◌++◌, length, append-nil, append_assoc, leb, ◌==◌, arith, inl, inr, List-cases,
}
use mathlib.Core.Path.{subst}
use squashfuse.Actions.{◌>>=◌, pure}
use squashfuse.Actions.Rules.{
  IsSound, Ends, Yields, pure-Yields, bind-Yields, map-Yields, length-encode_fields,
}
use squashfuse.Block.Reads.{IsGranted}
use squashfuse.Format.{sizeof, encode_fields}
use squashfuse.Format.Dirs.{
  DirHeader, dir_header_widths, dir_header_values, swapin_dir_header, swapin_dir_header_lem,
}
use squashfuse.Fs.{Image, Caches}
use squashfuse.Metadata.Stream.{Ahead}
use squashfuse.Directory.{Dir, dir_md_read, next_header, header_fuel, read_entry, dir_next}
use squashfuse.Directory.Listing.{Item, Group, items_bytes, groups_bytes, Stands, Next}
use squashfuse.Directory.Entries.{group_extent, dir_md_read-Yields, read_entry-Yields}

module _ (img : Image) (hdr_of : ℕ → ℕ) (all : IsGranted img) where
  module _ (rest : List ℕ) (start number : ℕ) where
    -- The loop stops before an entry of the current group.
    next_header_more :
        (fuel : ℕ) (x : Item) (xs : List Item) (gs : List Group) (d : Dir)
        → Stands img rest start number (x ∷ xs) gs d
        → Yields img hdr_of
            (next_header img (suc fuel) d)
            (λ r. (r.1 ≡ true) × Stands img rest start number (x ∷ xs) gs r.0)
    unfolding next_header
    next_header_more fuel x xs gs d s =
        let busy : d.header.count == 0 ≡ false = ground (arith, s.count) in
        rw (next_header, busy) (pure-Yields img hdr_of _ (d, true) (refl, s))

    next_header_done :
        (fuel : ℕ) (d : Dir)
        → Stands img rest start number [] [] d
        → Yields img hdr_of (next_header img (suc fuel) d) (λ r. r ≡ (d, false))
    unfolding next_header items_bytes groups_bytes
    next_header_done fuel d s =
        let idle : d.header.count == 0 ≡ true = ground (arith, s.count) in
        let over : leb d.total d.offset ≡ true = ground (arith, s.ends) in
        rw (next_header, idle, over) (pure-Yields img hdr_of _ (d, false) refl)

  -- A header is read where a group begins.
  next_header-Stands :
      (rest : List ℕ) (start number fuel : ℕ) (x : Item) (xs : List Item) (g : Group)
      (gs : List Group) (d : Dir)
      → g.items ≡ x ∷ xs
      → Stands img rest start number [] (g ∷ gs) d
      → Yields img hdr_of (next_header img (suc (suc fuel)) d) (λ r.
        (r.1 ≡ true) × Stands img rest g.header.start_block g.header.inode_number (x ∷ xs) gs r.0)
  unfolding next_header items_bytes groups_bytes
  next_header-Stands rest start number fuel x xs g gs d first s =
      let is = s.groups.0 in
      let stored = encode_fields dir_header_widths (dir_header_values g.header) in
      let idle : d.header.count == 0 ≡ true = ground (arith, s.count) in
      let width = length-encode_fields dir_header_widths (dir_header_values g.header) is.fit in
      let extent = group_extent g gs is in
      let over : leb d.total d.offset ≡ false = ground (arith, s.ends, extent) in
      let front : Ahead img d.cur.block d.cur.offset
          (stored ++ (items_bytes g.items ++ (groups_bytes gs ++ rest))) =
        rw (append_assoc, append_assoc) at s.ahead in
      rw (next_header, idle, over)
        (bind-Yields img hdr_of (dir_md_read img d (sizeof dir_header_widths)) _
          (dir_md_read-Yields img hdr_of all d (sizeof dir_header_widths) stored _ width front)
          (λ r p.
            let e : swapin_dir_header r.0 ≡ g.header =
              ap swapin_dir_header (p.0 ∙ sym (append-nil stored))
              ∙ swapin_dir_header_lem g.header [] is.fit in
            let at : r.1.offset ≡ d.offset + sizeof dir_header_widths =
              ap (λ (t : Dir). t.offset) p.1 in
            let total : r.1.total ≡ d.total = ap (λ (t : Dir). t.total) p.1 in
            let counted : (g.header.count + 1) % 2 ^ 32 ≡ length g.items =
              omega (arith, is.counted, is.small) in
            subst
              (λ (h : DirHeader).
                Yields img hdr_of
                  (next_header img (suc fuel)
                    (record r.1 { header = record h { count = (h.count + 1) % 2 ^ 32 } }))
                  (λ r.
                    (r.1 ≡ true)
                    × Stands img rest g.header.start_block g.header.inode_number (x ∷ xs) gs r.0))
              (sym e)
              (next_header_more rest g.header.start_block g.header.inode_number fuel x xs gs _ (
                subst
                  (λ items.
                    Stands img rest g.header.start_block g.header.inode_number items gs
                      (record r.1 {
                        header = record g.header { count = (g.header.count + 1) % 2 ^ 32 };
                      }))
                  first
                  (record {
                    start_block = refl;
                    inode_number = refl;
                    count = counted;
                    items = is.items;
                    groups = s.groups.1;
                    ahead = p.2;
                    ends = omega (arith, s.ends, extent, at, total);
                  })))))

  -- Behind its loop, the call has an entry to read or none.
  abbrev Found : List ℕ → ℕ → ℕ → List Item → List Group → Dir × Bool → Type 0
  Found rest start number [] [] r = (r.1 ≡ false) × Stands img rest start number [] [] r.0
  Found rest start number (x ∷ xs) gs r =
      (r.1 ≡ true) × Stands img rest start number (x ∷ xs) gs r.0
  Found rest start number [] (g ∷ gs) r =
      Found rest g.header.start_block g.header.inode_number g.items gs r

  next_header-Found :
      (rest : List ℕ) (start number : ℕ) (xs : List Item) (gs : List Group) (d : Dir)
      → Stands img rest start number xs gs d
      → Yields img hdr_of (next_header img (header_fuel img d) d) (Found rest start number xs gs)
  next_header-Found rest start number (x ∷ xs) gs d s =
      next_header_more rest start number (suc (d.total - d.offset)) x xs gs d s
  next_header-Found rest start number [] [] d s =
      map-Yields img hdr_of _ (next_header_done rest start number (suc (d.total - d.offset)) d s)
        (λ r p. (
          ap (λ t. t.1) p,
          subst (λ (t : Dir × Bool). Stands img rest start number [] [] t.0) (sym p) s,
        ))
  next_header-Found rest start number [] (g ∷ gs) d s = elim (List-cases g.items) [
    | inl none_there ↦ absurd (omega (arith, s.groups.0.counted, ap (λ t. length t) none_there))
    | inr (x, xs, first) ↦
        map-Yields img hdr_of _
          (next_header-Stands rest start number (d.total - d.offset) x xs g gs d first s)
          (λ r p.
            subst (λ items. Found rest g.header.start_block g.header.inode_number items gs r)
              (sym first) p)
  ]

  read_entry-Found :
      (rest : List ℕ) (named : Bool) (from start number : ℕ) (xs : List Item) (gs : List Group)
      (r : Dir × Bool)
      → Found rest start number xs gs r
      → Yields img hdr_of
          (elim r.1 [
            | false ↦ pure (r.0, none)
            | true ↦ read_entry img named from r.0 >>= λ t. pure (t.0, some t.1)
          ])
          (Next img rest named start number xs gs)
  read_entry-Found rest named from start number [] [] r p =
      rw p.0 (pure-Yields img hdr_of _ (r.0, none) (refl, p.1))
  read_entry-Found rest named from start number (x ∷ xs) gs r p = rw p.0 (
      bind-Yields img hdr_of (read_entry img named from r.0) _
        (read_entry-Yields img hdr_of all rest start number named from x xs gs r.0 p.1)
        (λ t q. pure-Yields img hdr_of _ (t.0, some t.1) (t.1, refl, q.0, q.1)))
  read_entry-Found rest named from start number [] (g ∷ gs) r p =
      read_entry-Found rest named from g.header.start_block g.header.inode_number g.items gs r p

  -- From where a reader stands, `sqfs_dir_next` delivers the next entry and moves behind it.
  pub dir_next-Next :
      (rest : List ℕ) (named : Bool) (start number : ℕ) (xs : List Item) (gs : List Group) (d : Dir)
      → Stands img rest start number xs gs d
      → Yields img hdr_of (dir_next img named d) (Next img rest named start number xs gs)
  unfolding dir_next
  dir_next-Next rest named start number xs gs d s =
      bind-Yields img hdr_of (next_header img (header_fuel img d) d) _
        (next_header-Found rest start number xs gs d s)
        (λ r p. read_entry-Found rest named d.offset start number xs gs r p)

  -- Where all allocations succeed and the state of the caches is sound, for a reader that stands
  -- before some entries of a group and before further groups up to the directory's total, each
  -- with one entry at least and a header that counts them less one, `sqfs_dir_next` ends without
  -- an error and without using up its fuel: it delivers the next entry, across a header where the
  -- group is used up, with the fields that the header and the entry give and with the name if the
  -- caller has a buffer, and stands behind that entry; or it delivers none where no entry is
  -- left; the caches are sound afterwards.
  pub dir_next-Ends :
      (rest : List ℕ) (named : Bool) (start number : ℕ) (xs : List Item) (gs : List Group) (d : Dir)
      → Stands img rest start number xs gs d
      → (s : Caches) → IsSound img hdr_of s
      → Ends img hdr_of (Next img rest named start number xs gs) s (dir_next img named d s)
  dir_next-Ends rest named start number xs gs d here s sound =
      dir_next-Next rest named start number xs gs d here s sound
