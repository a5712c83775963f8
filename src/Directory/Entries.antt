-- ===== src/Directory/Entries.antt =====
-- Reading one entry of a directory.
use squashfuse.Common.{
  ◌<◌, low_bits32, plus_signed16, ℕ, ◌+◌, ◌-◌, ◌*◌, ◌^◌, ◌≡◌, refl, sym, ap, ◌∙◌, Bool, true, false,
  List, [], ◌∷◌, ◌++◌, length, append-nil, append_assoc, length-append, ltb, if◌then◌else◌, arith,
}
use squashfuse.Actions.{md_bytes, md_skip}
use squashfuse.Actions.Rules.{
  Yields, pure-Yields, bind-Yields, md_bytes-Yields, md_skip-Yields, length-encode_fields,
}
use squashfuse.Block.Reads.{IsGranted}
use squashfuse.Format.{sizeof, encode_fields}
use squashfuse.Format.Dirs.{
  DirHeader, dir_entry_widths, dir_entry_values, dir_header_widths, dir_header_values,
  swapin_dir_entry, swapin_dir_entry_lem,
}
use squashfuse.Fs.{Image}
use squashfuse.Metadata.Stream.{Ahead}
use squashfuse.Directory.{Dir, dir_md_read, read_name, read_entry, name_len, add_signed16}
use squashfuse.Directory.Listing.{
  Item, Group, IsItem, IsGroup, item_bytes, items_bytes, groups_bytes, Stands, Delivers,
}

pub item_extent :
    (x : Item) (xs : List Item)
    → IsItem x
    → length (items_bytes (x ∷ xs))
      ≡ sizeof dir_entry_widths + length x.name + length (items_bytes xs)
unfolding items_bytes item_bytes
item_extent x xs is =
    let stored = encode_fields dir_entry_widths (dir_entry_values x.fields) in
    omega (
      arith,
      length-append (stored ++ x.name) (items_bytes xs),
      length-append stored x.name,
      length-encode_fields dir_entry_widths (dir_entry_values x.fields) is.fit,
    )

pub group_extent :
    (g : Group) (gs : List Group)
    → IsGroup g
    → length (groups_bytes (g ∷ gs))
      ≡ sizeof dir_header_widths + (length (items_bytes g.items) + length (groups_bytes gs))
unfolding groups_bytes
group_extent g gs is =
    let stored = encode_fields dir_header_widths (dir_header_values g.header) in
    omega (
      arith,
      length-append stored (items_bytes g.items ++ groups_bytes gs),
      length-append (items_bytes g.items) (groups_bytes gs),
      length-encode_fields dir_header_widths (dir_header_values g.header) is.fit,
    )

-- The code adds the extension of the sign to 32 bits.
add_signed16_lem : (n d : ℕ) → d < 2 ^ 16 → add_signed16 n d ≡ low_bits32 (plus_signed16 n d)
unfolding add_signed16
add_signed16_lem n d h = ground arith

module _ (img : Image) (hdr_of : ℕ → ℕ) (all : IsGranted img) where
  -- Reading moves the cursor and the offset, and nothing else.
  pub dir_md_read-Yields :
      (d : Dir) (n : ℕ) (xs rest : List ℕ)
      → length xs ≡ n
      → Ahead img d.cur.block d.cur.offset (xs ++ rest)
      → Yields img hdr_of (dir_md_read img d n) (λ r.
        (r.0 ≡ xs)
        × (r.1 ≡ record d { cur = r.1.cur; offset = d.offset + n })
        × Ahead img r.1.cur.block r.1.cur.offset rest)
  unfolding dir_md_read
  dir_md_read-Yields d n xs rest width ahead =
      bind-Yields img hdr_of (md_bytes img d.cur n) _
        (md_bytes-Yields img hdr_of all d.cur n xs rest width ahead)
        (λ r p.
          pure-Yields img hdr_of _ (r.0, record d { cur = r.1; offset = d.offset + n })
            (p.0, refl, p.1))

  read_name-Yields :
      (named : Bool) (d : Dir) (n : ℕ) (xs rest : List ℕ)
      → length xs ≡ n
      → Ahead img d.cur.block d.cur.offset (xs ++ rest)
      → Yields img hdr_of (read_name img named d n) (λ r.
        (r.0 ≡ (if named then xs else []))
        × (r.1 ≡ record d { cur = r.1.cur; offset = d.offset + n })
        × Ahead img r.1.cur.block r.1.cur.offset rest)
  unfolding read_name dir_md_read
  read_name-Yields true d n xs rest width ahead =
      bind-Yields img hdr_of (md_bytes img d.cur n) _
        (md_bytes-Yields img hdr_of all d.cur n xs rest width ahead)
        (λ r p.
          pure-Yields img hdr_of _ (r.0, record d { cur = r.1; offset = d.offset + n })
            (p.0, refl, p.1))
  read_name-Yields false d n xs rest width ahead =
      bind-Yields img hdr_of (md_skip img d.cur n) _
        (md_skip-Yields img hdr_of all d.cur n xs rest width ahead)
        (λ cur p.
          pure-Yields img hdr_of _ ([], record d { cur = cur; offset = d.offset + n })
            (refl, refl, p))

  module _ (rest : List ℕ) (start number : ℕ) where
    pub read_entry-Yields :
        (named : Bool) (from : ℕ) (x : Item) (xs : List Item) (gs : List Group) (d : Dir)
        → Stands img rest start number (x ∷ xs) gs d
        → Yields img hdr_of
            (read_entry img named from d)
            (λ r. Delivers named start number x r.1 × Stands img rest start number xs gs r.0)
    unfolding read_entry items_bytes item_bytes
    read_entry-Yields named from x xs gs d s =
        let is = s.items.0 in
        let stored = encode_fields dir_entry_widths (dir_entry_values x.fields) in
        let behind = items_bytes xs ++ (groups_bytes gs ++ rest) in
        let width = length-encode_fields dir_entry_widths (dir_entry_values x.fields) is.fit in
        let front : Ahead img d.cur.block d.cur.offset (stored ++ (x.name ++ behind)) =
          rw (append_assoc, append_assoc) at s.ahead in
        let extent = item_extent x xs is in
        bind-Yields img hdr_of (dir_md_read img d (sizeof dir_entry_widths)) _
          (dir_md_read-Yields d (sizeof dir_entry_widths) stored (x.name ++ behind) width front)
          (λ r p.
            let e : swapin_dir_entry r.0 ≡ x.fields =
              ap swapin_dir_entry (p.0 ∙ sym (append-nil stored))
              ∙ swapin_dir_entry_lem x.fields [] is.fit in
            let fits : ltb name_len (x.fields.size + 1) ≡ false = ground (arith, is.short) in
            rw (e, fits)
              (bind-Yields img hdr_of (read_name img named _ (x.fields.size + 1)) _
                (read_name-Yields named _ (x.fields.size + 1) x.name behind is.sized p.2)
                (λ n q.
                  let head : r.1.header ≡ d.header = ap (λ (t : Dir). t.header) p.1 in
                  let head' : n.1.header ≡ record r.1.header { count = r.1.header.count - 1 } =
                    ap (λ (t : Dir). t.header) q.1 in
                  let same : n.1.header ≡ record d.header { count = d.header.count - 1 } =
                    head' ∙ ap (λ (t : DirHeader). record t { count = t.count - 1 }) head in
                  let at : r.1.offset ≡ d.offset + sizeof dir_entry_widths =
                    ap (λ (t : Dir). t.offset) p.1 in
                  let at' : n.1.offset ≡ r.1.offset + (x.fields.size + 1) =
                    ap (λ (t : Dir). t.offset) q.1 in
                  let total : n.1.total ≡ d.total =
                    ap (λ (t : Dir). t.total) q.1 ∙ ap (λ (t : Dir). t.total) p.1 in
                  let lowered : d.header.count - 1 ≡ length xs = omega (arith, s.count) in
                  pure-Yields img hdr_of _ _ (
                    record {
                      inode =
                          ap (λ (t : DirHeader). t.start_block * 2 ^ 16 + x.fields.offset) head
                          ∙ ap (λ k. k * 2 ^ 16 + x.fields.offset) s.start_block;
                      inode_number =
                          ap (λ (t : DirHeader). add_signed16 t.inode_number x.fields.inode_number)
                            head
                          ∙ ap (λ k. add_signed16 k x.fields.inode_number) s.inode_number
                          ∙ add_signed16_lem number x.fields.inode_number is.fit.1.0;
                      type = refl;
                      name_size = sym is.sized;
                      name = q.0;
                    },
                    record {
                      start_block = ap (λ (t : DirHeader). t.start_block) same ∙ s.start_block;
                      inode_number = ap (λ (t : DirHeader). t.inode_number) same ∙ s.inode_number;
                      count = ap (λ (t : DirHeader). t.count) same ∙ lowered;
                      items = s.items.1;
                      groups = s.groups;
                      ahead = q.2;
                      ends = omega (arith, extent, s.ends, is.sized);
                    },
                  ))))
