-- ===== src/Directory/Listing.antt =====
-- What a directory holds: groups of entries, each behind a header, and where a reader stands in it.
use squashfuse.Common.{
  ℕ, ◌+◌, ◌*◌, ◌<◌, ◌^◌, ◌≡◌, Bool, List, [], ◌∷◌, ◌++◌, length, Option, none, some, if◌then◌else◌,
  low_bits32, plus_signed16,
}
use squashfuse.Format.{encode_fields}
use squashfuse.Format.RoundTrip.{Fit}
use squashfuse.Format.Dirs.{
  DirEntry, DirHeader, dir_entry_widths, dir_entry_values, dir_header_widths, dir_header_values,
}
use squashfuse.Fs.{Image}
use squashfuse.Metadata.Stream.{Ahead}
use squashfuse.Directory.{Dir, Dirent}

pub record Item : Type 0 where
  pub fields : DirEntry
  pub name : List ℕ

pub record Group : Type 0 where
  pub header : DirHeader
  pub items : List Item

pub record IsItem (x : Item) : Type 0 where
  pub fit : Fit dir_entry_widths (dir_entry_values x.fields)
  pub sized : length x.name ≡ x.fields.size + 1
  pub short : x.fields.size < 256

abbrev pub AreItems : List Item → Type 0
AreItems [] = Unit {0}
AreItems (x ∷ xs) = IsItem x × AreItems xs

-- A header stores one less than the number of its entries.
pub record IsGroup (g : Group) : Type 0 where
  pub fit : Fit dir_header_widths (dir_header_values g.header)
  pub counted : length g.items ≡ g.header.count + 1
  pub small : length g.items < 2 ^ 32
  pub items : AreItems g.items

abbrev pub AreGroups : List Group → Type 0
AreGroups [] = Unit {0}
AreGroups (g ∷ gs) = IsGroup g × AreGroups gs

unfoldable pub item_bytes : Item → List ℕ
item_bytes x = encode_fields dir_entry_widths (dir_entry_values x.fields) ++ x.name

unfoldable pub items_bytes : List Item → List ℕ
items_bytes [] = []
items_bytes (x ∷ xs) = item_bytes x ++ items_bytes xs

unfoldable pub groups_bytes : List Group → List ℕ
groups_bytes [] = []
groups_bytes (g ∷ gs) =
    encode_fields dir_header_widths (dir_header_values g.header)
    ++ (items_bytes g.items ++ groups_bytes gs)

-- The reader has so many entries of the current group before it, and then groups up to the total.
pub record Stands (img : Image) (rest : List ℕ) (start number : ℕ) (xs : List Item)
    (gs : List Group) (d : Dir) : Type 0 where
  pub start_block : d.header.start_block ≡ start
  pub inode_number : d.header.inode_number ≡ number
  pub count : d.header.count ≡ length xs
  pub items : AreItems xs
  pub groups : AreGroups gs
  pub ahead : Ahead img d.cur.block d.cur.offset (items_bytes xs ++ (groups_bytes gs ++ rest))
  pub ends : d.total ≡ d.offset + (length (items_bytes xs) + length (groups_bytes gs))

-- An entry as it is delivered; the name only to a caller that has a buffer for it.
pub record Delivers (named : Bool) (start number : ℕ) (x : Item) (e : Dirent) : Type 0 where
  pub inode : e.inode ≡ start * 2 ^ 16 + x.fields.offset
  pub inode_number : e.inode_number ≡ low_bits32 (plus_signed16 number x.fields.inode_number)
  pub type : e.type ≡ x.fields.type
  pub name_size : e.name_size ≡ length x.name
  pub name : e.name ≡ (if named then x.name else [])

-- What the next call delivers and where it leaves the reader.
abbrev pub Next :
    Image → List ℕ → Bool → ℕ → ℕ → List Item → List Group → Dir × Option Dirent → Type 0
Next img rest named start number [] [] r = (r.1 ≡ none) × Stands img rest start number [] [] r.0
Next img rest named start number (x ∷ xs) gs r =
    (e : Dirent) × (r.1 ≡ some e)
    × Delivers named start number x e
    × Stands img rest start number xs gs r.0
Next img rest named start number [] (g ∷ gs) r =
    Next img rest named g.header.start_block g.header.inode_number g.items gs r
