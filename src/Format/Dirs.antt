-- ===== src/Format/Dirs.antt =====
-- squashfs_fs.h: the on-disk structures of directories, with the functions that gen_swap.sh makes
-- for them. A structure's `_widths` are the sizes of its fields, which the compiler leaves no gaps between.
use squashfuse.Common.{ℕ, ◌≡◌, List, [], ◌∷◌, ◌++◌, get_or}
use squashfuse.Format.{swapin_fields, encode_fields}
use squashfuse.Format.RoundTrip.{Fit, swapin_fields-encode_fields}

pub record DirIndex : Type 0 where
  pub index : ℕ
  pub start_block : ℕ
  pub size : ℕ

abbrev pub dir_index_widths : List ℕ
dir_index_widths = 4 ∷ 4 ∷ 4 ∷ []

unfoldable pub swapin_dir_index : List ℕ → DirIndex
swapin_dir_index bytes =
    let v = swapin_fields dir_index_widths bytes in
    record { index = get_or v 0 0; start_block = get_or v 1 0; size = get_or v 2 0 }

abbrev pub dir_index_values : DirIndex → List ℕ
dir_index_values r = r.index ∷ r.start_block ∷ r.size ∷ []

pub swapin_dir_index_lem :
    (r : DirIndex) (rest : List ℕ)
    → Fit dir_index_widths (dir_index_values r)
    → swapin_dir_index (encode_fields dir_index_widths (dir_index_values r) ++ rest) ≡ r
unfolding swapin_dir_index
swapin_dir_index_lem r rest fits =
    rw (swapin_fields-encode_fields dir_index_widths (dir_index_values r) rest fits)

pub record DirEntry : Type 0 where
  pub offset : ℕ
  pub inode_number : ℕ
  pub type : ℕ
  pub size : ℕ

abbrev pub dir_entry_widths : List ℕ
dir_entry_widths = 2 ∷ 2 ∷ 2 ∷ 2 ∷ []

unfoldable pub swapin_dir_entry : List ℕ → DirEntry
swapin_dir_entry bytes =
    let v = swapin_fields dir_entry_widths bytes in
    record {
      offset = get_or v 0 0;
      inode_number = get_or v 1 0;
      type = get_or v 2 0;
      size = get_or v 3 0;
    }

abbrev pub dir_entry_values : DirEntry → List ℕ
dir_entry_values r = r.offset ∷ r.inode_number ∷ r.type ∷ r.size ∷ []

pub swapin_dir_entry_lem :
    (r : DirEntry) (rest : List ℕ)
    → Fit dir_entry_widths (dir_entry_values r)
    → swapin_dir_entry (encode_fields dir_entry_widths (dir_entry_values r) ++ rest) ≡ r
unfolding swapin_dir_entry
swapin_dir_entry_lem r rest fits =
    rw (swapin_fields-encode_fields dir_entry_widths (dir_entry_values r) rest fits)

pub record DirHeader : Type 0 where
  pub count : ℕ
  pub start_block : ℕ
  pub inode_number : ℕ

abbrev pub dir_header_widths : List ℕ
dir_header_widths = 4 ∷ 4 ∷ 4 ∷ []

unfoldable pub swapin_dir_header : List ℕ → DirHeader
swapin_dir_header bytes =
    let v = swapin_fields dir_header_widths bytes in
    record { count = get_or v 0 0; start_block = get_or v 1 0; inode_number = get_or v 2 0 }

abbrev pub dir_header_values : DirHeader → List ℕ
dir_header_values r = r.count ∷ r.start_block ∷ r.inode_number ∷ []

pub swapin_dir_header_lem :
    (r : DirHeader) (rest : List ℕ)
    → Fit dir_header_widths (dir_header_values r)
    → swapin_dir_header (encode_fields dir_header_widths (dir_header_values r) ++ rest) ≡ r
unfolding swapin_dir_header
swapin_dir_header_lem r rest fits =
    rw (swapin_fields-encode_fields dir_header_widths (dir_header_values r) rest fits)
