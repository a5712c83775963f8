-- ===== src/Format/Tables.antt =====
-- squashfs_fs.h: the on-disk structures of fragments and extended attributes, with the functions that gen_swap.sh makes
-- for them. A structure's `_widths` are the sizes of its fields, which the compiler leaves no gaps between.
-- The generator passes over a fragment entry's last field, `unused`, since its type is no `__le` type.
use squashfuse.Common.{ℕ, ◌≡◌, List, [], ◌∷◌, ◌++◌, get_or}
use squashfuse.Format.{swapin_fields, encode_fields}
use squashfuse.Format.RoundTrip.{Fit, swapin_fields-encode_fields}

pub record FragmentEntry : Type 0 where
  pub start_block : ℕ
  pub size : ℕ

abbrev pub fragment_entry_widths : List ℕ
fragment_entry_widths = 8 ∷ 4 ∷ []

unfoldable pub swapin_fragment_entry : List ℕ → FragmentEntry
swapin_fragment_entry bytes =
    let v = swapin_fields fragment_entry_widths bytes in
    record { start_block = get_or v 0 0; size = get_or v 1 0 }

abbrev pub fragment_entry_values : FragmentEntry → List ℕ
fragment_entry_values r = r.start_block ∷ r.size ∷ []

pub swapin_fragment_entry_lem :
    (r : FragmentEntry) (rest : List ℕ)
    → Fit fragment_entry_widths (fragment_entry_values r)
    → swapin_fragment_entry (encode_fields fragment_entry_widths (fragment_entry_values r) ++ rest)
      ≡ r
unfolding swapin_fragment_entry
swapin_fragment_entry_lem r rest fits =
    rw (swapin_fields-encode_fields fragment_entry_widths (fragment_entry_values r) rest fits)

pub record XattrEntry : Type 0 where
  pub type : ℕ
  pub size : ℕ

abbrev pub xattr_entry_widths : List ℕ
xattr_entry_widths = 2 ∷ 2 ∷ []

unfoldable pub swapin_xattr_entry : List ℕ → XattrEntry
swapin_xattr_entry bytes =
    let v = swapin_fields xattr_entry_widths bytes in
    record { type = get_or v 0 0; size = get_or v 1 0 }

abbrev pub xattr_entry_values : XattrEntry → List ℕ
xattr_entry_values r = r.type ∷ r.size ∷ []

pub swapin_xattr_entry_lem :
    (r : XattrEntry) (rest : List ℕ)
    → Fit xattr_entry_widths (xattr_entry_values r)
    → swapin_xattr_entry (encode_fields xattr_entry_widths (xattr_entry_values r) ++ rest) ≡ r
unfolding swapin_xattr_entry
swapin_xattr_entry_lem r rest fits =
    rw (swapin_fields-encode_fields xattr_entry_widths (xattr_entry_values r) rest fits)

pub record XattrVal : Type 0 where
  pub vsize : ℕ

abbrev pub xattr_val_widths : List ℕ
xattr_val_widths = 4 ∷ []

unfoldable pub swapin_xattr_val : List ℕ → XattrVal
swapin_xattr_val bytes =
    let v = swapin_fields xattr_val_widths bytes in record { vsize = get_or v 0 0 }

abbrev pub xattr_val_values : XattrVal → List ℕ
xattr_val_values r = r.vsize ∷ []

pub swapin_xattr_val_lem :
    (r : XattrVal) (rest : List ℕ)
    → Fit xattr_val_widths (xattr_val_values r)
    → swapin_xattr_val (encode_fields xattr_val_widths (xattr_val_values r) ++ rest) ≡ r
unfolding swapin_xattr_val
swapin_xattr_val_lem r rest fits =
    rw (swapin_fields-encode_fields xattr_val_widths (xattr_val_values r) rest fits)

pub record XattrId : Type 0 where
  pub xattr : ℕ
  pub count : ℕ
  pub size : ℕ

abbrev pub xattr_id_widths : List ℕ
xattr_id_widths = 8 ∷ 4 ∷ 4 ∷ []

unfoldable pub swapin_xattr_id : List ℕ → XattrId
swapin_xattr_id bytes =
    let v = swapin_fields xattr_id_widths bytes in
    record { xattr = get_or v 0 0; count = get_or v 1 0; size = get_or v 2 0 }

abbrev pub xattr_id_values : XattrId → List ℕ
xattr_id_values r = r.xattr ∷ r.count ∷ r.size ∷ []

pub swapin_xattr_id_lem :
    (r : XattrId) (rest : List ℕ)
    → Fit xattr_id_widths (xattr_id_values r)
    → swapin_xattr_id (encode_fields xattr_id_widths (xattr_id_values r) ++ rest) ≡ r
unfolding swapin_xattr_id
swapin_xattr_id_lem r rest fits =
    rw (swapin_fields-encode_fields xattr_id_widths (xattr_id_values r) rest fits)

pub record XattrIdTable : Type 0 where
  pub xattr_table_start : ℕ
  pub xattr_ids : ℕ
  pub unused : ℕ

abbrev pub xattr_id_table_widths : List ℕ
xattr_id_table_widths = 8 ∷ 4 ∷ 4 ∷ []

unfoldable pub swapin_xattr_id_table : List ℕ → XattrIdTable
swapin_xattr_id_table bytes =
    let v = swapin_fields xattr_id_table_widths bytes in
    record { xattr_table_start = get_or v 0 0; xattr_ids = get_or v 1 0; unused = get_or v 2 0 }

abbrev pub xattr_id_table_values : XattrIdTable → List ℕ
xattr_id_table_values r = r.xattr_table_start ∷ r.xattr_ids ∷ r.unused ∷ []

pub swapin_xattr_id_table_lem :
    (r : XattrIdTable) (rest : List ℕ)
    → Fit xattr_id_table_widths (xattr_id_table_values r)
    → swapin_xattr_id_table (encode_fields xattr_id_table_widths (xattr_id_table_values r) ++ rest)
      ≡ r
unfolding swapin_xattr_id_table
swapin_xattr_id_table_lem r rest fits =
    rw (swapin_fields-encode_fields xattr_id_table_widths (xattr_id_table_values r) rest fits)
