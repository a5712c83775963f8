-- ===== src/Format/Super.antt =====
-- squashfs_fs.h: the on-disk structures of the superblock, with the functions that gen_swap.sh makes
-- for them. A structure's `_widths` are the sizes of its fields, which the compiler leaves no gaps between.
use squashfuse.Common.{ℕ, ◌≡◌, List, [], ◌∷◌, ◌++◌, get_or}
use squashfuse.Format.{swapin_fields, encode_fields}
use squashfuse.Format.RoundTrip.{Fit, swapin_fields-encode_fields}

pub record SuperBlock : Type 0 where
  pub s_magic : ℕ
  pub inodes : ℕ
  pub mkfs_time : ℕ
  pub block_size : ℕ
  pub fragments : ℕ
  pub compression : ℕ
  pub block_log : ℕ
  pub flags : ℕ
  pub no_ids : ℕ
  pub s_major : ℕ
  pub s_minor : ℕ
  pub root_inode : ℕ
  pub bytes_used : ℕ
  pub id_table_start : ℕ
  pub xattr_id_table_start : ℕ
  pub inode_table_start : ℕ
  pub directory_table_start : ℕ
  pub fragment_table_start : ℕ
  pub lookup_table_start : ℕ

abbrev pub super_block_widths : List ℕ
super_block_widths = 4 ∷ 4 ∷ 4 ∷ 4 ∷ 4 ∷ 2 ∷ 2 ∷ 2 ∷ 2 ∷ 2 ∷ 2 ∷ 8 ∷ 8 ∷ 8 ∷ 8 ∷ 8 ∷ 8 ∷ 8 ∷ 8 ∷ []

unfoldable pub swapin_super_block : List ℕ → SuperBlock
swapin_super_block bytes =
    let v = swapin_fields super_block_widths bytes in
    record {
      s_magic = get_or v 0 0;
      inodes = get_or v 1 0;
      mkfs_time = get_or v 2 0;
      block_size = get_or v 3 0;
      fragments = get_or v 4 0;
      compression = get_or v 5 0;
      block_log = get_or v 6 0;
      flags = get_or v 7 0;
      no_ids = get_or v 8 0;
      s_major = get_or v 9 0;
      s_minor = get_or v 10 0;
      root_inode = get_or v 11 0;
      bytes_used = get_or v 12 0;
      id_table_start = get_or v 13 0;
      xattr_id_table_start = get_or v 14 0;
      inode_table_start = get_or v 15 0;
      directory_table_start = get_or v 16 0;
      fragment_table_start = get_or v 17 0;
      lookup_table_start = get_or v 18 0;
    }

abbrev pub super_block_values : SuperBlock → List ℕ
super_block_values r =
    r.s_magic ∷ r.inodes ∷ r.mkfs_time ∷ r.block_size ∷ r.fragments ∷ r.compression ∷ r.block_log
    ∷ r.flags ∷ r.no_ids ∷ r.s_major ∷ r.s_minor ∷ r.root_inode ∷ r.bytes_used ∷ r.id_table_start
    ∷ r.xattr_id_table_start ∷ r.inode_table_start ∷ r.directory_table_start
    ∷ r.fragment_table_start ∷ r.lookup_table_start ∷ []

pub swapin_super_block_lem :
    (r : SuperBlock) (rest : List ℕ)
    → Fit super_block_widths (super_block_values r)
    → swapin_super_block (encode_fields super_block_widths (super_block_values r) ++ rest) ≡ r
unfolding swapin_super_block
swapin_super_block_lem r rest fits =
    rw (swapin_fields-encode_fields super_block_widths (super_block_values r) rest fits)
