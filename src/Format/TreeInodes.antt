-- ===== src/Format/TreeInodes.antt =====
-- squashfs_fs.h: the on-disk inodes of symbolic links, files and directories, with the functions
-- that gen_swap.sh makes for them.
use squashfuse.Common.{ℕ, ◌≡◌, List, [], ◌∷◌, ◌++◌, get_or}
use squashfuse.Format.{swapin_fields, encode_fields}
use squashfuse.Format.RoundTrip.{Fit, swapin_fields-encode_fields}

pub record SymlinkInode : Type 0 where
  pub inode_type : ℕ
  pub mode : ℕ
  pub uid : ℕ
  pub guid : ℕ
  pub mtime : ℕ
  pub inode_number : ℕ
  pub nlink : ℕ
  pub symlink_size : ℕ

abbrev pub symlink_inode_widths : List ℕ
symlink_inode_widths = 2 ∷ 2 ∷ 2 ∷ 2 ∷ 4 ∷ 4 ∷ 4 ∷ 4 ∷ []

unfoldable pub swapin_symlink_inode : List ℕ → SymlinkInode
swapin_symlink_inode bytes =
    let v = swapin_fields symlink_inode_widths bytes in
    record {
      inode_type = get_or v 0 0;
      mode = get_or v 1 0;
      uid = get_or v 2 0;
      guid = get_or v 3 0;
      mtime = get_or v 4 0;
      inode_number = get_or v 5 0;
      nlink = get_or v 6 0;
      symlink_size = get_or v 7 0;
    }

abbrev pub symlink_inode_values : SymlinkInode → List ℕ
symlink_inode_values r =
    r.inode_type ∷ r.mode ∷ r.uid ∷ r.guid ∷ r.mtime ∷ r.inode_number ∷ r.nlink ∷ r.symlink_size
    ∷ []

pub swapin_symlink_inode_lem :
    (r : SymlinkInode) (rest : List ℕ)
    → Fit symlink_inode_widths (symlink_inode_values r)
    → swapin_symlink_inode (encode_fields symlink_inode_widths (symlink_inode_values r) ++ rest) ≡ r
unfolding swapin_symlink_inode
swapin_symlink_inode_lem r rest fits =
    rw (swapin_fields-encode_fields symlink_inode_widths (symlink_inode_values r) rest fits)

pub record RegInode : Type 0 where
  pub inode_type : ℕ
  pub mode : ℕ
  pub uid : ℕ
  pub guid : ℕ
  pub mtime : ℕ
  pub inode_number : ℕ
  pub start_block : ℕ
  pub fragment : ℕ
  pub offset : ℕ
  pub file_size : ℕ

abbrev pub reg_inode_widths : List ℕ
reg_inode_widths = 2 ∷ 2 ∷ 2 ∷ 2 ∷ 4 ∷ 4 ∷ 4 ∷ 4 ∷ 4 ∷ 4 ∷ []

unfoldable pub swapin_reg_inode : List ℕ → RegInode
swapin_reg_inode bytes =
    let v = swapin_fields reg_inode_widths bytes in
    record {
      inode_type = get_or v 0 0;
      mode = get_or v 1 0;
      uid = get_or v 2 0;
      guid = get_or v 3 0;
      mtime = get_or v 4 0;
      inode_number = get_or v 5 0;
      start_block = get_or v 6 0;
      fragment = get_or v 7 0;
      offset = get_or v 8 0;
      file_size = get_or v 9 0;
    }

abbrev pub reg_inode_values : RegInode → List ℕ
reg_inode_values r =
    r.inode_type ∷ r.mode ∷ r.uid ∷ r.guid ∷ r.mtime ∷ r.inode_number ∷ r.start_block ∷ r.fragment
    ∷ r.offset ∷ r.file_size ∷ []

pub swapin_reg_inode_lem :
    (r : RegInode) (rest : List ℕ)
    → Fit reg_inode_widths (reg_inode_values r)
    → swapin_reg_inode (encode_fields reg_inode_widths (reg_inode_values r) ++ rest) ≡ r
unfolding swapin_reg_inode
swapin_reg_inode_lem r rest fits =
    rw (swapin_fields-encode_fields reg_inode_widths (reg_inode_values r) rest fits)

pub record LregInode : Type 0 where
  pub inode_type : ℕ
  pub mode : ℕ
  pub uid : ℕ
  pub guid : ℕ
  pub mtime : ℕ
  pub inode_number : ℕ
  pub start_block : ℕ
  pub file_size : ℕ
  pub sparse : ℕ
  pub nlink : ℕ
  pub fragment : ℕ
  pub offset : ℕ
  pub xattr : ℕ

abbrev pub lreg_inode_widths : List ℕ
lreg_inode_widths = 2 ∷ 2 ∷ 2 ∷ 2 ∷ 4 ∷ 4 ∷ 8 ∷ 8 ∷ 8 ∷ 4 ∷ 4 ∷ 4 ∷ 4 ∷ []

unfoldable pub swapin_lreg_inode : List ℕ → LregInode
swapin_lreg_inode bytes =
    let v = swapin_fields lreg_inode_widths bytes in
    record {
      inode_type = get_or v 0 0;
      mode = get_or v 1 0;
      uid = get_or v 2 0;
      guid = get_or v 3 0;
      mtime = get_or v 4 0;
      inode_number = get_or v 5 0;
      start_block = get_or v 6 0;
      file_size = get_or v 7 0;
      sparse = get_or v 8 0;
      nlink = get_or v 9 0;
      fragment = get_or v 10 0;
      offset = get_or v 11 0;
      xattr = get_or v 12 0;
    }

abbrev pub lreg_inode_values : LregInode → List ℕ
lreg_inode_values r =
    r.inode_type ∷ r.mode ∷ r.uid ∷ r.guid ∷ r.mtime ∷ r.inode_number ∷ r.start_block ∷ r.file_size
    ∷ r.sparse ∷ r.nlink ∷ r.fragment ∷ r.offset ∷ r.xattr ∷ []

pub swapin_lreg_inode_lem :
    (r : LregInode) (rest : List ℕ)
    → Fit lreg_inode_widths (lreg_inode_values r)
    → swapin_lreg_inode (encode_fields lreg_inode_widths (lreg_inode_values r) ++ rest) ≡ r
unfolding swapin_lreg_inode
swapin_lreg_inode_lem r rest fits =
    rw (swapin_fields-encode_fields lreg_inode_widths (lreg_inode_values r) rest fits)

pub record DirInode : Type 0 where
  pub inode_type : ℕ
  pub mode : ℕ
  pub uid : ℕ
  pub guid : ℕ
  pub mtime : ℕ
  pub inode_number : ℕ
  pub start_block : ℕ
  pub nlink : ℕ
  pub file_size : ℕ
  pub offset : ℕ
  pub parent_inode : ℕ

abbrev pub dir_inode_widths : List ℕ
dir_inode_widths = 2 ∷ 2 ∷ 2 ∷ 2 ∷ 4 ∷ 4 ∷ 4 ∷ 4 ∷ 2 ∷ 2 ∷ 4 ∷ []

unfoldable pub swapin_dir_inode : List ℕ → DirInode
swapin_dir_inode bytes =
    let v = swapin_fields dir_inode_widths bytes in
    record {
      inode_type = get_or v 0 0;
      mode = get_or v 1 0;
      uid = get_or v 2 0;
      guid = get_or v 3 0;
      mtime = get_or v 4 0;
      inode_number = get_or v 5 0;
      start_block = get_or v 6 0;
      nlink = get_or v 7 0;
      file_size = get_or v 8 0;
      offset = get_or v 9 0;
      parent_inode = get_or v 10 0;
    }

abbrev pub dir_inode_values : DirInode → List ℕ
dir_inode_values r =
    r.inode_type ∷ r.mode ∷ r.uid ∷ r.guid ∷ r.mtime ∷ r.inode_number ∷ r.start_block ∷ r.nlink
    ∷ r.file_size ∷ r.offset ∷ r.parent_inode ∷ []

pub swapin_dir_inode_lem :
    (r : DirInode) (rest : List ℕ)
    → Fit dir_inode_widths (dir_inode_values r)
    → swapin_dir_inode (encode_fields dir_inode_widths (dir_inode_values r) ++ rest) ≡ r
unfolding swapin_dir_inode
swapin_dir_inode_lem r rest fits =
    rw (swapin_fields-encode_fields dir_inode_widths (dir_inode_values r) rest fits)

pub record LdirInode : Type 0 where
  pub inode_type : ℕ
  pub mode : ℕ
  pub uid : ℕ
  pub guid : ℕ
  pub mtime : ℕ
  pub inode_number : ℕ
  pub nlink : ℕ
  pub file_size : ℕ
  pub start_block : ℕ
  pub parent_inode : ℕ
  pub i_count : ℕ
  pub offset : ℕ
  pub xattr : ℕ

abbrev pub ldir_inode_widths : List ℕ
ldir_inode_widths = 2 ∷ 2 ∷ 2 ∷ 2 ∷ 4 ∷ 4 ∷ 4 ∷ 4 ∷ 4 ∷ 4 ∷ 2 ∷ 2 ∷ 4 ∷ []

unfoldable pub swapin_ldir_inode : List ℕ → LdirInode
swapin_ldir_inode bytes =
    let v = swapin_fields ldir_inode_widths bytes in
    record {
      inode_type = get_or v 0 0;
      mode = get_or v 1 0;
      uid = get_or v 2 0;
      guid = get_or v 3 0;
      mtime = get_or v 4 0;
      inode_number = get_or v 5 0;
      nlink = get_or v 6 0;
      file_size = get_or v 7 0;
      start_block = get_or v 8 0;
      parent_inode = get_or v 9 0;
      i_count = get_or v 10 0;
      offset = get_or v 11 0;
      xattr = get_or v 12 0;
    }

abbrev pub ldir_inode_values : LdirInode → List ℕ
ldir_inode_values r =
    r.inode_type ∷ r.mode ∷ r.uid ∷ r.guid ∷ r.mtime ∷ r.inode_number ∷ r.nlink ∷ r.file_size
    ∷ r.start_block ∷ r.parent_inode ∷ r.i_count ∷ r.offset ∷ r.xattr ∷ []

pub swapin_ldir_inode_lem :
    (r : LdirInode) (rest : List ℕ)
    → Fit ldir_inode_widths (ldir_inode_values r)
    → swapin_ldir_inode (encode_fields ldir_inode_widths (ldir_inode_values r) ++ rest) ≡ r
unfolding swapin_ldir_inode
swapin_ldir_inode_lem r rest fits =
    rw (swapin_fields-encode_fields ldir_inode_widths (ldir_inode_values r) rest fits)
