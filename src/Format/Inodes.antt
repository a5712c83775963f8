-- ===== src/Format/Inodes.antt =====
-- squashfs_fs.h: the on-disk structures of the inodes, with the functions that gen_swap.sh makes
-- for them. A structure's `_widths` are the sizes of its fields, which the compiler leaves no gaps between.
use squashfuse.Common.{ℕ, ◌≡◌, List, [], ◌∷◌, ◌++◌, get_or}
use squashfuse.Format.{swapin_fields, encode_fields}
use squashfuse.Format.RoundTrip.{Fit, swapin_fields-encode_fields}

pub record BaseInode : Type 0 where
  pub inode_type : ℕ
  pub mode : ℕ
  pub uid : ℕ
  pub guid : ℕ
  pub mtime : ℕ
  pub inode_number : ℕ

abbrev pub base_inode_widths : List ℕ
base_inode_widths = 2 ∷ 2 ∷ 2 ∷ 2 ∷ 4 ∷ 4 ∷ []

unfoldable pub swapin_base_inode : List ℕ → BaseInode
swapin_base_inode bytes =
    let v = swapin_fields base_inode_widths bytes in
    record {
      inode_type = get_or v 0 0;
      mode = get_or v 1 0;
      uid = get_or v 2 0;
      guid = get_or v 3 0;
      mtime = get_or v 4 0;
      inode_number = get_or v 5 0;
    }

abbrev pub base_inode_values : BaseInode → List ℕ
base_inode_values r = r.inode_type ∷ r.mode ∷ r.uid ∷ r.guid ∷ r.mtime ∷ r.inode_number ∷ []

pub swapin_base_inode_lem :
    (r : BaseInode) (rest : List ℕ)
    → Fit base_inode_widths (base_inode_values r)
    → swapin_base_inode (encode_fields base_inode_widths (base_inode_values r) ++ rest) ≡ r
unfolding swapin_base_inode
swapin_base_inode_lem r rest fits =
    rw (swapin_fields-encode_fields base_inode_widths (base_inode_values r) rest fits)

pub record IpcInode : Type 0 where
  pub inode_type : ℕ
  pub mode : ℕ
  pub uid : ℕ
  pub guid : ℕ
  pub mtime : ℕ
  pub inode_number : ℕ
  pub nlink : ℕ

abbrev pub ipc_inode_widths : List ℕ
ipc_inode_widths = 2 ∷ 2 ∷ 2 ∷ 2 ∷ 4 ∷ 4 ∷ 4 ∷ []

unfoldable pub swapin_ipc_inode : List ℕ → IpcInode
swapin_ipc_inode bytes =
    let v = swapin_fields ipc_inode_widths bytes in
    record {
      inode_type = get_or v 0 0;
      mode = get_or v 1 0;
      uid = get_or v 2 0;
      guid = get_or v 3 0;
      mtime = get_or v 4 0;
      inode_number = get_or v 5 0;
      nlink = get_or v 6 0;
    }

abbrev pub ipc_inode_values : IpcInode → List ℕ
ipc_inode_values r =
    r.inode_type ∷ r.mode ∷ r.uid ∷ r.guid ∷ r.mtime ∷ r.inode_number ∷ r.nlink ∷ []

pub swapin_ipc_inode_lem :
    (r : IpcInode) (rest : List ℕ)
    → Fit ipc_inode_widths (ipc_inode_values r)
    → swapin_ipc_inode (encode_fields ipc_inode_widths (ipc_inode_values r) ++ rest) ≡ r
unfolding swapin_ipc_inode
swapin_ipc_inode_lem r rest fits =
    rw (swapin_fields-encode_fields ipc_inode_widths (ipc_inode_values r) rest fits)

pub record LipcInode : Type 0 where
  pub inode_type : ℕ
  pub mode : ℕ
  pub uid : ℕ
  pub guid : ℕ
  pub mtime : ℕ
  pub inode_number : ℕ
  pub nlink : ℕ
  pub xattr : ℕ

abbrev pub lipc_inode_widths : List ℕ
lipc_inode_widths = 2 ∷ 2 ∷ 2 ∷ 2 ∷ 4 ∷ 4 ∷ 4 ∷ 4 ∷ []

unfoldable pub swapin_lipc_inode : List ℕ → LipcInode
swapin_lipc_inode bytes =
    let v = swapin_fields lipc_inode_widths bytes in
    record {
      inode_type = get_or v 0 0;
      mode = get_or v 1 0;
      uid = get_or v 2 0;
      guid = get_or v 3 0;
      mtime = get_or v 4 0;
      inode_number = get_or v 5 0;
      nlink = get_or v 6 0;
      xattr = get_or v 7 0;
    }

abbrev pub lipc_inode_values : LipcInode → List ℕ
lipc_inode_values r =
    r.inode_type ∷ r.mode ∷ r.uid ∷ r.guid ∷ r.mtime ∷ r.inode_number ∷ r.nlink ∷ r.xattr ∷ []

pub swapin_lipc_inode_lem :
    (r : LipcInode) (rest : List ℕ)
    → Fit lipc_inode_widths (lipc_inode_values r)
    → swapin_lipc_inode (encode_fields lipc_inode_widths (lipc_inode_values r) ++ rest) ≡ r
unfolding swapin_lipc_inode
swapin_lipc_inode_lem r rest fits =
    rw (swapin_fields-encode_fields lipc_inode_widths (lipc_inode_values r) rest fits)

pub record DevInode : Type 0 where
  pub inode_type : ℕ
  pub mode : ℕ
  pub uid : ℕ
  pub guid : ℕ
  pub mtime : ℕ
  pub inode_number : ℕ
  pub nlink : ℕ
  pub rdev : ℕ

abbrev pub dev_inode_widths : List ℕ
dev_inode_widths = 2 ∷ 2 ∷ 2 ∷ 2 ∷ 4 ∷ 4 ∷ 4 ∷ 4 ∷ []

unfoldable pub swapin_dev_inode : List ℕ → DevInode
swapin_dev_inode bytes =
    let v = swapin_fields dev_inode_widths bytes in
    record {
      inode_type = get_or v 0 0;
      mode = get_or v 1 0;
      uid = get_or v 2 0;
      guid = get_or v 3 0;
      mtime = get_or v 4 0;
      inode_number = get_or v 5 0;
      nlink = get_or v 6 0;
      rdev = get_or v 7 0;
    }

abbrev pub dev_inode_values : DevInode → List ℕ
dev_inode_values r =
    r.inode_type ∷ r.mode ∷ r.uid ∷ r.guid ∷ r.mtime ∷ r.inode_number ∷ r.nlink ∷ r.rdev ∷ []

pub swapin_dev_inode_lem :
    (r : DevInode) (rest : List ℕ)
    → Fit dev_inode_widths (dev_inode_values r)
    → swapin_dev_inode (encode_fields dev_inode_widths (dev_inode_values r) ++ rest) ≡ r
unfolding swapin_dev_inode
swapin_dev_inode_lem r rest fits =
    rw (swapin_fields-encode_fields dev_inode_widths (dev_inode_values r) rest fits)

pub record LdevInode : Type 0 where
  pub inode_type : ℕ
  pub mode : ℕ
  pub uid : ℕ
  pub guid : ℕ
  pub mtime : ℕ
  pub inode_number : ℕ
  pub nlink : ℕ
  pub rdev : ℕ
  pub xattr : ℕ

abbrev pub ldev_inode_widths : List ℕ
ldev_inode_widths = 2 ∷ 2 ∷ 2 ∷ 2 ∷ 4 ∷ 4 ∷ 4 ∷ 4 ∷ 4 ∷ []

unfoldable pub swapin_ldev_inode : List ℕ → LdevInode
swapin_ldev_inode bytes =
    let v = swapin_fields ldev_inode_widths bytes in
    record {
      inode_type = get_or v 0 0;
      mode = get_or v 1 0;
      uid = get_or v 2 0;
      guid = get_or v 3 0;
      mtime = get_or v 4 0;
      inode_number = get_or v 5 0;
      nlink = get_or v 6 0;
      rdev = get_or v 7 0;
      xattr = get_or v 8 0;
    }

abbrev pub ldev_inode_values : LdevInode → List ℕ
ldev_inode_values r =
    r.inode_type ∷ r.mode ∷ r.uid ∷ r.guid ∷ r.mtime ∷ r.inode_number ∷ r.nlink ∷ r.rdev ∷ r.xattr
    ∷ []

pub swapin_ldev_inode_lem :
    (r : LdevInode) (rest : List ℕ)
    → Fit ldev_inode_widths (ldev_inode_values r)
    → swapin_ldev_inode (encode_fields ldev_inode_widths (ldev_inode_values r) ++ rest) ≡ r
unfolding swapin_ldev_inode
swapin_ldev_inode_lem r rest fits =
    rw (swapin_fields-encode_fields ldev_inode_widths (ldev_inode_values r) rest fits)
