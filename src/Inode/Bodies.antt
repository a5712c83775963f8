-- ===== src/Inode/Bodies.antt =====
-- The structures of the types of inodes, and the inode with a structure's fields.
use squashfuse.Common.{ℕ, ℤ, ◌<◌, ◌^◌, ◌≡◌, refl, arith, List, [], ◌++◌, length}
use squashfuse.Format.{le_bytes}
use squashfuse.Format.Inodes.{
  IpcInode, ipc_inode_widths, ipc_inode_values, LipcInode, lipc_inode_widths, lipc_inode_values,
  DevInode, dev_inode_widths, dev_inode_values, LdevInode, ldev_inode_widths, ldev_inode_values,
}
use squashfuse.Format.TreeInodes.{
  SymlinkInode, symlink_inode_widths, symlink_inode_values, RegInode, reg_inode_widths,
  reg_inode_values, LregInode, lreg_inode_widths, lreg_inode_values, DirInode, dir_inode_widths,
  dir_inode_values, LdirInode, ldir_inode_widths, ldir_inode_values,
}
use squashfuse.Format.RoundTrip.{Fit}
use squashfuse.Fs.{Cursor}
use squashfuse.Inode.{
  Inode, Kind, is_dir, is_reg, is_symlink, is_blkdev, is_chrdev, is_fifo, is_socket, is_ldir,
  is_lreg, is_lsymlink, is_lblkdev, is_lchrdev, is_lfifo, is_lsocket, other, reg, dir, symlink_size,
  decode_dev, kind, mode_of_kind,
}

-- The structure of a kind of inode. Behind that of an extended symbolic link stand the target and
-- an index.
abbrev pub Body : Kind → Type 0
Body is_reg = RegInode
Body is_lreg = LregInode
Body is_dir = DirInode
Body is_ldir = LdirInode
Body is_symlink = SymlinkInode
Body is_lsymlink = SymlinkInode × List ℕ × ℕ
Body is_blkdev = DevInode
Body is_chrdev = DevInode
Body is_lblkdev = LdevInode
Body is_lchrdev = LdevInode
Body is_socket = IpcInode
Body is_fifo = IpcInode
Body is_lsocket = LipcInode
Body is_lfifo = LipcInode
Body other = ⊥

abbrev pub widths : Kind → List ℕ
widths is_reg = reg_inode_widths
widths is_lreg = lreg_inode_widths
widths is_dir = dir_inode_widths
widths is_ldir = ldir_inode_widths
widths is_symlink = symlink_inode_widths
widths is_lsymlink = symlink_inode_widths
widths is_blkdev = dev_inode_widths
widths is_chrdev = dev_inode_widths
widths is_lblkdev = ldev_inode_widths
widths is_lchrdev = ldev_inode_widths
widths is_socket = ipc_inode_widths
widths is_fifo = ipc_inode_widths
widths is_lsocket = lipc_inode_widths
widths is_lfifo = lipc_inode_widths
widths other = []

abbrev pub values : (k : Kind) → Body k → List ℕ
values is_reg x = reg_inode_values x
values is_lreg x = lreg_inode_values x
values is_dir x = dir_inode_values x
values is_ldir x = ldir_inode_values x
values is_symlink x = symlink_inode_values x
values is_lsymlink x = symlink_inode_values x.0
values is_blkdev x = dev_inode_values x
values is_chrdev x = dev_inode_values x
values is_lblkdev x = ldev_inode_values x
values is_lchrdev x = ldev_inode_values x
values is_socket x = ipc_inode_values x
values is_fifo x = ipc_inode_values x
values is_lsocket x = lipc_inode_values x
values is_lfifo x = lipc_inode_values x
values other x = []

abbrev pub trailer : (k : Kind) → Body k → List ℕ
trailer is_lsymlink x = x.1 ++ le_bytes 4 x.2
trailer _ _ = []

-- The target fills the size, and the index fits 32 bits.
abbrev pub IsComplete : (k : Kind) → Body k → Type 0
IsComplete is_lsymlink x = (length x.1 ≡ x.0.symlink_size) × (x.2 < 2 ^ 32)
IsComplete _ _ = Unit {0}

-- The code that stands for a kind on disk.
abbrev pub type_code : Kind → ℕ
type_code is_dir = 1
type_code is_reg = 2
type_code is_symlink = 3
type_code is_blkdev = 4
type_code is_chrdev = 5
type_code is_fifo = 6
type_code is_socket = 7
type_code is_ldir = 8
type_code is_lreg = 9
type_code is_lsymlink = 10
type_code is_lblkdev = 11
type_code is_lchrdev = 12
type_code is_lfifo = 13
type_code is_lsocket = 14
type_code other = 15

-- The bits of <sys/stat.h> for the type of the file, in the mode.
abbrev pub file_type : Kind → ℕ
file_type is_fifo = 0x1000
file_type is_lfifo = 0x1000
file_type is_chrdev = 0x2000
file_type is_lchrdev = 0x2000
file_type is_dir = 0x4000
file_type is_ldir = 0x4000
file_type is_blkdev = 0x6000
file_type is_lblkdev = 0x6000
file_type is_reg = 0x8000
file_type is_lreg = 0x8000
file_type is_symlink = 0xa000
file_type is_lsymlink = 0xa000
file_type is_socket = 0xc000
file_type is_lsocket = 0xc000
file_type other = 0

pub kind-type_code : (k : Kind) → kind (type_code k) ≡ k
unfolding kind
kind-type_code is_dir = refl
kind-type_code is_reg = refl
kind-type_code is_symlink = refl
kind-type_code is_blkdev = refl
kind-type_code is_chrdev = refl
kind-type_code is_fifo = refl
kind-type_code is_socket = refl
kind-type_code is_ldir = refl
kind-type_code is_lreg = refl
kind-type_code is_lsymlink = refl
kind-type_code is_lblkdev = refl
kind-type_code is_lchrdev = refl
kind-type_code is_lfifo = refl
kind-type_code is_lsocket = refl
kind-type_code other = refl

pub mode_of_kind-file_type : (k : Kind) → mode_of_kind k ≡ file_type k
unfolding mode_of_kind
mode_of_kind-file_type is_dir = refl
mode_of_kind-file_type is_reg = refl
mode_of_kind-file_type is_symlink = refl
mode_of_kind-file_type is_blkdev = refl
mode_of_kind-file_type is_chrdev = refl
mode_of_kind-file_type is_fifo = refl
mode_of_kind-file_type is_socket = refl
mode_of_kind-file_type is_ldir = refl
mode_of_kind-file_type is_lreg = refl
mode_of_kind-file_type is_lsymlink = refl
mode_of_kind-file_type is_lblkdev = refl
mode_of_kind-file_type is_lchrdev = refl
mode_of_kind-file_type is_lfifo = refl
mode_of_kind-file_type is_lsocket = refl
mode_of_kind-file_type other = refl

-- The count of links as it is stored; a basic regular file has one.
abbrev pub links : (k : Kind) → Body k → ℕ
links is_reg x = 1
links is_lreg x = x.nlink
links is_dir x = x.nlink
links is_ldir x = x.nlink
links is_symlink x = x.nlink
links is_lsymlink x = x.0.nlink
links is_blkdev x = x.nlink
links is_chrdev x = x.nlink
links is_lblkdev x = x.nlink
links is_lchrdev x = x.nlink
links is_socket x = x.nlink
links is_fifo x = x.nlink
links is_lsocket x = x.nlink
links is_lfifo x = x.nlink
links other x = 0

pub links_small : (k : Kind) (x : Body k) → Fit (widths k) (values k x) → links k x < 2 ^ 32
links_small is_reg x fit = omega arith
links_small is_lreg x fit = fit.1.1.1.1.1.1.1.1.1.0
links_small is_dir x fit = fit.1.1.1.1.1.1.1.0
links_small is_ldir x fit = fit.1.1.1.1.1.1.0
links_small is_symlink x fit = fit.1.1.1.1.1.1.0
links_small is_lsymlink x fit = fit.1.1.1.1.1.1.0
links_small is_blkdev x fit = fit.1.1.1.1.1.1.0
links_small is_chrdev x fit = fit.1.1.1.1.1.1.0
links_small is_lblkdev x fit = fit.1.1.1.1.1.1.0
links_small is_lchrdev x fit = fit.1.1.1.1.1.1.0
links_small is_socket x fit = fit.1.1.1.1.1.1.0
links_small is_fifo x fit = fit.1.1.1.1.1.1.0
links_small is_lsocket x fit = fit.1.1.1.1.1.1.0
links_small is_lfifo x fit = fit.1.1.1.1.1.1.0
links_small other x fit = omega arith

-- The inode with the structure's fields and the count of links `z`.
abbrev pub decoded : (k : Kind) → Body k → ℤ → Inode → Cursor → Inode
decoded is_reg x z i cur = record i {
  next = cur;
  nlink = z;
  xtra = reg (record {
    start_block = x.start_block;
    file_size = x.file_size;
    frag_idx = x.fragment;
    frag_off = x.offset;
  });
}
decoded is_lreg x z i cur = record i {
  next = cur;
  nlink = z;
  xtra = reg (record {
    start_block = x.start_block;
    file_size = x.file_size;
    frag_idx = x.fragment;
    frag_off = x.offset;
  });
  xattr = x.xattr;
}
decoded is_dir x z i cur = record i {
  next = cur;
  nlink = z;
  xtra = dir (record {
    start_block = x.start_block;
    offset = x.offset;
    dir_size = x.file_size;
    idx_count = 0;
    parent_inode = x.parent_inode;
  });
}
decoded is_ldir x z i cur = record i {
  next = cur;
  nlink = z;
  xtra = dir (record {
    start_block = x.start_block;
    offset = x.offset;
    dir_size = x.file_size;
    idx_count = x.i_count;
    parent_inode = x.parent_inode;
  });
  xattr = x.xattr;
}
decoded is_symlink x z i cur = record i {
  next = cur;
  nlink = z;
  xtra = symlink_size x.symlink_size;
}
decoded is_lsymlink x z i cur = record i {
  next = cur;
  nlink = z;
  xtra = symlink_size x.0.symlink_size;
  xattr = x.2;
}
decoded is_blkdev x z i cur = record i { next = cur; nlink = z; xtra = decode_dev x.rdev }
decoded is_chrdev x z i cur = record i { next = cur; nlink = z; xtra = decode_dev x.rdev }
decoded is_lblkdev x z i cur = record i {
  next = cur;
  nlink = z;
  xtra = decode_dev x.rdev;
  xattr = x.xattr;
}
decoded is_lchrdev x z i cur = record i {
  next = cur;
  nlink = z;
  xtra = decode_dev x.rdev;
  xattr = x.xattr;
}
decoded is_socket x z i cur = record i { next = cur; nlink = z }
decoded is_fifo x z i cur = record i { next = cur; nlink = z }
decoded is_lsocket x z i cur = record i { next = cur; nlink = z; xattr = x.xattr }
decoded is_lfifo x z i cur = record i { next = cur; nlink = z; xattr = x.xattr }
decoded other x z i cur = i
