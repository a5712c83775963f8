-- ===== src/Inode.antt =====
-- fs.c, fs.h and nonstd-stat.c: inodes, read from the metadata by their type.
-- The file types of a mode are those of <sys/stat.h> on Linux.
pub mod Bodies
pub mod Decoding
pub mod Link
use Prim.Native.Nat.{bit_and, bit_or}
use squashfuse.Common.{
  ℕ, ◌+◌, ◌-◌, ◌*◌, ◌/◌, ◌%◌, ◌^◌, Bool, true, false, Option, none, some, List, SqfsErr, err,
  Outcome, done, ℤ, pos, to_int, unwritten_memory, out_of_bounds, ◌==◌, ltb, if◌then◌else◌,
}
use squashfuse.Actions.{Action, ◌>>=◌, pure, fail, crash, md_bytes, md_skip}
use squashfuse.Format.{swapin, sizeof}
use squashfuse.Format.Inodes.{
  BaseInode, base_inode_widths, swapin_base_inode, ipc_inode_widths, swapin_ipc_inode,
  lipc_inode_widths, swapin_lipc_inode, dev_inode_widths, swapin_dev_inode, ldev_inode_widths,
  swapin_ldev_inode,
}
use squashfuse.Format.TreeInodes.{
  symlink_inode_widths, swapin_symlink_inode, reg_inode_widths, swapin_reg_inode, lreg_inode_widths,
  swapin_lreg_inode, dir_inode_widths, swapin_dir_inode, ldir_inode_widths, swapin_ldir_inode,
}
use squashfuse.Fs.{Image, Cursor}
use squashfuse.Metadata.{cursor_inode}

pub record RegData : Type 0 where
  pub start_block : ℕ
  pub file_size : ℕ
  pub frag_idx : ℕ
  pub frag_off : ℕ

pub record DirData : Type 0 where
  pub start_block : ℕ
  pub offset : ℕ
  pub dir_size : ℕ
  pub idx_count : ℕ
  pub parent_inode : ℕ

-- The union `xtra`. A read of a member that was not written is a fault: the model does not say
-- what such a read yields.
pub data Xtra : Type 0 where
  unset : Xtra
  dev : ℕ → ℕ → Xtra
  symlink_size : ℕ → Xtra
  reg : RegData → Xtra
  dir : DirData → Xtra

pub record Inode : Type 0 where
  pub base : BaseInode
  pub nlink : ℤ
  pub xattr : ℕ
  pub next : Cursor
  pub xtra : Xtra

-- The labels of the switches on an inode's type.
pub data Kind : Type 0 where
  is_dir is_reg is_symlink is_blkdev is_chrdev is_fifo is_socket : Kind
  is_ldir is_lreg is_lsymlink is_lblkdev is_lchrdev is_lfifo is_lsocket other : Kind

unfoldable pub kind : ℕ → Kind
kind t =
    if t == 1
    then is_dir
    else if t == 2
    then is_reg
    else if t == 3
    then is_symlink
    else if t == 4
    then is_blkdev
    else if t == 5
    then is_chrdev
    else if t == 6
    then is_fifo
    else if t == 7
    then is_socket
    else if t == 8
    then is_ldir
    else if t == 9
    then is_lreg
    else if t == 10
    then is_lsymlink
    else if t == 11
    then is_lblkdev
    else if t == 12
    then is_lchrdev
    else if t == 13
    then is_lfifo
    else if t == 14
    then is_lsocket
    else other

-- `SQUASHFS_INVALID_XATTR`.
abbrev pub invalid_xattr : ℕ
invalid_xattr = 0xffffffff

abbrev pub s_ifmt : ℕ
s_ifmt = 0xf000

abbrev pub s_ifdir : ℕ
s_ifdir = 0x4000

abbrev pub s_ifreg : ℕ
s_ifreg = 0x8000

abbrev pub s_iflnk : ℕ
s_iflnk = 0xa000

abbrev pub s_ifblk : ℕ
s_ifblk = 0x6000

abbrev pub s_ifchr : ℕ
s_ifchr = 0x2000

-- `sqfs_mode`.
unfoldable pub mode_of_kind : Kind → ℕ
mode_of_kind is_dir = s_ifdir
mode_of_kind is_ldir = s_ifdir
mode_of_kind is_reg = s_ifreg
mode_of_kind is_lreg = s_ifreg
mode_of_kind is_symlink = s_iflnk
mode_of_kind is_lsymlink = s_iflnk
mode_of_kind is_blkdev = s_ifblk
mode_of_kind is_lblkdev = s_ifblk
mode_of_kind is_chrdev = s_ifchr
mode_of_kind is_lchrdev = s_ifchr
mode_of_kind is_fifo = 0x1000
mode_of_kind is_lfifo = 0x1000
mode_of_kind is_socket = 0xc000
mode_of_kind is_lsocket = 0xc000
mode_of_kind other = 0

-- `S_ISDIR`, `S_ISREG` and `S_ISLNK` compare with their type.
unfoldable pub has_type : ℕ → ℕ → Bool
has_type type mode = bit_and mode s_ifmt == type

unfoldable pub as_reg : Inode → Action RegData
as_reg i = elim i.xtra [
  | reg r ↦ pure r
  | unset ↦ crash unwritten_memory
  | dev _ _ ↦ crash unwritten_memory
  | symlink_size _ ↦ crash unwritten_memory
  | dir _ ↦ crash unwritten_memory
]

unfoldable pub as_dir : Inode → Action DirData
as_dir i = elim i.xtra [
  | dir d ↦ pure d
  | unset ↦ crash unwritten_memory
  | dev _ _ ↦ crash unwritten_memory
  | symlink_size _ ↦ crash unwritten_memory
  | reg _ ↦ crash unwritten_memory
]

unfoldable pub as_symlink : Inode → Action ℕ
as_symlink i = elim i.xtra [
  | symlink_size n ↦ pure n
  | unset ↦ crash unwritten_memory
  | dev _ _ ↦ crash unwritten_memory
  | reg _ ↦ crash unwritten_memory
  | dir _ ↦ crash unwritten_memory
]

-- `sqfs_decode_dev`; the parts of the minor number share no bit.
unfoldable pub decode_dev : ℕ → Xtra
decode_dev rdev = dev (rdev / 2 ^ 8 % 2 ^ 12) (rdev % 2 ^ 8 + rdev / 2 ^ 20 % 2 ^ 12 * 2 ^ 8)

module _ (img : Image) where
  -- A device inode, of either width.
  unfoldable pub read_dev : Inode → Action Inode
  read_dev i = do
    (bytes, cur) ← md_bytes img i.next (sizeof dev_inode_widths)
    let x = swapin_dev_inode bytes
    pure (record i { next = cur; nlink = to_int x.nlink; xtra = decode_dev x.rdev })

  unfoldable pub read_ldev : Inode → Action Inode
  read_ldev i = do
    (bytes, cur) ← md_bytes img i.next (sizeof ldev_inode_widths)
    let x = swapin_ldev_inode bytes
    pure
        (record i { next = cur; nlink = to_int x.nlink; xtra = decode_dev x.rdev; xattr = x.xattr })

  unfoldable pub read_ipc : Inode → Action Inode
  read_ipc i = do
    (bytes, cur) ← md_bytes img i.next (sizeof ipc_inode_widths)
    let x = swapin_ipc_inode bytes
    pure (record i { next = cur; nlink = to_int x.nlink })

  unfoldable pub read_lipc : Inode → Action Inode
  read_lipc i = do
    (bytes, cur) ← md_bytes img i.next (sizeof lipc_inode_widths)
    let x = swapin_lipc_inode bytes
    pure (record i { next = cur; nlink = to_int x.nlink; xattr = x.xattr })

  unfoldable pub read_symlink : Inode → Action Inode
  read_symlink i = do
    (bytes, cur) ← md_bytes img i.next (sizeof symlink_inode_widths)
    let x = swapin_symlink_inode bytes
    pure (record i { next = cur; nlink = to_int x.nlink; xtra = symlink_size x.symlink_size })

  unfoldable pub read_reg : Inode → Action Inode
  read_reg i = do
    (bytes, cur) ← md_bytes img i.next (sizeof reg_inode_widths)
    let x = swapin_reg_inode bytes
    pure (record i {
      next = cur;
      nlink = pos 1;
      xtra = reg (record {
        start_block = x.start_block;
        file_size = x.file_size;
        frag_idx = x.fragment;
        frag_off = x.offset;
      });
    })

  unfoldable pub read_lreg : Inode → Action Inode
  read_lreg i = do
    (bytes, cur) ← md_bytes img i.next (sizeof lreg_inode_widths)
    let x = swapin_lreg_inode bytes
    pure (record i {
      next = cur;
      nlink = to_int x.nlink;
      xattr = x.xattr;
      xtra = reg (record {
        start_block = x.start_block;
        file_size = x.file_size;
        frag_idx = x.fragment;
        frag_off = x.offset;
      });
    })

  unfoldable pub read_dir : Inode → Action Inode
  read_dir i = do
    (bytes, cur) ← md_bytes img i.next (sizeof dir_inode_widths)
    let x = swapin_dir_inode bytes
    pure (record i {
      next = cur;
      nlink = to_int x.nlink;
      xtra = dir (record {
        start_block = x.start_block;
        offset = x.offset;
        dir_size = x.file_size;
        idx_count = 0;
        parent_inode = x.parent_inode;
      });
    })

  unfoldable pub read_ldir : Inode → Action Inode
  read_ldir i = do
    (bytes, cur) ← md_bytes img i.next (sizeof ldir_inode_widths)
    let x = swapin_ldir_inode bytes
    pure (record i {
      next = cur;
      nlink = to_int x.nlink;
      xattr = x.xattr;
      xtra = dir (record {
        start_block = x.start_block;
        offset = x.offset;
        dir_size = x.file_size;
        idx_count = x.i_count;
        parent_inode = x.parent_inode;
      });
    })

  -- The index of the extended attributes stands behind the target.
  unfoldable pub read_lsymlink : Inode → Action Inode
  read_lsymlink i = do
    i' ← read_symlink i
    size ← as_symlink i'
    cur ← md_skip img i'.next size
    (bytes, _) ← md_bytes img cur 4
    pure (record i' { xattr = swapin 4 bytes })

  -- The switch of `sqfs_inode_get`.
  unfoldable pub read_kind : Kind → Inode → Action Inode
  read_kind is_reg i = read_reg i
  read_kind is_lreg i = read_lreg i
  read_kind is_dir i = read_dir i
  read_kind is_ldir i = read_ldir i
  read_kind is_symlink i = read_symlink i
  read_kind is_lsymlink i = read_lsymlink i
  read_kind is_blkdev i = read_dev i
  read_kind is_chrdev i = read_dev i
  read_kind is_lblkdev i = read_ldev i
  read_kind is_lchrdev i = read_ldev i
  read_kind is_socket i = read_ipc i
  read_kind is_fifo i = read_ipc i
  read_kind is_lsocket i = read_lipc i
  read_kind is_lfifo i = read_lipc i
  read_kind other i = fail err

  unfoldable pub inode_get : ℕ → Action Inode
  inode_get id = do
    let start = cursor_inode id img.sb.inode_table_start
    (bytes, _) ← md_bytes img start (sizeof base_inode_widths)
    let base = swapin_base_inode bytes
    let k = kind base.inode_type
    read_kind k (record {
      base = record base { mode = bit_or base.mode (mode_of_kind k) };
      nlink = pos 0;
      xattr = invalid_xattr;
      next = start;
      xtra = unset;
    })

  -- `sqfs_readlink` without a buffer: the size of the buffer that holds the target.
  unfoldable pub readlink_size : Inode → Action ℕ
  readlink_size i =
      if has_type s_iflnk i.base.mode
      then (do n ← as_symlink i; pure ((n + 1) % 2 ^ 64))
      else fail err

  -- `sqfs_readlink` into a buffer of `size` bytes: what it holds up to the terminating 0. The
  -- subtraction wraps around, and a write behind the buffer is a fault.
  unfoldable pub readlink : Inode → ℕ → Action (List ℕ)
  readlink i size =
      let room = (size + 2 ^ 64 - 1) % 2 ^ 64 in
      if has_type s_iflnk i.base.mode
      then (do
        n ← as_symlink i
        let want = if ltb room n then room else n
        (bytes, _) ← md_bytes img i.next want
        (if ltb want size then pure bytes else crash out_of_bounds))
      else fail err
