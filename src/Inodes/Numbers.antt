-- ===== src/Inodes/Numbers.antt =====
-- The numbers of FUSE stand for one inode each.
use squashfuse.Common.{ℕ, ◌+◌, ◌^◌, ◌<◌, ◌≡◌, ◌≢◌, arith}
use squashfuse.Inodes.{
  ino64_fuse, ino64_sqfs, ino32_num2fuse, ino32_fuse2num, inode_entry, ie_inode, fuse_inode_none,
  fuse_root_id,
}

-- For an inode identifier that is not 1 or 2, the 64-bit FUSE number of the identifier leads back
-- to it.
pub ino64_sqfs-ino64_fuse : (root i : ℕ) → i ≢ 1 → i ≢ 2 → ino64_sqfs root (ino64_fuse root i) ≡ i
unfolding ino64_sqfs ino64_fuse
ino64_sqfs-ino64_fuse root i one two = ground arith

-- For a root and an inode number of 32 bits, the FUSE number of the inode number leads back to
-- it.
pub fuse2num-num2fuse :
    (root n : ℕ) → root < 2 ^ 32 → n < 2 ^ 32 → ino32_fuse2num root (ino32_num2fuse root n) ≡ n
unfolding ino32_fuse2num ino32_num2fuse
fuse2num-num2fuse root n small little = ground arith

-- For a root and an inode number below the largest of 32 bits, the FUSE number is not the
-- reserved one, 0.
pub num2fuse_valid :
    (root n : ℕ) → root + 1 < 2 ^ 32 → n + 1 < 2 ^ 32 → ino32_num2fuse root n ≢ fuse_inode_none
unfolding ino32_num2fuse
num2fuse_valid root n small little = ground arith

pub num2fuse_apart :
    (root n : ℕ) → root < 2 ^ 32 → n < 2 ^ 32 → n ≢ root → ino32_num2fuse root n ≢ fuse_root_id
unfolding ino32_num2fuse
num2fuse_apart root n small little other = ground arith

pub ie_inode-inode_entry : (i refs : ℕ) → i < 2 ^ 48 → ie_inode (inode_entry i refs) ≡ i
unfolding ie_inode inode_entry
ie_inode-inode_entry i refs small = omega arith
