-- ===== src/Inodes.antt =====
-- ll_inode.c: the numbers by which FUSE knows inodes, and the map from inode numbers to inode
-- identifiers where a FUSE number is too small for an identifier.
-- The inode number and the identifier of a directory entry, which dir.c reads from it, are
-- arguments, as is the identifier of the root, which fs.c reads from the superblock.
pub mod Numbers
pub mod References
use squashfuse.Common.{
  ℕ, ◌+◌, ◌-◌, ◌*◌, ◌/◌, ◌%◌, ◌^◌, Bool, true, false, Option, none, some, failed, Outcome, done,
  ◌>>=◌, ltb, ◌==◌, if◌then◌else◌,
}
use squashfuse.Hash
use squashfuse.Hash.{Hash}

-- `FUSE_ROOT_ID`, `FUSE_INODE_NONE` and `SQFS_INODE_NONE`.
abbrev pub fuse_root_id : ℕ
fuse_root_id = 1

abbrev pub fuse_inode_none : ℕ
fuse_inode_none = 0

abbrev pub sqfs_inode_none : ℕ
sqfs_inode_none = 1

-- `root` is the identifier of the root.
unfoldable pub ino64_fuse : ℕ → ℕ → ℕ
ino64_fuse root i = if i == root then fuse_root_id else (if i == 0 then 2 else i)

unfoldable pub ino64_sqfs : ℕ → ℕ → ℕ
ino64_sqfs root i = if i == fuse_root_id then root else (if i == 2 then 0 else i)

-- `root` is the inode number of the root; the sums are of 32 bits.
unfoldable pub ino32_num2fuse : ℕ → ℕ → ℕ
ino32_num2fuse root n =
    if n == root then fuse_root_id else (if n == 0 then (root + 1) % 2 ^ 32 else (n + 1) % 2 ^ 32)

-- The result is truncated to 32 bits.
unfoldable pub ino32_fuse2num : ℕ → ℕ → ℕ
ino32_fuse2num root i =
    if i == fuse_root_id
    then root
    else (if i == (root + 1) % 2 ^ 32 then 0 else (i + 2 ^ 32 - 1) % 2 ^ 32)

pub record InodeEntry : Type 0 where
  pub refcount : ℕ
  pub ino_hi : ℕ
  pub ino_lo : ℕ

pub record InodeMap : Type 0 where
  pub root : ℕ
  pub icache : Hash InodeEntry

-- `INODE_HI` and `INODE_LO`, stored in 32 and 16 bits.
unfoldable pub inode_entry : ℕ → ℕ → InodeEntry
inode_entry i refs = record { refcount = refs; ino_hi = i / 2 ^ 16 % 2 ^ 32; ino_lo = i % 2 ^ 16 }

-- `IE_INODE`: the two halves share no bit.
unfoldable pub ie_inode : InodeEntry → ℕ
ie_inode ie = ie.ino_hi * 2 ^ 16 + ie.ino_lo

-- `root_inode` is the identifier of the root.
unfoldable pub ino32_sqfs : ℕ → InodeMap → ℕ → Outcome ℕ
ino32_sqfs root_inode map i = if i == fuse_root_id then done root_inode else (do
  found ← Hash.get map.icache (ino32_fuse2num map.root i)
  done (elim found [ none ↦ sqfs_inode_none | some ie ↦ ie_inode ie ]))

-- `sqfs_ll_ino32_register` for an entry of that inode number and identifier.
unfoldable pub ino32_register : (ℕ → Bool) → InodeMap → ℕ → ℕ → Outcome (ℕ × InodeMap)
ino32_register grants map num id = do
  found ← Hash.get map.icache num
  elim found [
    | some ie ↦ do
      icache ← Hash.assign map.icache num (record ie { refcount = (ie.refcount + 1) % 2 ^ 32 })
      done (ino32_num2fuse map.root num, record map { icache = icache })
    | none ↦ do
      (e, icache) ← Hash.add grants map.icache num (inode_entry id 1)
      done (
        if failed e then fuse_inode_none else ino32_num2fuse map.root num,
        record map { icache = icache },
      )
  ]

unfoldable pub ino32_forget : InodeMap → ℕ → ℕ → Outcome InodeMap
ino32_forget map i refs =
    let n = ino32_fuse2num map.root i in
    do
      found ← Hash.get map.icache n
      elim found [
        | none ↦ done map
        | some ie ↦
            if ltb refs ie.refcount
            then (do
              icache ← Hash.assign map.icache n (record ie { refcount = ie.refcount - refs })
              done (record map { icache = icache }))
            else (do (_, icache) ← Hash.remove map.icache n; done (record map { icache = icache }))
      ]
