-- ===== src/Stat.antt =====
-- stat.c: the attributes of a file. `sqfs_makedev` packs a device number as the system does, so the
-- model keeps its arguments.
use squashfuse.Common.{
  ℕ, ◌/◌, Option, none, some, ◌||◌, ltb, if◌then◌else◌, Outcome, done, fault, unwritten_memory,
  SqfsErr, to_unsigned64,
}
use squashfuse.Actions.{Action, ◌>>=◌, pure, crash, of_md}
use squashfuse.Fs.{Image, BlockCache}
use squashfuse.Identifiers.{id_get}
use squashfuse.Inode.{
  Inode, dev, unset, reg, dir, symlink_size, as_reg, as_symlink, has_type, s_ifreg, s_ifblk,
  s_ifchr, s_iflnk,
}

-- The fields of `struct stat` that are set; the others are 0. The three times are one. `nlink_t` is
-- unsigned and has 64 bits, as on Linux.
pub record Stat : Type 0 where
  pub mode : ℕ
  pub nlink : ℕ
  pub time : ℕ
  pub size : ℕ
  pub blocks : ℕ
  pub rdev : Option (ℕ × ℕ)
  pub blksize : ℕ
  pub uid : ℕ
  pub gid : ℕ

unfoldable pub as_dev : Inode → Action (ℕ × ℕ)
as_dev i = elim i.xtra [
  | dev major minor ↦ pure (major, minor)
  | unset ↦ crash unwritten_memory
  | symlink_size _ ↦ crash unwritten_memory
  | reg _ ↦ crash unwritten_memory
  | dir _ ↦ crash unwritten_memory
]

abbrev some_id : Outcome (SqfsErr × Option ℕ × BlockCache) → Outcome (SqfsErr × ℕ × BlockCache)
some_id (fault e) = fault e
some_id (done (e, none, bc)) = done (e, 0, bc)
some_id (done (e, some id, bc)) = done (e, id, bc)

-- `uid` and `gid` are the fields of `sqfs` that replace the owner and the group of every file.
module _ (img : Image) (uid gid : ℕ) where
  unfoldable pub owner : ℕ → ℕ → Action ℕ
  owner forced idx = if ltb 0 forced then pure forced else of_md (λ bc. some_id (id_get img idx bc))

  -- The size and the device number, by the type of the file.
  unfoldable pub typed_fields : Inode → Stat → Action Stat
  typed_fields i st =
      let mode = i.base.mode in
      if has_type s_ifreg mode
      then (do r ← as_reg i; pure (record st { size = r.file_size; blocks = r.file_size / 512 }))
      else if has_type s_ifblk mode || has_type s_ifchr mode
      then (do rdev ← as_dev i; pure (record st { rdev = some rdev }))
      else if has_type s_iflnk mode
      then (do n ← as_symlink i; pure (record st { size = n }))
      else pure st

  unfoldable pub stat : Inode → Action Stat
  stat i = do
    st ← typed_fields i (record {
      mode = i.base.mode;
      nlink = to_unsigned64 i.nlink;
      time = i.base.mtime;
      size = 0;
      blocks = 0;
      rdev = none;
      blksize = img.sb.block_size;
      uid = 0;
      gid = 0;
    })
    user ← owner uid i.base.uid
    group ← owner gid i.base.guid
    pure (record st { uid = user; gid = group })
