-- ===== src/Tests/Inodes.antt =====
-- Inode numbers and the counted references to them.
use squashfuse.Common.{
  ℕ, ◌+◌, ◌≡◌, ◌≢◌, refl, Bool, true, [], ◌∷◌, done, ◌==◌, if◌then◌else◌, arith,
}
use mathlib.Core.List.{flatten}
use squashfuse.Hash.{slot, chain_get}
use squashfuse.Inodes.{
  InodeMap, inode_entry, ie_inode, ino64_fuse, ino64_sqfs, ino32_num2fuse, ino32_fuse2num,
  ino32_sqfs, ino32_register, ino32_forget, fuse_inode_none,
}
use squashfuse.Inodes.Numbers.{
  ino64_sqfs-ino64_fuse, fuse2num-num2fuse, num2fuse_valid, ie_inode-inode_entry,
}
use squashfuse.Inodes.References.{
  recount, Tracks, register-Tracks, forget-Tracks, ino32_sqfs-Tracks,
}

ino64_sqfs-ino64_fuse_test : ino64_sqfs 0x12340020 (ino64_fuse 0x12340020 0) ≡ 0
ino64_sqfs-ino64_fuse_test = ino64_sqfs-ino64_fuse 0x12340020 0 (omega arith) (omega arith)

fuse2num-num2fuse_test : ino32_fuse2num 7 (ino32_num2fuse 7 0) ≡ 0
fuse2num-num2fuse_test = fuse2num-num2fuse 7 0 (omega arith) (omega arith)

num2fuse_valid_test : ino32_num2fuse 7 0 ≢ fuse_inode_none
num2fuse_valid_test = num2fuse_valid 7 0 (omega arith) (omega arith)

ie_inode-large : ie_inode (inode_entry 0x12345678abcd 3) ≡ 0x12345678abcd
ie_inode-large = ie_inode-inode_entry 0x12345678abcd 3 (omega arith)

-- The inode of number n has the identifier 2 n.
abbrev id_of : ℕ → ℕ
id_of n = n + n

-- Number 5 has two references.
abbrev refs : ℕ → ℕ
refs n = if n == 5 then 2 else 0

abbrev map : InodeMap
map = record {
  root = 7;
  icache = record {
    value_size = 10;
    capacity = 1;
    size = 1;
    buckets = ((5, inode_entry 10 2) ∷ []) ∷ [];
  };
}

map-Tracks : Tracks id_of map refs
unfolding slot chain_get flatten
map-Tracks = record {
  log = 0;
  power = refl;
  nonempty = omega arith;
  small = omega arith;
  width = refl;
  placed = ((refl, refl, tt), tt);
  load = omega arith;
  counted = refl;
  reads = λ q. ground arith;
}

abbrev plenty : ℕ → Bool
plenty n = true

register-Tracks_example :
    (map' : InodeMap) × (ino32_register plenty map 6 12 ≡ done (ino32_num2fuse 7 6, map'))
    × (map'.root ≡ 7)
    × Tracks id_of map' (recount refs 6 1)
register-Tracks_example =
    register-Tracks id_of map refs map-Tracks 6 plenty (omega arith) (omega arith) refl refl

forget-Tracks_example :
    (map' : InodeMap) × (ino32_forget map (ino32_num2fuse 7 5) 1 ≡ done map')
    × (map'.root ≡ 7)
    × Tracks id_of map' (recount refs 5 1)
forget-Tracks_example = forget-Tracks id_of map refs map-Tracks 5 1 (omega arith) (omega arith)

ino32_sqfs-Tracks_example : ino32_sqfs 0 map (ino32_num2fuse 7 5) ≡ done 10
ino32_sqfs-Tracks_example =
    ino32_sqfs-Tracks id_of map refs map-Tracks 5 0 (omega arith) (omega arith) (omega arith)
      (omega arith)
