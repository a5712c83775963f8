-- ===== src/Tests/Inode.antt =====
-- An inode of a fifo, a symbolic link and a device number.
use squashfuse.Common.{ℕ, ◌≡◌, refl, List, [], ◌∷◌, some, arith, true, pos}
use squashfuse.Actions.Rules.{Ends}
use squashfuse.Block.Reads.{block_at, unpack}
use squashfuse.Block.{md_header}
use squashfuse.Format.{swapin, swapin_loop, encode_fields, le_bytes}
use squashfuse.Format.Inodes.{BaseInode, IpcInode}
use squashfuse.Inode.{Inode, is_fifo, inode_get, readlink, dev, symlink_size, decode_dev, has_type}
use squashfuse.Inode.Decoding.{Reads, blank, inode_get-Ends}
use squashfuse.Inode.Link.{pack_dev, decode_dev-pack, readlink-Ends}
use squashfuse.Metadata.{cursor_inode}
use squashfuse.Metadata.Stream.{md_at}
use squashfuse.Tests.Images.{
  image_of, image_of-IsGranted, front, front-Ahead, empty_caches, no_header, empty_caches-IsSound,
}

abbrev pub fifo_base : BaseInode
fifo_base = record { inode_type = 6; mode = 420; uid = 1; guid = 2; mtime = 3; inode_number = 4 }

abbrev pub fifo : IpcInode
fifo = record {
  inode_type = 6;
  mode = 420;
  uid = 1;
  guid = 2;
  mtime = 3;
  inode_number = 4;
  nlink = 5;
}

abbrev pub fifo_bytes : List ℕ
fifo_bytes = 6 ∷ 0 ∷ 164 ∷ 1 ∷ 1 ∷ 0 ∷ 2 ∷ 0 ∷ 3 ∷ 0 ∷ 0 ∷ 0 ∷ 4 ∷ 0 ∷ 0 ∷ 0 ∷ 5 ∷ 0 ∷ 0 ∷ 0 ∷ []

fifo_there : md_at (image_of fifo_bytes) 1 ≡ some (fifo_bytes, 22)
unfolding md_at block_at unpack md_header swapin swapin_loop
fifo_there = refl

inode_get-Ends_example :
    Ends
      (image_of fifo_bytes)
      no_header
      (Reads
        (image_of fifo_bytes)
        no_header
        (image_of-IsGranted fifo_bytes)
        is_fifo
        fifo
        (blank
          (image_of fifo_bytes)
          no_header
          (image_of-IsGranted fifo_bytes)
          is_fifo
          fifo_base
          front)
        [])
      empty_caches
      (inode_get (image_of fifo_bytes) 65536 empty_caches)
unfolding encode_fields le_bytes cursor_inode
inode_get-Ends_example =
    inode_get-Ends (image_of fifo_bytes) no_header (image_of-IsGranted fifo_bytes) 65536 fifo_base
      is_fifo fifo (5 ∷ 0 ∷ 0 ∷ 0 ∷ []) [] refl
      (omega arith, (omega arith, (omega arith, (omega arith, (omega arith, (omega arith, tt))))))
      (
        omega arith,
        (
          omega arith,
          (omega arith, (omega arith, (omega arith, (omega arith, (omega arith, tt))))),
        ),
      )
      tt refl
      (front-Ahead (image_of fifo_bytes) fifo_bytes 22 fifo_there (omega arith) (omega arith))
      empty_caches (empty_caches-IsSound (image_of fifo_bytes))

abbrev target : List ℕ
target = 47 ∷ 97 ∷ 98 ∷ []

abbrev link : Inode
link = record {
  base = record { inode_type = 3; mode = 0xa1ff; uid = 0; guid = 0; mtime = 0; inode_number = 1 };
  nlink = pos 1;
  xattr = 0;
  next = front;
  xtra = symlink_size 3;
}

target_there : md_at (image_of target) 1 ≡ some (target, 5)
unfolding md_at block_at unpack md_header swapin swapin_loop
target_there = refl

link_type : has_type 0xa000 0xa1ff ≡ true
unfolding has_type
link_type = refl

readlink-Ends_example :
    Ends
      (image_of target)
      no_header
      (λ b. b ≡ 47 ∷ 97 ∷ [])
      empty_caches
      (readlink (image_of target) link 3 empty_caches)
readlink-Ends_example =
    readlink-Ends (image_of target) no_header (image_of-IsGranted target) link target [] link_type
      refl (front-Ahead (image_of target) target 5 target_there (omega arith) (omega arith)) 3
      (omega arith) (omega arith) empty_caches (empty_caches-IsSound (image_of target))

decode_dev-pack_example : decode_dev (pack_dev 259 70000) ≡ dev 259 70000
decode_dev-pack_example = decode_dev-pack 259 70000 (omega arith) (omega arith)
