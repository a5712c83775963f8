-- ===== src/Tests/Opening.antt =====
-- Opening an image that is nothing but its super block, and a subdirectory "//".
use squashfuse.Common.{
  ℕ, ◌≡◌, refl, List, [], ◌∷◌, ◌++◌, replicate, take, drop, none, some, ok, err, done, fault,
  unwritten_memory, arith, true, false,
}
use squashfuse.Actions.Rules.{IsSound, Ends}
use squashfuse.Block.Reads.{IsGranted, block_at, unpack}
use squashfuse.Block.{md_header}
use squashfuse.Cache
use squashfuse.Cache.{Cache, Entry}
use squashfuse.File.Index.{blockidx_init}
use squashfuse.Format.{swapin, swapin_loop, swapin_fields, encode_fields, le_bytes}
use squashfuse.Format.Super.{SuperBlock, swapin_super_block}
use squashfuse.Fs.{System, Decompressor, Image, Caches, BlockCache, BlockidxEntry}
use squashfuse.Identifiers.{export_ok}
use squashfuse.Inode.{is_fifo, inode_get}
use squashfuse.Inode.Decoding.{Reads, blank, inode_get-Ends}
use squashfuse.Metadata.{cursor_inode}
use squashfuse.Metadata.Stream.{md_at}
use squashfuse.Opening.{
  bare, no_blocks, check_version, check_super, read_super, load_tables, block_cache_init,
  init_caches, open_image, enter_subdir, init,
}
use squashfuse.Opening.Checks.{IsAccepted, init-IsAccepted}
use squashfuse.Opening.Slashes.{enter_subdir_slashes}
use squashfuse.Tables.{divceil, table_init}
use squashfuse.Tests.Images.{
  image_of, zero_super, front, front-Ahead, empty_caches, no_header, empty_caches-IsSound,
}
use squashfuse.Tests.Inode.{fifo, fifo_base, fifo_bytes}
use squashfuse.Xattr.{xattr_init}

abbrev unset_start : List ℕ
unset_start = replicate 8 255

abbrev boot : List ℕ
boot =
    0x68 ∷ 0x73 ∷ 0x71 ∷ 0x73 ∷ replicate 24 0
    ++ (4 ∷ 0 ∷ 0 ∷ 0 ∷ replicate 24 0 ++ (unset_start ++ (replicate 24 0 ++ unset_start)))

abbrev plain : Decompressor
plain input room = (err, [])

abbrev boot_system : System
boot_system = record {
  grants = λ n. true;
  pread = λ count pos. some (take count (drop pos boot));
  decompressor_of = λ t. some plain;
}

abbrev boot_image : Image
boot_image = bare boot_system 0 (swapin_super_block boot) plain

abbrev empty_blocks : ℕ → BlockCache
empty_blocks n = record {
  cache = record {
    count = n;
    next = 0;
    entries =
        replicate n
          (record { valid = false; idx = 0; value = record { block = none; data_size = 0 } });
  };
  heap = no_blocks;
}

abbrev empty_index : Cache (List BlockidxEntry)
empty_index = record {
  count = 8;
  next = 0;
  entries = replicate 8 (record { valid = false; idx = 0; value = [] });
}

abbrev first_caches : Caches
first_caches = record {
  md = empty_blocks 8;
  data_blocks = empty_blocks 1;
  fragments = empty_blocks 3;
  blockidx = empty_index;
}

init_boot : init boot_system 0 [] ≡ done (ok, some (boot_image, first_caches))
unfolding init read_super check_super check_version open_image load_tables init_caches
    block_cache_init Cache.init blockidx_init table_init xattr_init export_ok swapin_super_block
    swapin_fields swapin swapin_loop divceil
init_boot = refl

init-IsAccepted_example :
    (stored : SuperBlock) × (read_super boot_system 0 ≡ some stored)
    × IsAccepted boot_system stored boot_image
    × IsSound boot_image no_header first_caches
init-IsAccepted_example = init-IsAccepted boot_system 0 no_header boot_image first_caches init_boot

abbrev fifo_image : Image
fifo_image = record (image_of fifo_bytes) { sb = record zero_super { root_inode = 65536 } }

fifo_image-IsGranted : IsGranted fifo_image
fifo_image-IsGranted = record { granted = λ n. refl }

root_there : md_at fifo_image 1 ≡ some (fifo_bytes, 22)
unfolding md_at block_at unpack md_header swapin swapin_loop
root_there = refl

root-Ends :
    Ends fifo_image no_header
      (Reads fifo_image no_header fifo_image-IsGranted is_fifo fifo
        (blank fifo_image no_header fifo_image-IsGranted is_fifo fifo_base front)
        [])
      empty_caches
      (inode_get fifo_image 65536 empty_caches)
unfolding encode_fields le_bytes cursor_inode
root-Ends =
    inode_get-Ends fifo_image no_header fifo_image-IsGranted 65536 fifo_base is_fifo fifo
      (5 ∷ 0 ∷ 0 ∷ 0 ∷ []) [] refl (ground arith) (ground arith) tt refl
      (front-Ahead fifo_image fifo_bytes 22 root_there (omega arith) (omega arith)) empty_caches
      (empty_caches-IsSound fifo_image)

enter_subdir_slashes_example :
    enter_subdir false fifo_image (47 ∷ 47 ∷ []) (some empty_caches) ≡ fault unwritten_memory
enter_subdir_slashes_example =
    enter_subdir_slashes fifo_image false root-Ends.answer (47 ∷ 47 ∷ []) empty_caches
      root-Ends.after (refl, (refl, tt)) root-Ends.returns
