-- ===== src/Tests/Directory.antt =====
-- A directory of two files, "a" and "c".
use squashfuse.Common.{
  pos, ℕ, ◌+◌, ◌<◌, ◌≡◌, ◌≢◌, refl, sym, ap, List, [], ◌∷◌, ◌++◌, none, some, arith, true, length,
  inl,
}
use squashfuse.Actions.Rules.{Ends}
use squashfuse.Block.Reads.{block_at, unpack}
use squashfuse.Block.{md_header}
use squashfuse.Format.{swapin, swapin_loop, encode_fields, le_bytes}
use squashfuse.Fs.{Image}
use squashfuse.Inode.{Inode, dir, has_type, DirData}
use squashfuse.Directory.{Dir, Dirent, dir_next}
use squashfuse.Directory.Listing.{
  Item, Group, AreGroups, Stands, Delivers, Next, item_bytes, items_bytes, groups_bytes,
}
use squashfuse.Directory.Iteration.{dir_next-Ends}
use squashfuse.Directory.Lookup.{dir_lookup}
use squashfuse.Directory.Search.{Placed, entries}
use squashfuse.Directory.Names.{IsSorted, Lacks, dir_lookup_present, dir_lookup_absent}
use squashfuse.Metadata.Stream.{Ahead, md_at}
use squashfuse.Tests.Images.{
  image_of, image_of-IsGranted, front, front-Ahead, empty_caches, no_header, empty_caches-IsSound,
}

abbrev a_item : Item
a_item = record {
  fields = record { offset = 32; inode_number = 1; type = 2; size = 0 };
  name = 97 ∷ [];
}

abbrev c_item : Item
c_item = record {
  fields = record { offset = 64; inode_number = 2; type = 2; size = 0 };
  name = 99 ∷ [];
}

abbrev both : Group
both = record {
  header = record { count = 1; start_block = 7; inode_number = 10 };
  items = a_item ∷ c_item ∷ [];
}

abbrev dir_bytes : List ℕ
dir_bytes =
    1 ∷ 0 ∷ 0 ∷ 0 ∷ 7 ∷ 0 ∷ 0 ∷ 0 ∷ 10 ∷ 0 ∷ 0 ∷ 0 ∷ 32 ∷ 0 ∷ 1 ∷ 0 ∷ 2 ∷ 0 ∷ 0 ∷ 0 ∷ 97 ∷ 64 ∷ 0
    ∷ 2 ∷ 0 ∷ 2 ∷ 0 ∷ 0 ∷ 0 ∷ 99 ∷ []

abbrev dir_image : Image
dir_image = image_of dir_bytes

dir_there : md_at dir_image 1 ≡ some (dir_bytes, 32)
unfolding md_at block_at unpack md_header swapin swapin_loop
dir_there = refl

dir_encoded : groups_bytes (both ∷ []) ≡ dir_bytes
unfolding groups_bytes items_bytes item_bytes encode_fields le_bytes
dir_encoded = refl

dir-Ahead : Ahead dir_image 1 0 (groups_bytes (both ∷ []) ++ [])
dir-Ahead =
    rw dir_encoded (front-Ahead dir_image dir_bytes 32 dir_there (omega arith) (omega arith))

both-AreGroups : AreGroups (both ∷ [])
both-AreGroups = (
  record {
    fit = (omega arith, (omega arith, (omega arith, tt)));
    counted = refl;
    small = omega arith;
    items = (
      record {
        fit = (omega arith, (omega arith, (omega arith, (omega arith, tt))));
        sized = refl;
        short = omega arith;
      },
      (
        record {
          fit = (omega arith, (omega arith, (omega arith, (omega arith, tt))));
          sized = refl;
          short = omega arith;
        },
        tt,
      ),
    );
  },
  tt,
)

abbrev reader : Dir
reader = record {
  cur = front;
  offset = 0;
  total = 30;
  header = record { count = 0; start_block = 0; inode_number = 0 };
}

reader-Stands : Stands dir_image [] 0 0 [] (both ∷ []) reader
unfolding items_bytes
reader-Stands = record {
  start_block = refl;
  inode_number = refl;
  count = refl;
  items = tt;
  groups = both-AreGroups;
  ahead = dir-Ahead;
  ends = rw dir_encoded refl;
}

dir_next-Ends_example :
    Ends dir_image no_header
      (Next dir_image [] true 0 0 [] (both ∷ []))
      empty_caches
      (dir_next dir_image true reader empty_caches)
dir_next-Ends_example =
    dir_next-Ends dir_image no_header (image_of-IsGranted dir_bytes) [] true 0 0 [] (both ∷ [])
      reader reader-Stands empty_caches (empty_caches-IsSound dir_image)

abbrev dir_data : DirData
dir_data = record { start_block = 1; offset = 0; dir_size = 33; idx_count = 0; parent_inode = 0 }

abbrev dir_inode : Inode
dir_inode = record {
  base = record { inode_type = 1; mode = 0x41ed; uid = 0; guid = 0; mtime = 0; inode_number = 1 };
  nlink = pos 2;
  xattr = 0;
  next = front;
  xtra = dir dir_data;
}

dir_type : has_type 0x4000 0x41ed ≡ true
unfolding has_type
dir_type = refl

dir_sized : 33 ≡ length (groups_bytes (both ∷ [])) + 3
dir_sized = rw dir_encoded refl

abbrev placed : Item → Placed
placed x = record { start = 7; number = 10; item = x }

names-IsSorted : IsSorted (entries 0 0 [] (both ∷ []))
names-IsSorted = ((inl (omega arith), tt), (tt, tt))

dir_lookup_present_example :
    Ends dir_image no_header
      (λ o. (e : Dirent) × (o ≡ some e) × Delivers true 7 10 c_item e)
      empty_caches
      (dir_lookup dir_image dir_inode (99 ∷ []) empty_caches)
dir_lookup_present_example =
    dir_lookup_present dir_image no_header (image_of-IsGranted dir_bytes) [] (99 ∷ []) (both ∷ [])
      both-AreGroups dir_inode dir_data dir_type refl dir_sized refl dir-Ahead (omega arith, tt)
      empty_caches (empty_caches-IsSound dir_image) (placed c_item) (placed a_item ∷ []) [] refl
      names-IsSorted refl

head_or : List ℕ → ℕ
head_or [] = 0
head_or (c ∷ s) = c

other_name : (c d : ℕ) → c < d → c ∷ [] ≢ d ∷ []
unfolding head_or
other_name c d h e = absurd (omega (arith, ap head_or e))

no_b : Lacks (98 ∷ []) (entries 0 0 [] (both ∷ []))
no_b = (other_name 97 98 (omega arith), ((λ e. other_name 98 99 (omega arith) (sym e)), tt))

dir_lookup_absent_example :
    Ends dir_image no_header
      (λ o. o ≡ none)
      empty_caches
      (dir_lookup dir_image dir_inode (98 ∷ []) empty_caches)
dir_lookup_absent_example =
    dir_lookup_absent dir_image no_header (image_of-IsGranted dir_bytes) [] (98 ∷ []) (both ∷ [])
      both-AreGroups dir_inode dir_data dir_type refl dir_sized refl dir-Ahead (omega arith, tt)
      empty_caches (empty_caches-IsSound dir_image) no_b
