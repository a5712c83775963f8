-- ===== src/Tests/Blocks.antt =====
-- Blocks of a small file, read through a cache.
use squashfuse.Common.{
  SqfsErr, failed, fault, assertion, ℕ, ◌+◌, ◌*◌, ◌^◌, ◌≤◌, ◌<◌, ◌≡◌, refl, true, false, none, some,
  List, [], ◌∷◌, take, drop, get_elem?, zero, suc, ap, ok, err, done, arith,
}
use squashfuse.Cache.{Entry}
use squashfuse.Fs.{Cursor, System, Table, Heap, BlockEntry, BlockCache, Image}
use squashfuse.Format.{swapin, swapin_loop, encode_fields}
use squashfuse.Format.Super.{swapin_super_block}
use squashfuse.Block.{metadata_size, md_header, data_header, block_read}
use squashfuse.Block.Headers.{
  pack_md_header, pack_data_header, md_header_bounds, md_header-pack, data_header-pack,
}
use squashfuse.Block.Reads.{
  IsGranted, IsFresh, with_block, unpack, block_at, GaveUp, block_read_lem, block_read-GaveUp,
}
use squashfuse.Block.Coherence.{IsCoherent}
use squashfuse.Metadata.{md_cache, md_read}
use squashfuse.Metadata.Failing.{md_cache_fails}
use squashfuse.Metadata.Stream.{IsMetadata, md_at, Ahead, finished, inside, Cached, md_cache-Cached}
use squashfuse.Data.Cached.{data_at, IsDataOf, HoldsData, data_cache-HoldsData}
use squashfuse.Tables.{divceil, table_init, table_get}
use squashfuse.Tables.Entries.{IsTable, table_get_lem, table_get_bounds}
use squashfuse.Tables.Loading.{table_init_lem, divceil_bounds}
use squashfuse.Metadata.Reads.{Read, md_read-Read}

md_header_bounds_test : (1 ≤ (md_header 0x8000).1) × ((md_header 0x8000).1 ≤ 2 ^ 15)
md_header_bounds_test = md_header_bounds 0x8000 (omega arith)

md_header-pack_test : md_header (pack_md_header false 8192) ≡ (false, 8192)
md_header-pack_test = md_header-pack false 8192 (omega arith) (omega arith)

data_header-pack_test : data_header (pack_data_header true 131072) ≡ (true, 131072)
data_header-pack_test = data_header-pack true 131072 (omega arith)

-- Behind one byte, metadata blocks that are stored as they are, of three, two and eight bytes.
abbrev file : List ℕ
file =
    99 ∷ 3 ∷ 0x80 ∷ 10 ∷ 11 ∷ 12 ∷ 2 ∷ 0x80 ∷ 13 ∷ 14 ∷ 8 ∷ 0x80 ∷ 1 ∷ 2 ∷ 3 ∷ 4 ∷ 0 ∷ 0 ∷ 0 ∷ 0
    ∷ []

abbrev small_system : System
small_system = record {
  grants = λ n. true;
  pread = λ count pos. some (take count (drop pos file));
  decompressor_of = λ t. none;
}

abbrev no_table : Table
no_table = record { each = 0; count = 0; blocks = [] }

abbrev pub small_image : Image
small_image = record {
  system = small_system;
  offset = 0;
  sb = swapin_super_block [];
  decompressor = λ input room. (err, []);
  id_table = no_table;
  frag_table = no_table;
  export_table = no_table;
  xattr_info = record { xattr_table_start = 0; xattr_ids = 0; unused = 0 };
  xattr_table = no_table;
}

abbrev no_blocks : Heap
no_blocks = record { next = 0; blocks = λ p. none }

small_image-IsGranted : IsGranted small_image
small_image-IsGranted = record { granted = λ n. refl }

no_blocks-IsFresh : IsFresh no_blocks
no_blocks-IsFresh = record { unused = λ q le. refl }

first_block : block_at small_image 3 false 3 8192 ≡ some (10 ∷ 11 ∷ 12 ∷ [])
unfolding block_at unpack
first_block = refl

block_read_lem_example :
    block_read small_image 3 false 3 8192 no_blocks
    ≡ done (ok, some 0, with_block no_blocks (10 ∷ 11 ∷ 12 ∷ []))
block_read_lem_example =
    block_read_lem no_blocks small_image small_image-IsGranted 3 false 3 8192 (10 ∷ 11 ∷ 12 ∷ [])
      first_block

-- A block that the file ends in the middle of.
cut_block : block_at small_image 18 false 3 8192 ≡ none
unfolding block_at
cut_block = refl

block_read-GaveUp_example : GaveUp no_blocks (block_read small_image 18 false 3 8192 no_blocks)
block_read-GaveUp_example =
    block_read-GaveUp no_blocks small_image small_image-IsGranted 18 false 3 8192 no_blocks-IsFresh
      cut_block

abbrev empty_entry : Entry BlockEntry
empty_entry = record { valid = false; idx = 0; value = record { block = none; data_size = 0 } }

abbrev pub empty_cache : BlockCache
empty_cache = record {
  cache = record { count = 2; next = 0; entries = empty_entry ∷ empty_entry ∷ [] };
  heap = no_blocks;
}

only_empty :
    (i : ℕ) (e : Entry BlockEntry)
    → get_elem? empty_cache.cache.entries i ≡ some e
    → e ≡ empty_entry
only_empty zero e there = cc
only_empty (suc zero) e there = cc
only_empty (suc (suc i)) e there = absurd (ground arith)

not_valid :
    (i : ℕ) (e : Entry BlockEntry)
    → get_elem? empty_cache.cache.entries i ≡ some e
    → e.valid ≡ false
not_valid i e there = ap (λ (x : Entry BlockEntry). x.valid) (only_empty i e there)

pub empty_cache-IsCoherent : (right : ℕ → ℕ → List ℕ → Type 0) → IsCoherent right empty_cache
empty_cache-IsCoherent right = record {
  cache = record { some_entries = omega arith; width = refl; turn = omega arith };
  fresh = no_blocks-IsFresh;
  owns = λ i e there valid. absurd (ground (arith, not_valid i e there));
  apart = λ i j d e there there' valid. absurd (ground (arith, not_valid i d there));
  clean = λ i e there invalid. ap (λ (x : Entry BlockEntry). x.idx) (only_empty i e there);
}

first_metadata : md_at small_image 1 ≡ some (10 ∷ 11 ∷ 12 ∷ [], 5)
unfolding md_at block_at unpack md_header swapin swapin_loop
first_metadata = refl

second_metadata : md_at small_image 6 ≡ some (13 ∷ 14 ∷ [], 4)
unfolding md_at block_at unpack md_header swapin swapin_loop
second_metadata = refl

md_cache-Cached_example :
    Cached small_image small_image-IsGranted 1 (10 ∷ 11 ∷ 12 ∷ []) 5 first_metadata empty_cache
md_cache-Cached_example =
    md_cache-Cached small_image small_image-IsGranted 1 (10 ∷ 11 ∷ 12 ∷ []) 5 first_metadata
      empty_cache (empty_cache-IsCoherent (IsMetadata small_image)) (omega arith)

abbrev second_byte : Cursor
second_byte = record { block = 1; offset = 1 }

second_byte-Ahead : Ahead small_image 1 1 (11 ∷ 12 ∷ 13 ∷ 14 ∷ [])
second_byte-Ahead =
    inside {n = 5} {bytes = 10 ∷ 11 ∷ 12 ∷ []} (omega arith) first_metadata (omega arith)
      (omega arith) (omega arith)
      (inside {n = 4} {bytes = 13 ∷ 14 ∷ []} (omega arith) second_metadata (omega arith)
        (omega arith) (omega arith) (finished refl refl) refl)
      refl

-- A read across the two blocks.
md_read-Read_example :
    Read small_image true []
      (11 ∷ 12 ∷ 13 ∷ [])
      (14 ∷ [])
      (md_read small_image true second_byte 3 empty_cache)
md_read-Read_example =
    md_read-Read small_image small_image-IsGranted true second_byte (11 ∷ 12 ∷ 13 ∷ []) (14 ∷ [])
      empty_cache second_byte-Ahead (empty_cache-IsCoherent (IsMetadata small_image))

-- A table of one entry of two bytes, in the second block.
abbrev one_entry : Table
one_entry = record { each = 2; count = 1; blocks = 6 ∷ [] }

only_block :
    (i : ℕ)
    → i * metadata_size < 2
    → (pos : ℕ) × (n : ℕ) × (get_elem? one_entry.blocks i ≡ some pos)
      × (0 < pos)
      × (md_at small_image pos
          ≡ some (take metadata_size (drop (i * metadata_size) (13 ∷ 14 ∷ [])), n))
only_block zero h = (6, 4, refl, omega arith, second_metadata)
only_block (suc i) h = absurd (omega arith)

one_entry-IsTable : IsTable small_image one_entry (13 ∷ 14 ∷ [])
one_entry-IsTable = record {
  per_block = 4096;
  some_per_block = omega arith;
  some_bytes = omega arith;
  whole = refl;
  small = omega arith;
  width = refl;
  block_there = only_block;
}

table_get_lem_example :
    (bc' : BlockCache) × (table_get small_image one_entry 0 empty_cache
      ≡ done (ok, 13 ∷ 14 ∷ [], bc'))
    × IsCoherent (IsMetadata small_image) bc'
table_get_lem_example =
    table_get_lem small_image small_image-IsGranted one_entry (13 ∷ 14 ∷ []) one_entry-IsTable 0
      empty_cache (empty_cache-IsCoherent (IsMetadata small_image)) (omega arith)

table_get-one_entry : table_get small_image one_entry 1 empty_cache ≡ done (err, [], empty_cache)
table_get-one_entry = table_get_bounds small_image one_entry 1 empty_cache (omega arith)

-- The position 6 as it stands in a file.
abbrev position_system : System
position_system = record small_system {
  pread = λ count pos. some (encode_fields (8 ∷ []) (6 ∷ []));
}

table_init_lem_example : table_init position_system no_table 96 2 1 ≡ (ok, one_entry)
unfolding divceil
table_init_lem_example =
    table_init_lem position_system no_table 96 2 1 1 (6 ∷ []) (omega arith) (omega arith) refl
      (omega arith) refl (omega arith, tt) refl

divceil_bounds_test :
    (12289 ≤ divceil 12289 8192 * 8192) × (divceil 12289 8192 * 8192 < 12289 + 8192)
divceil_bounds_test = divceil_bounds 12289 8192 (omega arith) (omega arith)

-- The first block as a data block.
abbrev header_of : ℕ → ℕ
header_of pos = 2 ^ 24 + 3

first_data : data_at small_image 3 (2 ^ 24 + 3) ≡ some (10 ∷ 11 ∷ 12 ∷ [])
unfolding data_at data_header block_at unpack
first_data = refl

data_cache-HoldsData_example :
    HoldsData small_image small_image-IsGranted header_of 3
      (10 ∷ 11 ∷ 12 ∷ [])
      first_data
      empty_cache
data_cache-HoldsData_example =
    data_cache-HoldsData small_image small_image-IsGranted header_of 3 (10 ∷ 11 ∷ 12 ∷ [])
      first_data empty_cache (empty_cache-IsCoherent (IsDataOf small_image header_of)) (omega arith)

-- There is nothing at the position 20.
past_end : md_at small_image 20 ≡ none
unfolding md_at
past_end = refl

md_cache_fails_example :
    (e : SqfsErr) × (after : BlockCache) × (md_cache small_image 20 empty_cache
      ≡ done (e, none, 20, after))
    × (failed e ≡ true)
    × (md_cache small_image 20 after ≡ fault assertion)
md_cache_fails_example =
    md_cache_fails small_image small_image-IsGranted 20 past_end empty_cache
      (empty_cache-IsCoherent (IsMetadata small_image)) (omega arith)
