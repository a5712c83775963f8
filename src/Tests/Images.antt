-- ===== src/Tests/Images.antt =====
-- Images of one metadata block, behind one byte.
use squashfuse.Common.{
  ℕ, ◌<◌, ◌≡◌, refl, true, none, some, List, [], ◌∷◌, ◌++◌, arith, length, take, drop, err,
}
use squashfuse.Actions.Rules.{IsSound}
use squashfuse.Block.Reads.{IsGranted}
use squashfuse.Data.Cached.{IsDataOf}
use squashfuse.Format.Super.{SuperBlock}
use squashfuse.Fs.{Table, Image, Caches, Cursor}
use squashfuse.Metadata.Stream.{Ahead, finished, inside, md_at, IsMetadata}
use squashfuse.Tests.Blocks.{empty_cache, empty_cache-IsCoherent}

abbrev pub zero_super : SuperBlock
zero_super = record {
  s_magic = 0;
  inodes = 0;
  mkfs_time = 0;
  block_size = 4096;
  fragments = 0;
  compression = 0;
  block_log = 0;
  flags = 0;
  no_ids = 0;
  s_major = 0;
  s_minor = 0;
  root_inode = 0;
  bytes_used = 0;
  id_table_start = 0;
  xattr_id_table_start = 0;
  inode_table_start = 0;
  directory_table_start = 0;
  fragment_table_start = 0;
  lookup_table_start = 0;
}

abbrev pub no_entries : Table
no_entries = record { each = 0; count = 0; blocks = [] }

-- The block is stored as it is; `bytes` are fewer than 256.
abbrev pub image_of : List ℕ → Image
image_of bytes = record {
  system = record {
    grants = λ n. true;
    pread = λ count pos. some (take count (drop pos (99 ∷ length bytes ∷ 0x80 ∷ bytes)));
    decompressor_of = λ t. none;
  };
  offset = 0;
  sb = zero_super;
  decompressor = λ input room. (err, []);
  id_table = no_entries;
  frag_table = no_entries;
  export_table = no_entries;
  xattr_info = record { xattr_table_start = 0; xattr_ids = 0; unused = 0 };
  xattr_table = no_entries;
}

pub image_of-IsGranted : (bytes : List ℕ) → IsGranted (image_of bytes)
image_of-IsGranted bytes = record { granted = λ n. refl }

abbrev pub front : Cursor
front = record { block = 1; offset = 0 }

-- Where the block is there, its bytes lie ahead of its start.
pub front-Ahead :
    (img : Image) (bytes : List ℕ) (n : ℕ)
    → md_at img 1 ≡ some (bytes, n)
    → 0 < length bytes
    → length bytes < 256
    → Ahead img 1 0 (bytes ++ [])
front-Ahead img bytes n there some_bytes few =
    inside {n = n} {bytes = bytes} (omega arith) there some_bytes (omega arith) (omega arith)
      (finished refl refl) refl

abbrev pub empty_caches : Caches
empty_caches = record {
  md = empty_cache;
  data_blocks = empty_cache;
  fragments = empty_cache;
  blockidx = record { count = 0; next = 0; entries = [] };
}

abbrev pub no_header : ℕ → ℕ
no_header pos = 0

pub empty_caches-IsSound : (img : Image) → IsSound img no_header empty_caches
empty_caches-IsSound img = record {
  md = empty_cache-IsCoherent (IsMetadata img);
  data_blocks = empty_cache-IsCoherent (IsDataOf img no_header);
  fragments = empty_cache-IsCoherent (IsDataOf img no_header);
}
