-- ===== src/Fs.antt =====
-- fs.h: an open file system. `sqfs` is split into what stays as `sqfs_init` made it, an `Image`,
-- and the `Caches`, which the operations pass on.
-- Offsets of type `off_t` are exact numbers: their overflow is undefined in C.
use squashfuse.Common.{ℕ, Bool, Option, List, SqfsErr}
use squashfuse.Format.Super.{SuperBlock}
use squashfuse.Format.Tables.{XattrIdTable}
use squashfuse.Cache.{Cache}

-- What the code calls and does not contain: memory, the file, and the decompression libraries.
-- `grants n` says whether an allocation of n bytes succeeds, `pread count pos` is what a read
-- returns (`none` for -1), and `decompressor t` is the routine for the compression t that the
-- program was built with: from the input and the room in the output to an error or the output.
abbrev pub Decompressor : Type 0
Decompressor = List ℕ → ℕ → SqfsErr × List ℕ

pub record System : Type 0 where
  pub grants : ℕ → Bool
  pub pread : ℕ → ℕ → Option (List ℕ)
  pub decompressor_of : ℕ → Option Decompressor

-- table.h: `blocks` is empty for the null pointer.
pub record Table : Type 0 where
  pub each : ℕ
  pub count : ℕ
  pub blocks : List ℕ

-- common.h: a block that a cache and its users share, `sqfs_block`.
pub record Block : Type 0 where
  pub size : ℕ
  pub bytes : List ℕ
  pub refcount : ℕ

-- The blocks that one cache made, by their addresses. An address from `next` on is not in use.
pub record Heap : Type 0 where
  pub next : ℕ
  pub blocks : ℕ → Option Block

-- `sqfs_block_cache_entry`: `none` is the null pointer.
pub record BlockEntry : Type 0 where
  pub block : Option ℕ
  pub data_size : ℕ

-- A cache of blocks with the memory of those blocks.
pub record BlockCache : Type 0 where
  pub cache : Cache BlockEntry
  pub heap : Heap

pub record Image : Type 0 where
  pub system : System
  pub offset : ℕ
  pub sb : SuperBlock
  pub decompressor : Decompressor
  pub id_table : Table
  pub frag_table : Table
  pub export_table : Table
  pub xattr_info : XattrIdTable
  pub xattr_table : Table

-- common.h: a position in the metadata, `sqfs_md_cursor`.
pub record Cursor : Type 0 where
  pub block : ℕ
  pub offset : ℕ

-- file.h: `sqfs_blockidx_entry`.
pub record BlockidxEntry : Type 0 where
  pub data_block : ℕ
  pub md_block : ℕ

-- The caches of `sqfs`. An entry of `blockidx` holds a pointer to an array.
pub record Caches : Type 0 where
  pub md : BlockCache
  pub data_blocks : BlockCache
  pub fragments : BlockCache
  pub blockidx : Cache (List BlockidxEntry)
