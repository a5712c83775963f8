-- ===== src/Opening.antt =====
-- fs.c: opening a file system, in a build without threads.
pub mod Fresh
pub mod Checks
pub mod Slashes
use squashfuse.Common.{
  ℕ, ◌+◌, ◌*◌, Bool, true, false, not, ◌&&◌, ◌||◌, Option, none, some, List, [], ◌∷◌, length,
  SqfsErr, ok, err, badformat, badversion, badcomp, failed, Fault, Outcome, done, fault,
  null_pointer, unwritten_memory, ltb, ◌==◌, if◌then◌else◌,
}
use squashfuse.Actions.{Answer, got, failure, Action, ◌>>=◌}
use squashfuse.Cache
use squashfuse.Cache.{Cache}
use squashfuse.Directory.Lookup.{lookup_path}
use squashfuse.File.Index.{blockidx_init}
use squashfuse.Format.{sizeof, swap16}
use squashfuse.Format.Super.{SuperBlock, super_block_widths, swapin_super_block}
use squashfuse.Format.Tables.{XattrIdTable}
use squashfuse.Fs.{System, Decompressor, Table, Image, Heap, BlockEntry, BlockCache, Caches}
use squashfuse.Identifiers.{export_ok}
use squashfuse.Inode.{Inode, inode_get}
use squashfuse.Tables.{table_init}
use squashfuse.Xattr.{xattr_init}

-- `SQUASHFS_MAGIC` and `SQFS_MAGIC_SWAP`.
abbrev pub magic : ℕ
magic = 0x73717368

abbrev pub magic_swap : ℕ
magic_swap = 0x68737173

-- The version of an image is 4.0.
unfoldable pub check_version : SuperBlock → SqfsErr × SuperBlock
check_version sb = if not (sb.s_major == 4) || ltb 0 sb.s_minor then (badversion, sb) else (ok, sb)

unfoldable pub check_super : SuperBlock → SqfsErr × SuperBlock
check_super sb =
    if sb.s_magic == magic
    then check_version sb
    else (if sb.s_magic == magic_swap
        then check_version (record sb { s_major = swap16 sb.s_major; s_minor = swap16 sb.s_minor })
        else (badformat, sb))

-- The super block that the image starts with.
unfoldable pub read_super : System → ℕ → Option SuperBlock
read_super system offset = elim (system.pread (sizeof super_block_widths) offset) [
  | none ↦ none
  | some bytes ↦
      if length bytes == sizeof super_block_widths then some (swapin_super_block bytes) else none
]

abbrev no_table : Table
no_table = record { each = 0; count = 0; blocks = [] }

-- The structure as `memset` leaves it, with what is known so far.
abbrev pub bare : System → ℕ → SuperBlock → Decompressor → Image
bare system offset sb d = record {
  system = system;
  offset = offset;
  sb = sb;
  decompressor = d;
  id_table = no_table;
  frag_table = no_table;
  export_table = no_table;
  xattr_info = record { xattr_table_start = 0; xattr_ids = 0; unused = 0 };
  xattr_table = no_table;
}

-- The tables; the first part is whether one of them failed.
unfoldable pub load_tables : Image → Bool × Image
load_tables img =
    let sb = img.sb in
    let (e₁, ids) = table_init img.system no_table (sb.id_table_start + img.offset) 4 sb.no_ids in
    let (e₂, frags) =
      table_init img.system no_table (sb.fragment_table_start + img.offset) 16 sb.fragments in
    let (e₃, exports) =
      if export_ok img
      then table_init img.system no_table (sb.lookup_table_start + img.offset) 8 sb.inodes
      else (ok, no_table) in
    let (e₄, info, xattrs) = xattr_init img.system img.offset sb img.xattr_info no_table in
    (
      failed e₁ || (failed e₂ || (failed e₃ || failed e₄)),
      record img {
        id_table = ids;
        frag_table = frags;
        export_table = exports;
        xattr_info = info;
        xattr_table = xattrs;
      },
    )

abbrev pub no_blocks : Heap
no_blocks = record { next = 0; blocks = λ p. none }

-- `sqfs_block_cache_init`; an entry takes 16 bytes.
unfoldable pub block_cache_init : (ℕ → Bool) → ℕ → Option BlockCache
block_cache_init grants count =
    elim (Cache.init grants (record { block = none; data_size = 0 }) 16 count).1 [
      | none ↦ none
      | some c ↦ some (record { cache = c; heap = no_blocks })
    ]

-- The caches, if none of them failed.
unfoldable pub init_caches : (ℕ → Bool) → Option Caches
init_caches grants = elim (block_cache_init grants 8) [
  | none ↦ none
  | some md ↦ elim (block_cache_init grants 1) [
    | none ↦ none
    | some blocks ↦ elim (block_cache_init grants 3) [
      | none ↦ none
      | some frags ↦ elim (blockidx_init grants).1 [
        | none ↦ none
        | some index ↦
            some (record { md = md; data_blocks = blocks; fragments = frags; blockidx = index })
      ]
    ]
  ]
]

-- What stands for a cache that could not be made; nothing that a lookup does touches it.
abbrev no_block_cache : BlockCache
no_block_cache = record { cache = record { count = 0; next = 0; entries = [] }; heap = no_blocks }

abbrev only_md : BlockCache → Caches
only_md md = record {
  md = md;
  data_blocks = no_block_cache;
  fragments = no_block_cache;
  blockidx = record { count = 0; next = 0; entries = [] };
}

-- The caches that a lookup finds, and whether one of them could not be made; none if that is the
-- cache of metadata, the only one that a lookup uses.
unfoldable pub made_caches : (ℕ → Bool) → Bool × Option Caches
made_caches grants = elim (init_caches grants) [
  | some s ↦ (false, some s)
  | none ↦ (true, elim (block_cache_init grants 8) [ none ↦ none | some md ↦ some (only_md md) ])
]

-- An error, or the open file system.
abbrev pub Opened : Type 0
Opened = SqfsErr × Option (Image × Caches)

abbrev refused : SqfsErr → Outcome Opened
refused e = done (e, none)

-- What the lookup of the subdirectory leaves: a path may be found without an identifier being
-- written for it.
abbrev pub rooted :
    Bool → Image → Outcome (Answer (Option (Inode × Option ℕ)) × Caches) → Outcome Opened
rooted bad img (fault e) = fault e
rooted bad img (done (failure e, s)) = refused err
rooted bad img (done (got none, s)) = refused err
rooted bad img (done (got (some (i, none)), s)) = fault unwritten_memory
rooted bad img (done (got (some (i, some id)), s)) =
    if bad
    then refused err
    else done (ok, some (record img { sb = record img.sb { root_inode = id } }, s))

-- Where the root's inode cannot be read, the code goes on with it, and fails whatever it finds.
-- Without a cache of metadata it reads through a null pointer.
unfoldable pub enter_subdir : Bool → Image → List ℕ → Option Caches → Outcome Opened
enter_subdir bad img subdir none = fault null_pointer
enter_subdir bad img subdir (some s) =
    rooted bad img ((inode_get img img.sb.root_inode >>= λ root. lookup_path img root subdir) s)

abbrev finish : Bool → Image → Option Caches → Outcome Opened
finish bad img none = refused err
finish bad img (some s) = if bad then refused err else done (ok, some (img, s))

unfoldable pub open_image : Image → List ℕ → Outcome Opened
open_image bare_img subdir =
    let (bad, img) = load_tables bare_img in
    let caches = init_caches img.system.grants in
    let (missing, made) = made_caches img.system.grants in
    elim subdir [
      | [] ↦ finish bad img caches
      | c ∷ rest ↦ enter_subdir (bad || missing) img (c ∷ rest) made
    ]

-- `sqfs_init_with_subdir`; the empty list is also the null pointer, with which `sqfs_init` calls it.
unfoldable pub init : System → ℕ → List ℕ → Outcome Opened
init system offset subdir = elim (read_super system offset) [
  | none ↦ refused badformat
  | some stored ↦
      let (e, sb) = check_super stored in
      if failed e then refused e else elim (system.decompressor_of sb.compression) [
        | none ↦ refused badcomp
        | some d ↦ open_image (bare system offset sb d) subdir
      ]
]
