-- ===== src/Lib.antt =====
-- squashfuse reads squashfs images. This library models it from the byte order of the image over its
-- caches and its metadata up to inodes, directories, files, extended attributes and the traversal of
-- a tree, and proves theorems about each of these parts.
--
-- The parts, the files that model them, and the code:
--
-- - Stack (stack.c, stack.h): a growing array. `resize` is realloc; `ensure_capacity`, `create`,
--   `next_capacity`, `grow`, `push`, `pop`, `at`, `top`, `init` and `destroy` are the functions
--   `sqfs_stack_capacity`, `sqfs_stack_create` and so on. A slot's address is its index.
-- - Hash (hash.c, hash.h): a chained hash table. `init`, `get`, `add`, `remove`, `double`,
--   `add_internal` are the functions of the same names; `assign` is the write of a caller through
--   the pointer that `sqfs_hash_get` returns.
-- - Format (swap.c, squashfs_fs.h, gen_swap.sh): little-endian numbers, and one record for every
--   structure of the image with its swapping function.
-- - Cache (cache.c, cache.h): entries found by linear search and evicted in turn. The entry that
--   `sqfs_cache_get` returns a pointer to is an index.
-- - Fs (fs.h, common.h, table.h): the records of an open file system. What stays as it was opened
--   is an `Image`; caches and memory are passed on explicitly.
-- - Block (fs.c, common.h): reading blocks, counting references to them, and `through_cache`, what
--   `sqfs_md_cache` and `sqfs_data_cache` share. Blocks live in a `Heap` under their addresses, so
--   a freed block that is used again is a fault.
-- - Metadata (fs.c): `sqfs_md_cache`, `sqfs_md_cursor_inode` and `sqfs_md_read`.
-- - Data (fs.c): `data_cache` is `sqfs_data_cache`.
-- - Tables (table.c, fs.c): `table_init` and `table_get` are `sqfs_table_init` and `sqfs_table_get`;
--   the table's memory is the list of its blocks' positions.
-- - Identifiers (fs.c): `id_get`, `export_ok` and `export_inode` read numbers from tables.
-- - Inodes (ll_inode.c): the numbers by which FUSE knows inodes, and the map with counted references
--   that stands on Hash. `ino32_register`, `ino32_forget` and `ino32_sqfs` are the functions of
--   the same names; what they read from a directory entry is an argument.
-- - Actions: how the functions above the metadata are written. An action takes the caches of an open
--   file system and ends in an answer or an error; `>>=` stops at the first error, as the code does
--   with `if (err) return err`. Actions.Rules says when a call succeeds from every sound state of
--   the caches, and composes such calls.
-- - Inode (fs.c, fs.h, nonstd-stat.c): `inode_get` is `sqfs_inode_get`, with one function for each
--   case of its switch; `readlink` is `sqfs_readlink`. The union `xtra` is a sum. Bodies has the
--   structure, the code on disk and the file type of each kind of inode.
-- - Directory (dir.c, dir.h): `dir_open`, `dir_next`, `dir_lookup` and `lookup_path` are the functions
--   of the same names; Listing says what a directory holds, Search and Names what is found in it.
-- - File (file.c, file.h): block lists, fragments, `read_range`, and in Index the block index.
-- - Xattr (xattr.c, xattr.h): the reader, whose flags are Booleans, and in Find the search. Attributes
--   says what is stored and Namespaces what the types stand for, Walk and Search follow the reader
--   through it.
-- - Traverse (traverse.c, traverse.h): `round_at` is the switch of `sqfs_traverse_next`; the stack is
--   that of Stack, and Buffer has the memory of the path. States follows the rounds of one call.
-- - Opening (fs.c): `init` is `sqfs_init_with_subdir`, in a build without threads; Fresh has its caches,
--   and Slashes a subdirectory that names nothing.
-- - Stat (stat.c): `stat` is `sqfs_stat`, without the system's packing of device numbers.
-- - Tests: runs on small inputs.
-- - Common: Booleans, lists over the native numbers, signed integers with C's conversions of them, and
--   outcomes. A call ends in a value, which
--   may hold one of the errors of common.h, or in a fault: a failed assertion, an access outside an
--   object or through a null pointer, a division by zero, a read of memory that nothing was written to,
--   or no fuel.
--
-- Block reads through Cache, which disposes of evicted blocks by a callback; Metadata and Data read
-- through Block, Tables through Metadata, and Identifiers through Tables. Inode, Directory and Xattr
-- read through Metadata, File through Metadata, Data and Tables, and Traverse through Inode, Directory
-- and Stack. `System` holds what the
-- code calls and does not contain: whether an allocation succeeds, what a read of the image returns,
-- and the decompression routines.
--
-- Numbers of 64 bits wrap around where the code computes with `size_t`; sizes of C structures are
-- those of a 64-bit system. Offsets of type `off_t` are exact, as their overflow is undefined.
-- `pop_all` has as much fuel as the stack has elements and one, and `md_read` as the read has bytes
-- and two: each round pops an element or, after the first, takes a byte, so neither runs out under
-- the conditions stated below. `next_header` has as much as the directory has bytes left and two, as
-- a round reads a header; `find_entry` one for each byte of a directory and for each entry that a
-- header can count; `rounds` five, one more than the rounds that a call can take; `grown_cap`
-- 64, as each doubling takes a bit and the code goes on for ever where 64 are too few; and the loops of file.c and xattr.c one for each block or
-- attribute that remains and one or two more.
--
-- What an error leaves in a caller's variables is no part of an action's answer; where later calls
-- depend on it, as on the state of a traversal, it is written out.
--
-- Not modelled are the cache with threads, messages and the opening of files (util.c), the
-- FUSE front ends and tools, which are input and output around the library, what only frees memory,
-- and the decompression libraries, which are other projects' code.
pub mod Common
pub mod Stack
pub mod Hash
pub mod Format
pub mod Cache
pub mod Fs
pub mod Block
pub mod Metadata
pub mod Data
pub mod Tables
pub mod Identifiers
pub mod Actions
pub mod Inode
pub mod Directory
pub mod File
pub mod Xattr
pub mod Traverse
pub mod Opening
pub mod Stat
pub mod Inodes
pub mod Tests
