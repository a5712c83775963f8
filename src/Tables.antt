-- ===== src/Tables.antt =====
-- table.c: tables whose entries fill metadata blocks, with the positions of those blocks in memory.
pub mod Entries
pub mod Loading
use squashfuse.Common.{
  ℕ, ◌+◌, ◌*◌, ◌/◌, ◌%◌, ◌^◌, Bool, true, false, Option, none, some, List, [], length, replicate,
  get_elem?, SqfsErr, ok, err, failed, Outcome, done, fault, out_of_bounds, ◌>>=◌, leb, ◌==◌,
  if◌then◌else◌,
}
use squashfuse.Block.{deref, block_dispose, metadata_size}
use squashfuse.Format.{swapin_fields}
use squashfuse.Fs.{System, Table, BlockCache, Image}
use squashfuse.Metadata.{size_mod, md_cache, copy}

-- `sqfs_divceil` of fs.c.
unfoldable pub divceil : ℕ → ℕ → ℕ
divceil total group = let q = total / group in if total % group == 0 then q else (q + 1) % size_mod

-- `sqfs_table_init`: the product wraps around.
unfoldable pub table_init : System → Table → ℕ → ℕ → ℕ → SqfsErr × Table
table_init system table start each count =
    let nblocks = divceil (each * count % size_mod) metadata_size in
    let bread = nblocks * 8 % size_mod in
    let empty : Table = record { each = each; count = count; blocks = [] } in
    if count == 0
    then (ok, table)
    else (if system.grants bread
        then elim (system.pread bread start) [
          | none ↦ (err, empty)
          | some bytes ↦
              if length bytes == bread
              then (ok, record empty { blocks = swapin_fields (replicate nblocks 8) bytes })
              else (err, empty)
        ]
        else (err, empty))

-- `sqfs_table_get`: the second part is what `buf` receives.
unfoldable pub table_get : Image → Table → ℕ → BlockCache → Outcome (SqfsErr × List ℕ × BlockCache)
table_get img table idx bc =
    let pos = idx * table.each % size_mod in
    if leb table.count idx
    then done (err, [], bc)
    else elim (get_elem? table.blocks (pos / metadata_size)) [
      | none ↦ fault out_of_bounds
      | some bpos ↦ do
        (e, held, _, bc') ← md_cache img bpos bc
        elim (failed e) [
          | true ↦ done (err, [], bc')
          | false ↦ do
            (p, b) ← deref bc'.heap held
            bytes ← copy true b (pos % metadata_size) table.each
            h ← block_dispose held bc'.heap
            done (ok, bytes, record bc' { heap = h })
        ]
    ]
