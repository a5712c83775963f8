-- ===== src/File/Index.antt =====
-- file.c: the index of the block sizes of large files, and a block list that starts in the middle.
-- An array of the index is the list of the entries that were written; an entry behind them is
-- memory that was not initialised, and reading it is a fault.
use squashfuse.Common.{
  ℕ, zero, suc, ◌+◌, ◌-◌, ◌*◌, ◌/◌, ◌%◌, ◌^◌, Bool, true, false, not, ◌&&◌, ◌||◌, Option, none,
  some, List, [], ◌∷◌, ◌++◌, length, get_elem?, SqfsErr, err, Outcome, done, fault, out_of_bounds,
  out_of_fuel, leb, ltb, ◌==◌, if◌then◌else◌,
}
use squashfuse.Actions.{Answer, got, Action, ◌>>=◌, pure, fail, crash}
use squashfuse.Block.{metadata_size}
use squashfuse.Cache
use squashfuse.Cache.{Cache}
use squashfuse.Fs.{Image, Caches, BlockidxEntry}
use squashfuse.Inode.{Inode, as_reg}
use squashfuse.Metadata.{size_mod}
use squashfuse.File.{Blocklist, blocklist_count, blocklist_init, blocklist_next, as_err}

abbrev Index : Type 0
Index = List BlockidxEntry

-- `sqfs_blockidx_dispose` frees the array.
unfoldable pub blockidx_dispose : Index → Unit {0} → Outcome (Unit {0})
blockidx_dispose idx w = done w

-- `SQUASHFS_META_SLOTS` entries that hold one pointer each.
unfoldable pub blockidx_init : (ℕ → Bool) → SqfsErr × Option (Cache Index)
blockidx_init grants = Cache.init grants [] 8 8

-- Calls of cache.c on the index.
abbrev slot_answer : Caches → Outcome (ℕ × Cache Index × Unit {0}) → Outcome (Answer ℕ × Caches)
slot_answer s (fault e) = fault e
slot_answer s (done (i, c, w)) = done (got i, record s { blockidx = c })

unfoldable pub index_slot : ℕ → Action ℕ
index_slot idx s = slot_answer s (Cache.get blockidx_dispose s.blockidx idx tt)

abbrev asked : {A : Type 0} → Caches → Outcome A → Outcome (Answer A × Caches)
asked s (fault e) = fault e
asked s (done a) = done (got a, s)

unfoldable pub index_valid : ℕ → Action Bool
index_valid i s = asked s (Cache.entry_valid s.blockidx i)

unfoldable pub index_load : ℕ → Action Index
index_load i s = asked s (Cache.load s.blockidx i)

abbrev filled_answer : Caches → Outcome (Cache Index) → Outcome (Answer (Unit {0}) × Caches)
filled_answer s (fault e) = fault e
filled_answer s (done c) = done (got tt, record s { blockidx = c })

unfoldable pub index_store : ℕ → Index → Action (Unit {0})
index_store i idx s = filled_answer s (Cache.store s.blockidx i idx)

unfoldable pub index_mark : ℕ → Action (Unit {0})
index_mark i s = filled_answer s (Cache.entry_mark_valid s.blockidx i)

module _ (img : Image) where
  unfoldable pub blockidx_indexable : Inode → Action Bool
  blockidx_indexable i = do
    r ← as_reg i
    blocks ← blocklist_count img r
    pure (leb metadata_size (blocks * 4 % size_mod))

  -- The loop of `sqfs_blockidx_add`, on fuel: a round takes a block. `out` is what was written.
  unfoldable pub add_loop : ℕ → ℕ → Bool → Blocklist → Index → Action Index
  add_loop zero count initial bl out = crash out_of_fuel
  add_loop (suc fuel) count initial bl out =
      let entry : BlockidxEntry = record {
        data_block = (bl.block + bl.input_size) % size_mod;
        md_block = (bl.cur.block + size_mod - img.sb.inode_table_start) % 2 ^ 32;
      } in
      let out' = if ltb bl.cur.offset 4 && not initial then out ++ entry ∷ [] else out in
      elim ((bl.remain == 0) || leb count (length out)) [
        | true ↦ pure out
        | false ↦ do bl' ← as_err (blocklist_next img bl); add_loop fuel count false bl' out'
      ]

  unfoldable pub blockidx_add : Inode → Action Index
  blockidx_add i = do
    r ← as_reg i
    blocks ← blocklist_count img r
    let md_size = blocks * 4 % size_mod
    let count = (i.next.offset + md_size + size_mod - 1) % size_mod / metadata_size
    (if img.system.grants (count * 16 % size_mod)
        then (do bl ← blocklist_init img i; add_loop (bl.remain + 1) count true bl [])
        else fail err)

  -- The index of a file, made if it is not there.
  unfoldable pub find_index : Inode → Action Index
  find_index i = do
    slot ← index_slot ((i.base.inode_number + 1) % 2 ^ 32)
    valid ← index_valid slot
    elim valid [
      | true ↦ index_load slot
      | false ↦ do idx ← blockidx_add i; _ ← index_store slot idx; _ ← index_mark slot; pure idx
    ]

  abbrev pub entry_at : Index → ℕ → Action BlockidxEntry
  entry_at idx n = elim (get_elem? idx n) [ none ↦ crash out_of_bounds | some e ↦ pure e ]

  unfoldable pub blockidx_blocklist : Inode → ℕ → Action Blocklist
  blockidx_blocklist i start = do
    bl ← blocklist_init img i
    let block = start / img.sb.block_size
    let metablock = (bl.cur.offset + block * 4) % size_mod / metadata_size
    let skipped = (metablock * metadata_size / 4 + size_mod - bl.cur.offset / 4) % size_mod
    (if ltb bl.remain block
        then pure (record bl { remain = 0 })
        else if metablock == 0
        then pure bl
        else do
          indexable ← blockidx_indexable i
          (if not indexable then pure bl else do
            idx ← find_index i
            e ← entry_at idx (metablock - 1)
            pure (record bl {
              cur = record {
                block = e.md_block + img.sb.inode_table_start;
                offset = bl.cur.offset % 4;
              };
              remain = (bl.remain + size_mod - skipped) % size_mod;
              pos = skipped * img.sb.block_size % size_mod;
              block = e.data_block;
            })))
