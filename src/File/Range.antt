-- ===== src/File/Range.antt =====
-- file.c: `sqfs_read_range`. What it writes to the buffer is a list, and `*size` is its length.
use squashfuse.Common.{
  ℕ, zero, suc, ◌+◌, ◌-◌, ◌%◌, true, false, List, [], ◌++◌, length, replicate, err, out_of_fuel,
  leb, ltb, ◌==◌, if◌then◌else◌,
}
use squashfuse.Actions.{Action, ◌>>=◌, pure, fail, crash}
use squashfuse.Fs.{Image}
use squashfuse.Inode.{Inode, RegData, as_reg, has_type, s_ifreg}
use squashfuse.Metadata.{size_mod, amount}
use squashfuse.File.{
  Blocklist, in_data, in_fragments, invalid_frag, hold_block, copy_block, frag_block,
  blocklist_next,
}
use squashfuse.File.Index.{blockidx_blocklist}

module _ (img : Image) where
  -- The bytes of a block from an offset on; those of a hole are 0.
  unfoldable pub read_block : RegData → Blocklist → ℕ → ℕ → Action (List ℕ)
  read_block r bl off size =
      let hole = (r.file_size + size_mod - bl.pos) % size_mod in
      if bl.input_size == 0
      then pure (
          replicate
            (amount (if ltb img.sb.block_size hole then img.sb.block_size else hole) off size) 0)
      else (do
        p ← hold_block img in_data bl.block bl.header
        copy_block in_data p (λ n. amount n off size) off)

  unfoldable pub read_fragment : Inode → ℕ → ℕ → Action (List ℕ)
  read_fragment i off size = do
    (data_off, data_size, p) ← frag_block img i
    copy_block in_fragments p (λ _. amount data_size off size) (data_off + off)

  -- The loop, on fuel: a round takes a block of the list, or the fragment and is the last. `off` is
  -- `read_off`, and `buf` what was read.
  unfoldable pub range_loop : ℕ → Inode → RegData → ℕ → Blocklist → ℕ → ℕ → List ℕ → Action (List ℕ)
  range_loop zero i r start bl off size buf = crash out_of_fuel
  range_loop (suc fuel) i r start bl off size buf = elim (size == 0) [
    | true ↦ pure buf
    | false ↦ elim (bl.remain == 0) [
      | true ↦
          if r.frag_idx == invalid_frag
          then pure buf
          else (do piece ← read_fragment i off size; pure (buf ++ piece))
      | false ↦ do
        bl' ← blocklist_next img bl
        elim (leb ((bl'.pos + img.sb.block_size) % size_mod) start) [
          | true ↦ range_loop fuel i r start bl' off size buf
          | false ↦ do
            piece ← read_block r bl' off size
            range_loop fuel i r start bl' 0 (size - length piece) (buf ++ piece)
        ]
    ]
  ]

  unfoldable pub read_range : Inode → ℕ → ℕ → Action (List ℕ)
  read_range i start size =
      if has_type s_ifreg i.base.mode
      then (do
        r ← as_reg i
        (if ltb r.file_size start then fail err else if start == r.file_size then pure [] else do
          bl ← blockidx_blocklist img i start
          buf ← range_loop (bl.remain + 2) i r start bl (start % img.sb.block_size) size []
          (if length buf == 0 then fail err else pure buf)))
      else fail err
