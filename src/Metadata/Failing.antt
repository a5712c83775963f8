-- ===== src/Metadata/Failing.antt =====
-- A metadata block that cannot be read: the error, and what the next call for it does.
use squashfuse.Common.{
  ℕ, ◌+◌, ◌<◌, ◌≡◌, refl, sym, ◌∙◌, true, Option, none, some, length, get_elem?, SqfsErr, err,
  failed, done, fault, assertion, ◌==◌, Bool-cases, Option-cases, inl, inr, arith,
}
use native.Mathlib.Nat.{sub-zero}
use mathlib.Core.Path.{subst}
use squashfuse.Cache
use squashfuse.Cache.{Entry}
use squashfuse.Cache.Laws.{find-some}
use squashfuse.Format.{swapin}
use squashfuse.Block.{md_header, metadata_size, md_block_read}
use squashfuse.Block.Reads.{IsGranted, IsFresh, block_at, block_read-GaveUp}
use squashfuse.Block.Coherence.{IsCoherent}
use squashfuse.Block.Coherence.Failing.{AlwaysFails, through_cache_fails}
use squashfuse.Fs.{BlockCache, Heap, Image}
use squashfuse.Metadata.{md_entry_read, md_cache}
use squashfuse.Metadata.Stream.{md_at, IsMetadata}

module _ (img : Image) (all : IsGranted img) (pos : ℕ) (missing : md_at img pos ≡ none) where
  md_block_read_fails :
      (old : Option ℕ) (h : Heap)
      → IsFresh h
      → (e : SqfsErr) × (n : ℕ) × (new : Option ℕ) × (h' : Heap) × (md_block_read img pos old h
          ≡ done (e, n, new, h'))
        × (failed e ≡ true)
  unfolding md_block_read md_at
  md_block_read_fails old h fresh = elim (Option-cases (img.system.pread 2 (pos + img.offset))) [
    | inl nothing ↦ (err, 0, old, h, rw (nothing, md_block_read) refl, refl)
    | inr (hdr, e) ↦ elim (Bool-cases (length hdr == 2)) [
      | inr short ↦ (err, 0, old, h, rw (e, md_block_read, short) refl, refl)
      | inl whole ↦
          let (compressed, size) = md_header (swapin 2 hdr) in
          elim (Option-cases (block_at img (pos + 2) compressed size metadata_size)) [
            | inr (bytes, at) ↦ absurd (ground arith)
            | inl nothing ↦
                let g =
                  block_read-GaveUp h img all (pos + 2) compressed size metadata_size fresh
                    nothing in
                (
                  g.error,
                  2 + size,
                  none,
                  g.after,
                  rw (e, md_block_read, whole, g.returns) refl,
                  g.fails,
                )
          ]
    ]
  ]

  md_entry_read_fails : AlwaysFails (md_entry_read img pos)
  unfolding md_entry_read
  md_entry_read_fails old h fresh =
      let (e, n, new, h', run, bad) = md_block_read_fails old.block h fresh in
      (e, record { block = new; data_size = n }, h', rw run refl, bad)

  module _ (bc : BlockCache) (c : IsCoherent (IsMetadata img) bc) (behind : 0 < pos) where
    not_there : Cache.find pos 0 bc.cache.entries ≡ none
    not_there = elim (Option-cases (Cache.find pos 0 bc.cache.entries)) [
      | inl absent ↦ absent
      | inr ((i, e), found) ↦
          let (_, at, same) = find-some pos 0 i bc.cache.entries e found in
          let there : get_elem? bc.cache.entries i ≡ some e = rw (sub-zero i) at at in
          elim (Bool-cases e.valid) [
            | inr stale ↦ absurd (omega (arith, c.clean i e there stale))
            | inl valid ↦
                let o = c.owns i e there valid in
                let read : md_at img pos ≡ some (o.bytes, e.value.data_size) =
                  subst (λ k. md_at img k ≡ some (o.bytes, e.value.data_size)) same o.right in
                let both : none ≡ some (o.bytes, e.value.data_size) = sym missing ∙ read in
                absurd (ground arith)
          ]
    ]

    -- Where all allocations succeed and there is no readable metadata block at a position that is
    -- not 0, from a coherent state of the cache `sqfs_md_cache` returns an error and no block,
    -- and a second call for the same position fails an assertion.
    pub md_cache_fails :
        (e : SqfsErr) × (after : BlockCache) × (md_cache img pos bc ≡ done (e, none, pos, after))
        × (failed e ≡ true)
        × (md_cache img pos after ≡ fault assertion)
    unfolding md_cache
    md_cache_fails =
        let (e, entry, after, run, bad, again) =
          through_cache_fails (IsMetadata img) bc c pos (md_entry_read img pos) md_entry_read_fails
            not_there in
        (e, after, rw run (rw (md_cache, bad) refl), bad, rw again refl)
