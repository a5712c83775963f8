-- ===== src/Block/Coherence/Failing.antt =====
-- A block that cannot be read, asked for twice through a cache.
use squashfuse.Common.{
  ℕ, ◌≡◌, refl, ◌∙◌, true, false, none, some, List, get_elem?-lt, SqfsErr, failed, Outcome, done,
  fault, assertion, arith,
}
use native.Mathlib.Nat.{zero-add}
use squashfuse.Cache
use squashfuse.Cache.{Cache, Entry}
use squashfuse.Cache.Laws.{Absent-find, find-set, claimed, get_miss, load_lem, entry_valid_lem}
use squashfuse.Block.{block_cache_dispose, fill_entry, through_cache}
use squashfuse.Block.Reads.{IsFresh}
use squashfuse.Block.Coherence.{IsCoherent, evict-Evicted}
use squashfuse.Block.Coherence.Through.{stored, store-claimed, unread, at_turn}
use squashfuse.Fs.{Heap, BlockEntry, BlockCache}

-- A reader that returns an error wherever it starts.
abbrev pub AlwaysFails : (BlockEntry → Heap → Outcome (SqfsErr × BlockEntry × Heap)) → Type 0
AlwaysFails read =
    (old : BlockEntry) (h : Heap)
    → IsFresh h
    → (e : SqfsErr) × (new : BlockEntry) × (h' : Heap) × (read old h ≡ done (e, new, h'))
      × (failed e ≡ true)

get_stale :
    (c : Cache BlockEntry) (idx i : ℕ) (e : Entry BlockEntry) (h : Heap)
    → Cache.find idx 0 c.entries ≡ some (i, e)
    → e.valid ≡ false
    → Cache.get block_cache_dispose c idx h ≡ fault assertion
unfolding Cache.get
get_stale c idx i e h found stale = rw (found, Cache.get, stale) refl

module _ (Right : ℕ → ℕ → List ℕ → Type 0) (bc : BlockCache) (c : IsCoherent Right bc) (idx : ℕ)
    (read : BlockEntry → Heap → Outcome (SqfsErr × BlockEntry × Heap))
    (fails : AlwaysFails read) where
  pub through_cache_fails :
      Cache.find idx 0 bc.cache.entries ≡ none
      → (e : SqfsErr) × (entry : BlockEntry) × (after : BlockCache) × (through_cache read idx bc
          ≡ done (e, entry, after))
        × (failed e ≡ true)
        × (through_cache read idx after ≡ fault assertion)
  unfolding through_cache fill_entry Cache.put
  through_cache_fails missing =
      let absent = Absent-find idx 0 bc.cache.entries missing in
      let (x, turn) =
        get_elem?-lt bc.cache.entries bc.cache.next (omega (arith, c.cache.width, c.cache.turn)) in
      let (h, ev) = evict-Evicted Right bc c x turn in
      let (e, new, h', reads, bad) = fails x.value h ev.fresh in
      let after_claim = claimed block_cache_dispose bc.cache idx x in
      let claimed_entry : Entry BlockEntry = record x { valid = false; idx = idx } in
      let in_turn = at_turn bc idx read c.cache x h h' new claimed_entry in
      let last = stored bc idx read c.cache x h h' new in
      let there : Cache.find idx 0 last.entries
          ≡ some (bc.cache.next, unread bc idx read c.cache x h h' new) =
        find-set idx 0 bc.cache.next bc.cache.entries (unread bc idx read c.cache x h h' new) absent
          (omega (arith, c.cache.width, c.cache.turn)) refl
        ∙ rw (zero-add bc.cache.next) refl in
      (
        e,
        new,
        record { cache = last; heap = h' },
        rw (get_miss block_cache_dispose bc.cache idx bc.heap h x c.cache absent turn ev.evicts) (
            rw
              (
                load_lem after_claim bc.cache.next claimed_entry in_turn,
                entry_valid_lem after_claim bc.cache.next claimed_entry in_turn,
              )
              (rw (reads, store-claimed bc idx read c.cache x h h' new, bad) refl)),
        bad,
        rw (get_stale last idx bc.cache.next (unread bc idx read c.cache x h h' new) h' there refl)
            refl,
      )
