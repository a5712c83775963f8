-- ===== src/Block/Coherence/Through.antt =====
-- A call through a coherent cache of blocks: whether it hits or misses, the caller holds a block with
-- the right contents, and the state is coherent again once the caller gives it back.
use squashfuse.Common.{
  ℕ, ◌<◌, ◌≡◌, refl, ◌∙◌, true, false, none, some, List, set, get_elem?, get_elem?-lt,
  get_elem?-set_self, set-set, SqfsErr, ok, Outcome, done, Bool-cases, Option-cases, inl, inr,
  arith,
}
use native.Mathlib.Nat.{sub-zero}
use squashfuse.Cache
use squashfuse.Cache.{Cache, Entry}
use mathlib.Core.Path.{subst}
use squashfuse.Cache.Misses.{filled}
use squashfuse.Cache.Laws.{
  IsValid, Absent, Absent-find, find-some, claimed, get_hit, get_miss, load_lem, entry_valid_lem,
  store_lem, entry_mark_valid_lem,
}
use squashfuse.Block.{block_cache_dispose, hold, fill_entry, through_cache}
use squashfuse.Block.Reads.{with_block}
use squashfuse.Block.Coherence.{
  counted_block, held, block_ref_lem, IsCoherent, Evicted, evict-Evicted,
}
use squashfuse.Block.Coherence.Fill.{after, after-IsCoherent, after-live}
use squashfuse.Fs.{Heap, BlockEntry, BlockCache}

-- What `read` does for an index whose contents are there: a new block and a size for the entry.
pub record Reads (Right : ℕ → ℕ → List ℕ → Type 0) (idx : ℕ)
    (read : BlockEntry → Heap → Outcome (SqfsErr × BlockEntry × Heap)) : Type 0 where
  pub bytes : List ℕ
  pub size : BlockEntry → ℕ
  pub right : (old : BlockEntry) → Right idx (size old) bytes
  pub reads :
      (old : BlockEntry) (h : Heap)
      → read old h
        ≡ done (ok, record { block = some h.next; data_size = size old }, with_block h bytes)

module _ (Right : ℕ → ℕ → List ℕ → Type 0) where
  -- The result of a call: a held block of a state that is coherent without the holder.
  pub record Holds (idx : ℕ) (r : Outcome (SqfsErr × BlockEntry × BlockCache)) : Type 0 where
    pub address : ℕ
    pub bytes : List ℕ
    pub entry : BlockEntry
    pub state : BlockCache
    pub coherent : IsCoherent Right state
    pub block : entry.block ≡ some address
    pub right : Right idx entry.data_size bytes
    pub live : state.heap.blocks address ≡ some (counted_block bytes 1)
    pub returns : r ≡ done (ok, entry, record state { heap = held state.heap address bytes })

hold_lem :
    (entry : BlockEntry) (c : Cache BlockEntry) (h : Heap) (p : ℕ) (bytes : List ℕ)
    → entry.block ≡ some p
    → h.blocks p ≡ some (counted_block bytes 1)
    → hold entry c h ≡ done (ok, entry, record { cache = c; heap = held h p bytes })
unfolding hold
hold_lem entry c h p bytes block live = rw (block, block_ref_lem h p bytes live)

module _ (bc : BlockCache) (idx : ℕ)
    (read : BlockEntry → Heap → Outcome (SqfsErr × BlockEntry × Heap)) where
  hit_lem :
      (i : ℕ) (e : Entry BlockEntry)
      → Cache.find idx 0 bc.cache.entries ≡ some (i, e)
      → get_elem? bc.cache.entries i ≡ some e
      → e.valid ≡ true
      → through_cache read idx bc ≡ hold e.value bc.cache bc.heap
  unfolding through_cache Cache.put
  hit_lem i e found there valid =
      rw (get_hit block_cache_dispose bc.cache idx i e bc.heap found valid)
        (rw (load_lem bc.cache i e there) (rw (entry_valid_lem bc.cache i e there, valid)))

module _ (Right : ℕ → ℕ → List ℕ → Type 0) (bc : BlockCache) (c : IsCoherent Right bc) (idx : ℕ)
    (pos : 0 < idx) (read : BlockEntry → Heap → Outcome (SqfsErr × BlockEntry × Heap)) where
  hit-Holds :
      (i : ℕ) (e : Entry BlockEntry)
      → get_elem? bc.cache.entries i ≡ some e
      → e.idx ≡ idx
      → e.valid ≡ true
      → Cache.find idx 0 bc.cache.entries ≡ some (i, e)
      → Holds Right idx (through_cache read idx bc)
  hit-Holds i e there same valid found =
      let o = c.owns i e there valid in
      record {
        address = o.address;
        bytes = o.bytes;
        entry = e.value;
        state = bc;
        coherent = c;
        block = o.block;
        right = subst (λ k. Right k e.value.data_size o.bytes) same o.right;
        live = o.live;
        returns =
            hit_lem bc idx read i e found there valid
            ∙ hold_lem e.value bc.cache bc.heap o.address o.bytes o.block o.live;
      }

-- The steps of a miss, over the entry e whose turn it is and the memory h after its eviction.
module _ (bc : BlockCache) (idx : ℕ)
    (read : BlockEntry → Heap → Outcome (SqfsErr × BlockEntry × Heap)) (valid : IsValid bc.cache)
    (e : Entry BlockEntry) (h h' : Heap) (entry : BlockEntry) where
  pub at_turn :
      (x : Entry BlockEntry)
      → get_elem? (set bc.cache.entries bc.cache.next x) bc.cache.next ≡ some x
  at_turn x =
      get_elem?-set_self bc.cache.entries bc.cache.next x (omega (arith, valid.width, valid.turn))

  abbrev pub unread : Entry BlockEntry
  unread = record { valid = false; idx = idx; value = entry }

  abbrev pub stored : Cache BlockEntry
  stored = record (claimed block_cache_dispose bc.cache idx e) {
    entries = set bc.cache.entries bc.cache.next unread;
  }

  pub store-claimed :
      Cache.store (claimed block_cache_dispose bc.cache idx e) bc.cache.next entry ≡ done stored
  store-claimed =
      store_lem (claimed block_cache_dispose bc.cache idx e) bc.cache.next
        (record e { valid = false; idx = idx }) (at_turn (record e { valid = false; idx = idx }))
        entry
      ∙ rw set-set

  mark_stored : Cache.entry_mark_valid stored bc.cache.next ≡ done (filled bc.cache idx entry)
  mark_stored = entry_mark_valid_lem stored bc.cache.next unread (at_turn unread) refl ∙ rw set-set

  miss_lem :
      Absent idx bc.cache.entries
      → get_elem? bc.cache.entries bc.cache.next ≡ some e
      → Cache.evict block_cache_dispose e bc.heap ≡ done h
      → read e.value h ≡ done (ok, entry, h')
      → through_cache read idx bc ≡ hold entry (filled bc.cache idx entry) h'
  unfolding through_cache fill_entry Cache.put
  miss_lem absent turn evicted does =
      let claimed_entry : Entry BlockEntry = record e { valid = false; idx = idx } in
      let c₁ = claimed block_cache_dispose bc.cache idx e in
      rw (get_miss block_cache_dispose bc.cache idx bc.heap h e valid absent turn evicted) (
        rw
          (
            load_lem c₁ bc.cache.next claimed_entry (at_turn claimed_entry),
            entry_valid_lem c₁ bc.cache.next claimed_entry (at_turn claimed_entry),
          )
          (rw (does, store-claimed, mark_stored)))

-- The reader serves its index, from any coherent state.
module _ (Right : ℕ → ℕ → List ℕ → Type 0) (bc : BlockCache) (c : IsCoherent Right bc) (idx : ℕ)
    (pos : 0 < idx) (read : BlockEntry → Heap → Outcome (SqfsErr × BlockEntry × Heap))
    (reads : Reads Right idx read) where
  miss-Holds :
      (e : Entry BlockEntry) (h : Heap) (ev : Evicted Right bc c e h)
      → get_elem? bc.cache.entries bc.cache.next ≡ some e
      → Cache.find idx 0 bc.cache.entries ≡ none
      → Holds Right idx (through_cache read idx bc)
  miss-Holds e h ev turn missing =
      let n = reads.size e.value in
      let entry : BlockEntry = record { block = some h.next; data_size = n } in
      let h' = with_block h reads.bytes in
      let right = reads.right e.value in
      let live = after-live Right bc c h e ev idx n reads.bytes right in
      record {
        address = h.next;
        bytes = reads.bytes;
        entry = entry;
        state = after Right bc c h e ev idx n reads.bytes right;
        coherent = after-IsCoherent Right bc c h e ev idx n reads.bytes right;
        block = refl;
        right = right;
        live = live;
        returns =
            miss_lem bc idx read c.cache e h h' entry (Absent-find idx 0 bc.cache.entries missing)
              turn ev.evicts (reads.reads e.value h)
            ∙ hold_lem entry (filled bc.cache idx entry) h' h.next reads.bytes refl live;
      }

  -- Hit or miss, the caller holds a block with the right contents, and the state is coherent again
  -- without the holder.
  pub through_cache-Holds : Holds Right idx (through_cache read idx bc)
  through_cache-Holds = elim (Option-cases (Cache.find idx 0 bc.cache.entries)) [
    | inl missing ↦
        let (e, turn) =
          get_elem?-lt bc.cache.entries bc.cache.next
            (omega (arith, c.cache.width, c.cache.turn)) in
        let (h, ev) = evict-Evicted Right bc c e turn in miss-Holds e h ev turn missing
    | inr ((i, e), found) ↦
        let (_, at, same) = find-some idx 0 i bc.cache.entries e found in
        let there : get_elem? bc.cache.entries i ≡ some e = rw (sub-zero i) at at in
        elim (Bool-cases e.valid) [
          | inr stale ↦ absurd (omega (arith, c.clean i e there stale))
          | inl valid ↦ hit-Holds Right bc c idx pos read i e there same valid found
        ]
  ]
