-- ===== src/Block/Coherence.antt =====
-- The state of a cache of blocks between calls: every valid entry owns one live block, which has the
-- right contents and no other reference, and no two entries own the same block.
pub mod Fill
pub mod Through
pub mod Failing
use squashfuse.Common.{
  ℕ, zero, suc, ◌+◌, ◌-◌, ◌≤◌, ◌<◌, ◌≡◌, refl, sym, ap, ◌∙◌, ◌≢◌, fun_ext, Bool, true, false,
  Option, none, some, List, [], ◌∷◌, set, length, get_elem?, get_elem?-set_self, get_elem?-set_ne,
  get_elem?-lt, set-set, length-set, SqfsErr, ok, failed, Outcome, done, ◌>>=◌, ◌==◌, ==_iff,
  if◌then◌else◌, Bool-cases, Option-cases, inl, inr, arith,
}
use squashfuse.Cache
use squashfuse.Cache.{Cache, Entry}
use squashfuse.Cache.Laws.{IsValid, Absent, Absent-find, claimed, get_hit, get_miss, turn-lt}
use squashfuse.Block.{
  update, deref, block_ref, block_dispose, block_cache_dispose, hold, fill_entry, through_cache,
}
use squashfuse.Block.Reads.{IsFresh, with_block}
use squashfuse.Fs.{Block, Heap, BlockEntry, BlockCache}

-- A block of these bytes with n references.
abbrev pub counted_block : List ℕ → ℕ → Block
counted_block bytes n = record { size = length bytes; bytes = bytes; refcount = n }

-- The heap while a caller holds the block at p.
abbrev pub held : Heap → ℕ → List ℕ → Heap
held h p bytes = record h { blocks = update h.blocks p (some (counted_block bytes 2)) }

module _ (h : Heap) (p : ℕ) (bytes : List ℕ)
    (live : h.blocks p ≡ some (counted_block bytes 1)) where
  pub block_ref_lem : block_ref (some p) h ≡ done (held h p bytes)
  unfolding block_ref deref
  block_ref_lem = rw (live, deref)

  pub deref-held : deref (held h p bytes) (some p) ≡ done (p, counted_block bytes 2)
  unfolding deref
  deref-held = ground arith

  -- Giving the reference back restores the memory as it was.
  pub block_dispose-held : block_dispose (some p) (held h p bytes) ≡ done h
  unfolding block_dispose deref
  block_dispose-held =
      let same : (q : ℕ)
          → update (held h p bytes).blocks p (some (counted_block bytes 1)) q ≡ h.blocks q =
        (λ q. ground arith) in
      rw deref-held (ap (λ f. done (record { next = h.next; blocks = f })) (fun_ext same))

  block_dispose_last :
      block_dispose (some p) h ≡ done (record h { blocks = update h.blocks p none })
  unfolding block_dispose deref
  block_dispose_last = rw (live, deref)

-- `Right idx n bytes`: an entry of that index should hold these bytes and the size n.
module _ (Right : ℕ → ℕ → List ℕ → Type 0) where
  pub record Owns (h : Heap) (e : Entry BlockEntry) : Type 0 where
    pub address : ℕ
    pub bytes : List ℕ
    pub block : e.value.block ≡ some address
    pub live : h.blocks address ≡ some (counted_block bytes 1)
    pub right : Right e.idx e.value.data_size bytes

  -- An index other than 0 stands in valid entries only: no read of it has failed.
  pub record IsCoherent (bc : BlockCache) : Type 0 where
    pub cache : IsValid bc.cache
    pub fresh : IsFresh bc.heap
    pub owns :
        (i : ℕ) (e : Entry BlockEntry)
        → get_elem? bc.cache.entries i ≡ some e
        → e.valid ≡ true
        → Owns bc.heap e
    pub apart :
        (i j : ℕ) (d e : Entry BlockEntry)
        → get_elem? bc.cache.entries i ≡ some d
        → get_elem? bc.cache.entries j ≡ some e
        → d.valid ≡ true
        → e.valid ≡ true
        → d.value.block ≡ e.value.block
        → i ≡ j
    pub clean :
        (i : ℕ) (e : Entry BlockEntry)
        → get_elem? bc.cache.entries i ≡ some e
        → e.valid ≡ false
        → e.idx ≡ 0

module _ (Right : ℕ → ℕ → List ℕ → Type 0) (bc : BlockCache) (c : IsCoherent Right bc) where
  abbrev pub es : List (Entry BlockEntry)
  es = bc.cache.entries

  -- Making room for an entry: the memory afterwards, and what it still holds.
  pub record Evicted (e : Entry BlockEntry) (h : Heap) : Type 0 where
    pub evicts : Cache.evict block_cache_dispose e bc.heap ≡ done h
    pub next : h.next ≡ bc.heap.next
    pub fresh : IsFresh h
    pub others :
        (i : ℕ) (d : Entry BlockEntry)
        → get_elem? es i ≡ some d
        → d.valid ≡ true
        → i ≢ bc.cache.next
        → Owns Right h d

  pub evict-Evicted :
      (e : Entry BlockEntry) → get_elem? es bc.cache.next ≡ some e → (h : Heap) × Evicted e h
  unfolding Cache.evict block_cache_dispose
  evict-Evicted e turn = elim (Bool-cases e.valid) [
    | inr empty ↦ (
      bc.heap,
      record {
        evicts = rw empty;
        next = refl;
        fresh = c.fresh;
        others = λ i d there valid other. c.owns i d there valid;
      },
    )
    | inl valid ↦
        let o = c.owns bc.cache.next e turn valid in
        (
          record bc.heap { blocks = update bc.heap.blocks o.address none },
          record {
            evicts = rw (valid, o.block) (block_dispose_last bc.heap o.address o.bytes o.live);
            next = refl;
            fresh = record { unused = λ q le. ground (arith, c.fresh.unused q le) };
            others = λ i d there dv other.
                let u = c.owns i d there dv in
                let differ : u.address ≢ o.address = (λ same. other (
                  c.apart i bc.cache.next d e there turn dv valid
                    (u.block ∙ ap some same ∙ sym o.block))) in
                record {
                  address = u.address;
                  bytes = u.bytes;
                  block = u.block;
                  live = ground (arith, u.live);
                  right = u.right;
                };
          },
        )
  ]
