-- ===== src/Block/Coherence/Fill.antt =====
-- Filling the entry whose turn it is with a new block keeps the state coherent.
use squashfuse.Common.{
  ℕ, ◌+◌, ◌<◌, ◌≡◌, refl, sym, ap, ◌∙◌, ◌≢◌, true, false, some, List, length, get_elem?,
  get_elem?-set_self, get_elem?-set_ne, length-set, ◌==◌, ==_iff, Bool-cases, inl, inr, arith,
}
use native.Mathlib.Nat.{mod-lt}
use squashfuse.Cache.{Entry}
use squashfuse.Cache.Misses.{filled}
use squashfuse.Block.Reads.{with_block}
use squashfuse.Block.Coherence.{counted_block, Owns, IsCoherent, Evicted, es}
use squashfuse.Fs.{Heap, BlockEntry, BlockCache}

module _ (Right : ℕ → ℕ → List ℕ → Type 0) (bc : BlockCache) (c : IsCoherent Right bc) (h : Heap)
    (e : Entry BlockEntry) (ev : Evicted Right bc c e h) (idx n : ℕ) (bytes : List ℕ)
    (right : Right idx n bytes) where
  abbrev new : Entry BlockEntry
  new = record { valid = true; idx = idx; value = record { block = some h.next; data_size = n } }

  abbrev pub after : BlockCache
  after = record {
    cache = filled bc.cache idx (record { block = some h.next; data_size = n });
    heap = with_block h bytes;
  }

  turn-lt : bc.cache.next < length (es Right bc c)
  turn-lt = omega (arith, c.cache.width, c.cache.turn)

  -- An entry of the new array is the new one, or one of before.
  data From (i : ℕ) (d : Entry BlockEntry) : Type 0 where
    fresh_entry : i ≡ bc.cache.next → d ≡ new → From i d
    old_entry : i ≢ bc.cache.next → get_elem? (es Right bc c) i ≡ some d → From i d

  origin : (i : ℕ) (d : Entry BlockEntry) → get_elem? after.cache.entries i ≡ some d → From i d
  origin i d there = elim (Bool-cases (i == bc.cache.next)) [
    | inl same ↦
        let e' = (==_iff i bc.cache.next).0 same in
        let self = get_elem?-set_self (es Right bc c) bc.cache.next new turn-lt in
        let found : get_elem? after.cache.entries bc.cache.next ≡ some d = rw e' at there in
        fresh_entry e' (cc)
    | inr other ↦
        let ne : i ≢ bc.cache.next = ground arith in
        old_entry ne
          (sym (get_elem?-set_ne (es Right bc c) bc.cache.next i new (λ x. ne (sym x))) ∙ there)
  ]

  new-Owns : (d : Entry BlockEntry) → d ≡ new → Owns Right after.heap d
  new-Owns d same =
      rw same (record {
        address = h.next;
        bytes = bytes;
        block = refl;
        live = ground arith;
        right = right;
      })

  old-Owns :
      (i : ℕ) (d : Entry BlockEntry)
      → i ≢ bc.cache.next
      → get_elem? (es Right bc c) i ≡ some d
      → d.valid ≡ true
      → Owns Right after.heap d × ((p : ℕ) → d.value.block ≡ some p → p < h.next)
  old-Owns i d other there valid =
      let o = ev.others i d there valid other in
      let below : o.address < h.next = ground (arith, o.live, ev.fresh.unused o.address) in
      (
        record {
          address = o.address;
          bytes = o.bytes;
          block = o.block;
          live = ground (arith, o.live);
          right = o.right;
        },
        λ p same. ground (arith, o.block),
      )

  after-Owns : (i : ℕ) (d : Entry BlockEntry) → From i d → d.valid ≡ true → Owns Right after.heap d
  after-Owns i d (fresh_entry at same) valid = new-Owns d same
  after-Owns i d (old_entry other there) valid = (old-Owns i d other there valid).0

  apart_after :
      (i j : ℕ) (d f : Entry BlockEntry)
      → From i d
      → From j f
      → d.valid ≡ true
      → f.valid ≡ true
      → d.value.block ≡ f.value.block
      → i ≡ j
  apart_after i j d f (fresh_entry at same) (fresh_entry at' same') dv fv shared = at ∙ sym at'
  apart_after i j d f (old_entry other there) (old_entry other' there') dv fv shared =
      c.apart i j d f there there' dv fv shared
  apart_after i j d f (fresh_entry at same) (old_entry other there) dv fv shared =
      let mine : d.value.block ≡ some h.next = ap (λ (t : Entry BlockEntry). t.value.block) same in
      absurd (omega (arith, (old-Owns j f other there fv).1 h.next (sym shared ∙ mine)))
  apart_after i j d f (old_entry other there) (fresh_entry at same) dv fv shared =
      let mine : f.value.block ≡ some h.next = ap (λ (t : Entry BlockEntry). t.value.block) same in
      absurd (omega (arith, (old-Owns i d other there dv).1 h.next (shared ∙ mine)))

  clean_after : (i : ℕ) (d : Entry BlockEntry) → From i d → d.valid ≡ false → d.idx ≡ 0
  clean_after i d (fresh_entry at same) invalid =
      absurd (ground (arith, ap (λ (t : Entry BlockEntry). t.valid) same))
  clean_after i d (old_entry other there) invalid = c.clean i d there invalid

  pub after-IsCoherent : IsCoherent Right after
  after-IsCoherent = record {
    cache = record {
      some_entries = c.cache.some_entries;
      width = length-set (es Right bc c) bc.cache.next new ∙ c.cache.width;
      turn = mod-lt (bc.cache.next + 1) c.cache.some_entries;
    };
    fresh = record { unused = λ q le. ground (arith, ev.fresh.unused q) };
    owns = λ i d there. after-Owns i d (origin i d there);
    apart = λ i j d f there there'. apart_after i j d f (origin i d there) (origin j f there');
    clean = λ i d there. clean_after i d (origin i d there);
  }

  pub after-live : after.heap.blocks h.next ≡ some (counted_block bytes 1)
  after-live = ground arith
