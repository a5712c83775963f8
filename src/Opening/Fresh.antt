-- ===== src/Opening/Fresh.antt =====
-- The caches of a file system that was just opened hold nothing, so nothing wrong.
use squashfuse.Common.{
  ℕ, zero, suc, ◌+◌, ◌*◌, ◌<◌, ◌≡◌, refl, sym, ap, Bool, false, none, some, List, replicate,
  get_elem?, arith, inl, inr, Bool-cases, Option-cases, length-replicate,
}
use mathlib.Core.Path.{subst}
use mathlib.Core.Option.{some-injective}
use squashfuse.Actions.Rules.{IsSound}
use squashfuse.Block.Coherence.{IsCoherent}
use squashfuse.Cache
use squashfuse.Cache.{Cache, Entry, internal_bytes, header_bytes}
use squashfuse.Fs.{Image, BlockEntry, BlockCache, Caches}
use squashfuse.File.Index.{blockidx_init}
use squashfuse.Opening.{block_cache_init, init_caches, no_blocks}

abbrev empty_entry : Entry BlockEntry
empty_entry = record { valid = false; idx = 0; value = record { block = none; data_size = 0 } }

abbrev fresh : ℕ → BlockCache
fresh n = record {
  cache = record { count = n; next = 0; entries = replicate n empty_entry };
  heap = no_blocks;
}

only_empty :
    (n i : ℕ) (e : Entry BlockEntry)
    → get_elem? (replicate n empty_entry) i ≡ some e
    → e ≡ empty_entry
only_empty zero i e h = absurd (ground arith)
only_empty (suc n) zero e h = sym (some-injective empty_entry e h)
only_empty (suc n) (suc i) e h = only_empty n i e h

fresh-IsCoherent : (right : ℕ → ℕ → List ℕ → Type 0) (n : ℕ) → 0 < n → IsCoherent right (fresh n)
fresh-IsCoherent right n some_entries =
    let not_valid =
      λ (i : ℕ) (e : Entry BlockEntry) (there : get_elem? (replicate n empty_entry) i ≡ some e).
        ap (λ (x : Entry BlockEntry). x.valid) (only_empty n i e there) in
    record {
      cache = record {
        some_entries = some_entries;
        width = length-replicate n empty_entry;
        turn = some_entries;
      };
      fresh = record { unused = λ q le. refl };
      owns = λ i e there valid. absurd (ground (arith, not_valid i e there, valid));
      apart = λ i j d e there there' valid. absurd (ground (arith, not_valid i d there, valid));
      clean = λ i e there invalid. ap (λ (x : Entry BlockEntry). x.idx) (only_empty n i e there);
    }

block_cache_init_lem :
    (grants : ℕ → Bool) (n : ℕ) (bc : BlockCache)
    → block_cache_init grants n ≡ some bc
    → bc ≡ fresh n
unfolding block_cache_init Cache.init
block_cache_init_lem grants n bc h = elim (Bool-cases (grants internal_bytes)) [
  | inr miss ↦ absurd (ground (arith, rw (block_cache_init, Cache.init, miss) at h))
  | inl first ↦ elim (Bool-cases (grants (n * (16 + header_bytes)))) [
    | inr miss ↦ absurd (ground (arith, rw (block_cache_init, Cache.init, first, miss) at h))
    | inl both ↦
        sym (some-injective (fresh n) bc (rw (block_cache_init, Cache.init, first, both) at h))
  ]
]

pub init_caches-IsSound :
    (img : Image) (hdr_of : ℕ → ℕ) (grants : ℕ → Bool) (s : Caches)
    → init_caches grants ≡ some s
    → IsSound img hdr_of s
unfolding init_caches
init_caches-IsSound img hdr_of grants s h = elim (Option-cases (block_cache_init grants 8)) [
  | inl miss ↦ absurd (ground (arith, rw (init_caches, miss) at h))
  | inr (md, e₁) ↦ elim (Option-cases (block_cache_init grants 1)) [
    | inl miss ↦ absurd (ground (arith, rw (init_caches, e₁, miss) at h))
    | inr (blocks, e₂) ↦ elim (Option-cases (block_cache_init grants 3)) [
      | inl miss ↦ absurd (ground (arith, rw (init_caches, e₁, e₂, miss) at h))
      | inr (frags, e₃) ↦ elim (Option-cases (blockidx_init grants).1) [
        | inl miss ↦ absurd (ground (arith, rw (init_caches, e₁, e₂, e₃, miss) at h))
        | inr (index, e₄) ↦
            let made : Caches = record {
              md = md;
              data_blocks = blocks;
              fragments = frags;
              blockidx = index;
            } in
            let same : made ≡ s = some-injective made s (rw (init_caches, e₁, e₂, e₃, e₄) at h) in
            subst (IsSound img hdr_of) same (record {
              md = coherent 8 md e₁ (omega arith);
              data_blocks = coherent 1 blocks e₂ (omega arith);
              fragments = coherent 3 frags e₃ (omega arith);
            })
      ]
    ]
  ]
]
  where
    coherent :
        {right : ℕ → ℕ → List ℕ → Type 0} (n : ℕ) (bc : BlockCache)
        → block_cache_init grants n ≡ some bc
        → 0 < n
        → IsCoherent right bc
    coherent {right} n bc e some_entries =
        subst (IsCoherent right) (sym (block_cache_init_lem grants n bc e))
          (fresh-IsCoherent right n some_entries)
