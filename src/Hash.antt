-- ===== src/Hash.antt =====
-- hash.c and hash.h: a chained hash table from 32-bit keys to values of one size.
-- A bucket is the list of its entries, the newest first; the array of buckets is a list of such
-- lists, and the null array is the empty list. What `sqfs_hash_get` returns a pointer to is the
-- value in the first entry under the key; a caller's write through that pointer is `assign`.
pub mod Buckets
pub mod Laws
pub mod Writes
pub mod Doubling
use squashfuse.Common.{
  ℕ, zero, suc, ◌+◌, ◌-◌, ◌*◌, ◌%◌, ◌^◌, Bool, true, false, Option, none, some, List, [], ◌∷◌,
  replicate, set, get_elem?, SqfsErr, ok, err, failed, Outcome, done, fault, out_of_bounds, ◌>>=◌,
  leb, ◌==◌, if◌then◌else◌, length,
}
use Prim.Native.Nat.{bit_and}

abbrev pub size_mod : ℕ
size_mod = 2 ^ 64

-- `sizeof(sqfs_hash_bucket)` and `sizeof(sqfs_hash_bucket*)` on a 64-bit system.
abbrev pub bucket_bytes : ℕ
bucket_bytes = 16

abbrev pub pointer_bytes : ℕ
pointer_bytes = 8

abbrev pub Chain : Type 0 → Type 0
Chain V = List (ℕ × V)

pub record Hash (V : Type 0) : Type 0 where
  pub value_size : ℕ
  pub capacity : ℕ
  pub size : ℕ
  pub buckets : List (Chain V)

-- `k & (h->capacity - 1)`, where the subtraction wraps around.
unfoldable pub slot : ℕ → ℕ → ℕ
slot k capacity = bit_and k ((capacity + size_mod - 1) % size_mod)

module _ {V : Type 0} where
  -- The bucket that an index reads.
  unfoldable pub bucket : Hash V → ℕ → Outcome (Chain V)
  bucket h i = elim (get_elem? h.buckets i) [ none ↦ fault out_of_bounds | some c ↦ done c ]

  -- The walk of `sqfs_hash_get` along a chain.
  unfoldable pub chain_get : ℕ → Chain V → Option V
  chain_get k [] = none
  chain_get k (e ∷ c) = if e.0 == k then some e.1 else chain_get k c

  -- The walk of `sqfs_hash_remove`: the chain without the first entry under the key.
  unfoldable pub chain_remove : ℕ → Chain V → Chain V
  chain_remove k [] = []
  chain_remove k (e ∷ c) = if e.0 == k then c else e ∷ chain_remove k c

  -- A caller's write to the value that `chain_get` finds.
  unfoldable pub chain_assign : ℕ → V → Chain V → Chain V
  chain_assign k v [] = []
  chain_assign k v (e ∷ c) = if e.0 == k then (e.0, v) ∷ c else e ∷ chain_assign k v c

  unfoldable pub get : Hash V → ℕ → Outcome (Option V)
  get h k = do c ← bucket h (slot k h.capacity); done (chain_get k c)

  unfoldable pub assign : Hash V → ℕ → V → Outcome (Hash V)
  assign h k v = do
    c ← bucket h (slot k h.capacity)
    done (record h { buckets = set h.buckets (slot k h.capacity) (chain_assign k v c) })

  -- The size goes down by one when an entry was found, in 64 bits.
  unfoldable pub remove : Hash V → ℕ → Outcome (SqfsErr × Hash V)
  remove h k = do
    c ← bucket h (slot k h.capacity)
    elim (chain_get k c) [
      | none ↦ done (ok, h)
      | some _ ↦ done (
        ok,
        record h {
          buckets = set h.buckets (slot k h.capacity) (chain_remove k c);
          size = (h.size + size_mod - 1) % size_mod;
        },
      )
    ]

-- `grants n` says whether an allocation of n bytes succeeds.
module _ {V : Type 0} (grants : ℕ → Bool) where
  unfoldable pub add_internal : Hash V → ℕ → V → Outcome (SqfsErr × Hash V)
  add_internal h k v =
      let i = slot k h.capacity in
      if grants (bucket_bytes + h.value_size)
      then (do
        c ← bucket h i
        done (
          ok,
          record h { buckets = set h.buckets i ((k, v) ∷ c); size = (h.size + 1) % size_mod },
        ))
      else done (err, h)

  -- `memset` clears the table before anything else, so a failure leaves it empty.
  unfoldable pub init : ℕ → ℕ → SqfsErr × Hash V
  init vsize initial =
      let cleared : Hash V = record { value_size = 0; capacity = 0; size = 0; buckets = [] } in
      if bit_and initial ((initial + size_mod - 1) % size_mod) == 0
      then (if grants (initial * pointer_bytes)
          then (
            ok,
            record {
              value_size = vsize;
              capacity = initial;
              size = 0;
              buckets = replicate initial [];
            },
          )
          else (err, cleared))
      else (err, cleared)

  -- The inner loop of `sqfs_hash_double`: after a failure the remaining entries are only freed.
  unfoldable pub move_chain : SqfsErr → Chain V → Hash V → Outcome (SqfsErr × Hash V)
  move_chain e [] h = done (e, h)
  move_chain e ((k, v) ∷ c) h = do
    (e', h') ← (if failed e then done (e, h) else add_internal h k v)
    move_chain e' c h'

  -- The outer loop, over the old buckets.
  unfoldable pub move_all : SqfsErr → List (Chain V) → Hash V → Outcome (SqfsErr × Hash V)
  move_all e [] h = done (e, h)
  move_all e (c ∷ cs) h = do (e', h') ← move_chain e c h; move_all e' cs h'

  unfoldable pub double : Hash V → Outcome (SqfsErr × Hash V)
  double h =
      let (e, fresh) = init h.value_size (h.capacity * 2 % size_mod) in
      if failed e then done (e, fresh) else move_all e h.buckets fresh

  unfoldable pub add : Hash V → ℕ → V → Outcome (SqfsErr × Hash V)
  add h k v =
      if leb h.capacity h.size
      then (do (e, h') ← double h; if failed e then done (e, h') else add_internal h' k v)
      else add_internal h k v
