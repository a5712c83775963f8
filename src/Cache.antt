-- ===== src/Cache.antt =====
-- cache.c and cache.h: a cache of `count` entries with linear search and eviction in turn.
-- The pointer to an entry is its index. `V` is what a client keeps in an entry, `W` what the
-- client's `dispose` callback acts on, and `blank` a `V` of zero bytes.
pub mod Laws
pub mod Misses
pub mod Sequences
use squashfuse.Common.{
  ℕ, zero, suc, ◌+◌, ◌*◌, ◌%◌, Bool, true, false, Option, none, some, List, [], ◌∷◌, replicate, set,
  get_elem?, SqfsErr, ok, err, Outcome, done, fault, assertion, out_of_bounds, division_by_zero,
  ◌>>=◌, ◌==◌, if◌then◌else◌,
}

-- `sizeof(sqfs_cache_internal)` and `sizeof(sqfs_cache_entry_hdr)` on a 64-bit system.
abbrev pub internal_bytes : ℕ
internal_bytes = 40

abbrev pub header_bytes : ℕ
header_bytes = 16

pub record Entry (V : Type 0) : Type 0 where
  pub valid : Bool
  pub idx : ℕ
  pub value : V

pub record Cache (V : Type 0) : Type 0 where
  pub count : ℕ
  pub next : ℕ
  pub entries : List (Entry V)

module _ {V : Type 0} where
  -- `sqfs_cache_init`: `calloc` gives entries of zero bytes. `none` is the null pointer.
  unfoldable pub init : (ℕ → Bool) → V → ℕ → ℕ → SqfsErr × Option (Cache V)
  init grants blank size count =
      let empty : Entry V = record { valid = false; idx = 0; value = blank } in
      if grants internal_bytes
      then (if grants (count * (size + header_bytes))
          then (ok, some (record { count = count; next = 0; entries = replicate count empty }))
          else (err, none))
      else (err, none)

  -- The search loop of `sqfs_cache_get`, from entry i on.
  unfoldable pub find : ℕ → ℕ → List (Entry V) → Option (ℕ × Entry V)
  find idx i [] = none
  find idx i (e ∷ es) = if e.idx == idx then some (i, e) else find idx (suc i) es

  unfoldable pub entry_valid : Cache V → ℕ → Outcome Bool
  entry_valid c i = elim (get_elem? c.entries i) [
    | none ↦ fault out_of_bounds
    | some e ↦ done e.valid
  ]

  -- A client's read and write of its part of an entry.
  unfoldable pub load : Cache V → ℕ → Outcome V
  load c i = elim (get_elem? c.entries i) [ none ↦ fault out_of_bounds | some e ↦ done e.value ]

  unfoldable pub store : Cache V → ℕ → V → Outcome (Cache V)
  store c i v = elim (get_elem? c.entries i) [
    | none ↦ fault out_of_bounds
    | some e ↦ done (record c { entries = set c.entries i (record e { value = v }) })
  ]

  unfoldable pub entry_mark_valid : Cache V → ℕ → Outcome (Cache V)
  entry_mark_valid c i = elim (get_elem? c.entries i) [
    | none ↦ fault out_of_bounds
    | some e ↦
        if e.valid
        then fault assertion
        else done (record c { entries = set c.entries i (record e { valid = true }) })
  ]

  -- `sqfs_cache_put` does nothing without threads.
  unfoldable pub put : Cache V → ℕ → Cache V
  put c i = c

module _ {V W : Type 0} (dispose : V → W → Outcome W) where
  -- The value of an entry goes through the callback if the entry is valid.
  unfoldable pub evict : Entry V → W → Outcome W
  evict e w = if e.valid then dispose e.value w else done w

  -- `sqfs_cache_get` past its search loop: the entry whose turn it is becomes the new one.
  unfoldable pub claim : Cache V → ℕ → W → Outcome (ℕ × Cache V × W)
  claim c idx w =
      let turn = (c.next + 1) % c.count in
      if c.count == 0 then fault division_by_zero else elim (get_elem? c.entries c.next) [
        | none ↦ fault out_of_bounds
        | some e ↦ do
          w' ← evict e w
          done (
            c.next,
            record c {
              next = turn;
              entries = set c.entries c.next (record e { valid = false; idx = idx });
            },
            w',
          )
      ]

  unfoldable pub get : Cache V → ℕ → W → Outcome (ℕ × Cache V × W)
  get c idx w = elim (find idx 0 c.entries) [
    | some (i, e) ↦ if e.valid then done (i, c, w) else fault assertion
    | none ↦ claim c idx w
  ]

  unfoldable pub dispose_all : List (Entry V) → W → Outcome W
  dispose_all [] w = done w
  dispose_all (e ∷ es) w = do w' ← evict e w; dispose_all es w'

  -- `sqfs_cache_destroy` leaves the null pointer.
  unfoldable pub destroy : Option (Cache V) → W → Outcome (Option (Cache V) × W)
  destroy none w = done (none, w)
  destroy (some c) w = do w' ← dispose_all c.entries w; done (none, w')
