-- ===== src/Actions.antt =====
-- How the functions above the metadata are written: a call acts on the caches of an open file
-- system and ends in an answer or in an error of common.h, as `if ((err = ...)) return err` does.
pub mod Rules
use squashfuse.Common.{
  ℕ, Bool, true, false, Option, none, some, List, SqfsErr, failed, Fault, Outcome, done, fault,
  if◌then◌else◌,
}
use squashfuse.Fs.{Image, Table, Cursor, Caches, BlockCache}
use squashfuse.Metadata.{md_read}
use squashfuse.Tables.{table_get}

-- What a call without a fault ends in. What an error leaves in an out-parameter is not used by
-- any caller, so it is no part of the model.
pub data Answer (A : Type 0) : Type 0 where
  got : A → Answer A
  failure : SqfsErr → Answer A

abbrev pub Action : Type 0 → Type 0
Action A = Caches → Outcome (Answer A × Caches)

module _ {A B : Type 0} where
  abbrev pub chain : Outcome (Answer A × Caches) → (A → Action B) → Outcome (Answer B × Caches)
  chain (fault e) f = fault e
  chain (done (got a, s)) f = f a s
  chain (done (failure e, s)) f = done (failure e, s)

infixl 5 ◌>>=◌
abbrev pub ◌>>=◌ : {A B : Type 0} → Action A → (A → Action B) → Action B
◌>>=◌ m f s = chain (m s) f

module _ {A : Type 0} where
  abbrev pub pure : A → Action A
  pure a s = done (got a, s)

  abbrev pub fail : SqfsErr → Action A
  fail e s = done (failure e, s)

  abbrev pub crash : Fault → Action A
  crash e s = fault e

  -- A call that the caller sees by its error code, the answer and the cache of metadata.
  abbrev answer_of : Outcome (SqfsErr × A × BlockCache) → Caches → Outcome (Answer A × Caches)
  answer_of (fault e) s = fault e
  answer_of (done (e, a, bc)) s = done (if failed e then failure e else got a, record s { md = bc })

  abbrev pub of_md : (BlockCache → Outcome (SqfsErr × A × BlockCache)) → Action A
  of_md f s = answer_of (f s.md) s

abbrev swap_results :
    Outcome (SqfsErr × Cursor × List ℕ × BlockCache)
    → Outcome (SqfsErr × (List ℕ × Cursor) × BlockCache)
swap_results (fault e) = fault e
swap_results (done (e, cur, bytes, bc)) = done (e, (bytes, cur), bc)

abbrev only_cursor :
    Outcome (SqfsErr × Cursor × List ℕ × BlockCache) → Outcome (SqfsErr × Cursor × BlockCache)
only_cursor (fault e) = fault e
only_cursor (done (e, cur, bytes, bc)) = done (e, cur, bc)

module _ (img : Image) where
  -- `sqfs_md_read` of so many bytes, with the cursor behind them.
  unfoldable pub md_bytes : Cursor → ℕ → Action (List ℕ × Cursor)
  md_bytes cur size = of_md (λ bc. swap_results (md_read img true cur size bc))

  -- The same into a null `buf`.
  unfoldable pub md_skip : Cursor → ℕ → Action Cursor
  md_skip cur size = of_md (λ bc. only_cursor (md_read img false cur size bc))

  unfoldable pub table_bytes : Table → ℕ → Action (List ℕ)
  table_bytes t idx = of_md (table_get img t idx)
