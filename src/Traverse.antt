-- ===== src/Traverse.antt =====
-- traverse.c and traverse.h: walking a tree of directories, with a stack of the directories that
-- are being read and the path of the current entry.
pub mod Buffer
pub mod Paths
pub mod States
use squashfuse.Common.{
  ℕ, zero, suc, ◌+◌, ◌-◌, Bool, true, false, Option, none, some, List, [], ◌∷◌, get_elem?, set,
  SqfsErr, ok, err, failed, Outcome, done, fault, out_of_bounds, out_of_fuel, ltb, ◌==◌,
  if◌then◌else◌,
}
use squashfuse.Actions.{Answer, got, failure, Action, ◌>>=◌, pure, fail, crash}
use squashfuse.Directory.{Dir, Dirent, dir_start, dir_next}
use squashfuse.Fs.{Image, Caches}
use squashfuse.Inode.{Inode, inode_get, kind, mode_of_kind, has_type, s_ifdir}
use squashfuse.Stack
use squashfuse.Stack.{Stack, push, top, pop}
use squashfuse.Traverse.Buffer.{PathBuffer, path_init, path_add, path_remove}

-- The values of `state`.
pub data State : Type 0 where
  descend_entry name_remove error finished ascend_level name_add get_entry : State

pub record Level : Type 0 where
  pub dir : Dir
  pub name_size : ℕ

pub record Traverse : Type 0 where
  pub dir_end : Bool
  pub entry : Dirent
  pub state : State
  pub stack : Stack Level (Unit {0})
  pub path : PathBuffer
  pub path_last_size : ℕ

-- `sizeof(sqfs_traverse_level)`.
abbrev pub level_size : ℕ
level_size = 56

-- "/".
abbrev pub separator : List ℕ
separator = 47 ∷ []

-- `sqfs_dentry_is_dir`.
unfoldable pub dentry_is_dir : Dirent → Bool
dentry_is_dir e = has_type s_ifdir (mode_of_kind (kind e.type))

abbrev stacked : SqfsErr → Stack Level (Unit {0}) → Option ℕ → Traverse → Action (ℕ × Traverse)
stacked e s none t = if failed e then fail e else crash out_of_bounds
stacked e s (some slot) t = if failed e then fail e else pure (slot, record t { stack = s })

-- A path in a buffer, or the error of an allocation.
abbrev pub with_path : Traverse → Outcome (SqfsErr × PathBuffer) → Action Traverse
with_path t (fault e) = crash e
with_path t (done (e, p)) = if failed e then fail e else pure (record t { path = p })

-- Fresh memory holds `junk`.
module _ (img : Image) (junk : ℕ) (blank : Level) where
  unfoldable pub add_name : Traverse → Action Traverse
  add_name t =
      with_path (record t { path_last_size = t.entry.name_size })
        (path_add img.system.grants junk t.path t.entry.name t.entry.name_size)

  unfoldable pub remove_name : Traverse → Traverse
  remove_name t = record t { path = path_remove t.path t.path_last_size }

  unfoldable pub descend_inode : Inode → Traverse → Action Traverse
  descend_inode i t = do
    let (e, s, slot) = push img.system.grants blank t.stack
    (at, t') ← stacked e s slot t
    d ← dir_start img i
    let level : Level = record {
      dir = d;
      name_size = if t.stack.size == 0 then 0 else t.entry.name_size;
    }
    let t'' = record t' { stack = record t'.stack { items = set t'.stack.items at level } }
    (if t.stack.size == 0
        then pure t''
        else with_path t'' (path_add img.system.grants junk t''.path separator 1))

  unfoldable pub descend : Traverse → Action Traverse
  descend t = do i ← inode_get img t.entry.inode; descend_inode i t

  -- The level at the top of the stack.
  unfoldable pub top_level : Traverse → Action (ℕ × Level)
  top_level t = do
    (at, _) ← stacked (top t.stack).0 t.stack (top t.stack).1 t
    elim (get_elem? t.stack.items at) [ none ↦ crash out_of_bounds | some level ↦ pure (at, level) ]

  abbrev popped : Traverse → Outcome (Bool × Stack Level (Unit {0}) × Unit {0}) → Action Traverse
  popped t (fault e) = crash e
  popped t (done (b, s, w)) = pure (record t { stack = s })

  unfoldable pub ascend : Traverse → Action Traverse
  ascend t = do
    (at, level) ← top_level t
    popped (record t { path = path_remove t.path 1; path_last_size = level.name_size })
        (pop t.stack tt)

  -- `sqfs_dir_next` on the directory at the top. Of the entry, where none follows, only the offset
  -- is written.
  unfoldable pub next_entry : Traverse → Action Traverse
  next_entry t = do
    (at, level) ← top_level t
    (d, found) ← dir_next img true level.dir
    let t' = record t {
      stack = record t.stack { items = set t.stack.items at (record level { dir = d }) };
    }
    pure (elim found [
      | none ↦ record t' {
        state = ascend_level;
        entry = record t.entry { offset = level.dir.offset };
      }
      | some e ↦ record t' { state = name_add; entry = e }
    ])

  -- The cases of the switch, up to `break`, or to `return` with a result.
  unfoldable pub round_at : State → Traverse → Action (Traverse × Option Bool)
  round_at get_entry t = do t' ← next_entry t; pure (t', none)
  round_at name_add t = do
    t' ← add_name t
    pure (
      record t' {
        state = if dentry_is_dir t'.entry then descend_entry else name_remove;
        dir_end = false;
      },
      some true,
    )
  round_at name_remove t = pure (record (remove_name t) { state = get_entry }, none)
  round_at descend_entry t = do t' ← descend t; pure (record t' { state = get_entry }, none)
  round_at ascend_level t = do
    t' ← ascend t
    pure (
        if t'.stack.size == 0
        then (record t' { state = finished }, none)
        else (record t' { dir_end = true; state = name_remove }, some true))
  round_at finished t = pure (t, some false)
  round_at error t = fail err

  -- One round of the loop of `sqfs_traverse_next`.
  unfoldable pub round : Traverse → Action (Traverse × Option Bool)
  round t = round_at t.state t

  unfoldable pub rounds : ℕ → Traverse → Action (Traverse × Bool)
  rounds zero t = crash out_of_fuel
  rounds (suc fuel) t = do
    (t', result) ← round t
    elim result [ none ↦ rounds fuel t' | some b ↦ pure (t', b) ]

  -- The label `error`. The fields besides `state` are those of before the call: what a failed call
  -- leaves in them is not used, as every later call fails at once.
  abbrev pub settled :
      Traverse
      → Outcome (Answer (Traverse × Bool) × Caches)
      → Outcome ((Traverse × Bool × SqfsErr) × Caches)
  settled t (fault e) = fault e
  settled t (done (got (t', b), s)) = done ((t', b, ok), s)
  settled t (done (failure e, s)) = done ((record t { state = error }, false, e), s)

  -- `sqfs_traverse_next`: the result, and `*err`. A call goes through at most five states: it
  -- leaves a directory, adds a name or fails after at most three rounds of others.
  unfoldable pub traverse_next : Traverse → Caches → Outcome ((Traverse × Bool × SqfsErr) × Caches)
  traverse_next t s = settled t (rounds 5 t s)

  unfoldable pub prune : Traverse → Traverse
  prune t = record t { state = name_remove }

  -- `sqfs_traverse_init`; the null pointer `path` is a buffer without memory. Of the entry it sets
  -- the address of its name only.
  unfoldable pub traverse_init : Traverse → Traverse
  traverse_init t = record t {
    stack = Stack.init t.stack;
    state = error;
    path = record t.path { bytes = [] };
  }

  unfoldable pub traverse_close : Traverse → Outcome Traverse
  traverse_close t = elim (Stack.destroy t.stack tt) [
    | fault e ↦ fault e
    | done (s, w) ↦ done (traverse_init (record t { stack = s }))
  ]

  -- The label `error` of `sqfs_traverse_open_inode`.
  unfoldable pub close_failed : SqfsErr → Traverse → Action Traverse
  close_failed e t s = elim (traverse_close t) [ fault f ↦ fault f | done t' ↦ fail e s ]

  -- `sqfs_traverse_open_inode`, from the fields that the memory held. Where there is no memory for
  -- the path, the stack that is closed has the size and the callback that the memory held. Behind
  -- `sqfs_stack_create` the stack is empty or has one level and there is no callback, so that a
  -- later error only frees memory.
  unfoldable pub open_inode : Inode → Traverse → Action Traverse
  open_inode i t = do
    let t₀ = traverse_init t
    let (e, p) = path_init img.system.grants junk
    t₁ ← (if failed e then close_failed e t₀ else pure (record t₀ { path = p }))
    let (e', s) = Stack.create img.system.grants blank level_size 0 none
    t₂ ←
        (if failed e'
          then close_failed e' (record t₁ { stack = s })
          else pure (record t₁ { stack = s }))
    t₃ ← descend_inode i t₂
    pure (record t₃ { path_last_size = 0; state = name_remove })

  unfoldable pub traverse_open : ℕ → Traverse → Action Traverse
  traverse_open id t = do i ← inode_get img id; open_inode i t
