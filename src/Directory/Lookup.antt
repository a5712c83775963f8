-- ===== src/Directory/Lookup.antt =====
-- dir.c: looking up a name in a directory, and a path from one. Strings are lists of bytes without
-- the terminating 0.
use squashfuse.Common.{
  ℕ, zero, suc, ◌+◌, ◌%◌, ◌^◌, Bool, true, false, Option, none, some, List, [], ◌∷◌, length, err,
  out_of_fuel, ltb, ◌==◌, if◌then◌else◌,
}
use squashfuse.Actions.{Action, ◌>>=◌, pure, fail, crash, md_bytes}
use squashfuse.Format.Dirs.{DirIndex}
use squashfuse.Fs.{Image, Cursor}
use squashfuse.Inode.{Inode, inode_get}
use squashfuse.Directory.{Dir, Dirent, name_len, dir_start, dir_next, ff_header}

pub data Ordering : Type 0 where
  less equal greater : Ordering

-- A character of a string, 0 behind its end.
abbrev pub first : List ℕ → ℕ
first [] = 0
first (c ∷ s) = c

abbrev pub tail : List ℕ → List ℕ
tail [] = []
tail (c ∷ s) = s

-- `strncmp` of the C library: up to n characters, as bytes, or to the end of both strings.
unfoldable pub strncmp : List ℕ → List ℕ → ℕ → Ordering
strncmp a b zero = equal
strncmp a b (suc n) =
    let rest = strncmp (tail a) (tail b) n in
    if ltb (first a) (first b)
    then less
    else (if ltb (first b) (first a) then greater else (if first a == 0 then equal else rest))

module _ (img : Image) where
  -- `sqfs_dir_ff_name_f`.
  unfoldable pub ff_name_test : List ℕ → Cursor → DirIndex → Action (Cursor × Bool)
  ff_name_test cmp cur idx =
      let size = (idx.size + 1) % 2 ^ 32 in
      if ltb name_len size then fail err else (do
        (name, c) ← md_bytes img cur size
        elim (strncmp name cmp (length cmp)) [
          | less ↦ pure (c, false)
          | equal ↦ pure (c, ltb (length cmp) size)
          | greater ↦ pure (c, true)
        ])

  -- The loop of `sqfs_dir_lookup`, on fuel.
  unfoldable pub find_entry : ℕ → List ℕ → Dir → Action (Option Dirent)
  find_entry zero name d = crash out_of_fuel
  find_entry (suc fuel) name d = do
    (d', next) ← dir_next img true d
    elim next [
      | none ↦ pure none
      | some e ↦ elim (strncmp e.name name (length name)) [
        | less ↦ find_entry fuel name d'
        | equal ↦ pure (if e.name_size == length name then some e else none)
        | greater ↦ pure none
      ]
    ]

  -- Every entry takes room, up to the total and then to the end of a group of less than 2^32.
  abbrev pub lookup_fuel : Dir → ℕ
  lookup_fuel d = d.total + 2 ^ 32 + 1

  -- `sqfs_dir_lookup`: `none` where `*found` is false.
  unfoldable pub dir_lookup : Inode → List ℕ → Action (Option Dirent)
  dir_lookup i name = do
    d ← dir_start img i
    d' ← ff_header img (ff_name_test name) i d
    find_entry (lookup_fuel d') name d'

abbrev pub slash : ℕ
slash = 47

unfoldable pub skip_slashes : List ℕ → List ℕ
skip_slashes [] = []
skip_slashes (c ∷ path) = if c == slash then skip_slashes path else c ∷ path

-- The component at the front of a path, and what follows it.
unfoldable pub component : List ℕ → List ℕ × List ℕ
component [] = ([], [])
component (c ∷ path) =
    let (name, rest) = component path in if c == slash then ([], c ∷ path) else (c ∷ name, rest)

module _ (img : Image) where
  -- The loop of `sqfs_lookup_path_with_id`, on fuel. `id` is what `*id` holds, if anything was
  -- written to it; the answer is `none` where `*found` is false.
  unfoldable pub walk_path : ℕ → Inode → Option ℕ → List ℕ → Action (Option (Inode × Option ℕ))
  walk_path zero i id path = crash out_of_fuel
  walk_path (suc fuel) i id path =
      let (name, rest) = component (skip_slashes path) in
      elim name [
        | [] ↦ pure (some (i, id))
        | c ∷ cs ↦ do
          found ← dir_lookup img i (c ∷ cs)
          elim found [
            | none ↦ pure none
            | some e ↦ do i' ← inode_get img e.inode; walk_path fuel i' (some e.inode) rest
          ]
      ]

  -- A component takes a character at least.
  unfoldable pub lookup_path : Inode → List ℕ → Action (Option (Inode × Option ℕ))
  lookup_path i path = walk_path (suc (length path)) i none path
