-- ===== src/Xattr/Find.antt =====
-- xattr.c: finding an attribute by its name, a list of bytes without the terminating 0.
use squashfuse.Common.{
  ℕ, zero, suc, ◌+◌, Bool, true, false, not, ◌&&◌, Option, none, some, List, length, drop,
  out_of_fuel, err, leb, ◌==◌, if◌then◌else◌,
}
use squashfuse.Actions.{Action, ◌>>=◌, pure, fail, crash}
use squashfuse.Directory.Lookup.{Ordering, equal, less, greater, strncmp}
use squashfuse.Fs.{Image}
use squashfuse.Inode.{Inode}
use squashfuse.Xattr.{
  Xattr, prefix, user_prefix, trusted_prefix, security_prefix, xattr_open, xattr_read, xattr_name,
  xattr_value_size, xattr_value,
}

abbrev pub is_equal : Ordering → Bool
is_equal equal = true
is_equal less = false
is_equal greater = false

-- `name` begins with the prefix.
abbrev begins : List ℕ → List ℕ → Bool
begins pref name = is_equal (strncmp name pref (length pref))

-- `sqfs_xattr_find_prefix`, its loop unrolled.
unfoldable pub find_prefix : List ℕ → Option ℕ
find_prefix name =
    if begins user_prefix name
    then some 0
    else (if begins trusted_prefix name
        then some 1
        else (if begins security_prefix name then some 2 else none))

module _ (img : Image) where
  -- The loop of `sqfs_xattr_find`, on fuel: a round reads an attribute. The second part is `*found`.
  unfoldable pub find_loop : ℕ → ℕ → List ℕ → Xattr → Action (Xattr × Bool)
  find_loop zero type name x = crash out_of_fuel
  find_loop (suc fuel) type name x = if x.remain == 0 then pure (x, false) else (do
    x₁ ← xattr_read img x
    (if not ((x₁.type == type) && (x₁.entry.size == length name))
        then find_loop fuel type name x₁
        else (do
          (cmp, x₂) ← xattr_name img x₁
          (if is_equal (strncmp name cmp (length name))
              then pure (x₂, true)
              else find_loop fuel type name x₂))))

  unfoldable pub xattr_find : Xattr → List ℕ → Action (Xattr × Bool)
  xattr_find x name = elim (find_prefix name) [
    | none ↦ pure (x, false)
    | some type ↦
        let rest = drop (length (prefix type)) name in
        if img.system.grants (length rest) then find_loop (x.remain + 1) type rest x else fail err
  ]

  -- `sqfs_xattr_lookup` with a buffer of `room` bytes, or none for the null pointer: what is
  -- delivered, if anything, and `*size`.
  unfoldable pub xattr_lookup : Inode → List ℕ → Option ℕ → Action (Option (List ℕ) × ℕ)
  xattr_lookup i name room = do
    x ← xattr_open img i
    (x₁, found) ← xattr_find x name
    (if not found then pure (none, 0) else (do
      x₂ ← xattr_value_size img x₁
      elim room [
        | none ↦ pure (none, x₂.val.vsize)
        | some n ↦
            if leb x₂.val.vsize n
            then (do (bytes, _) ← xattr_value img x₂; pure (some bytes, x₂.val.vsize))
            else pure (none, x₂.val.vsize)
      ]))
