-- ===== src/Inodes/References.antt =====
-- The map of inode numbers counts references: what FUSE was told of is found until it forgets it.
use squashfuse.Common.{
  ℕ, ◌+◌, ◌-◌, ◌*◌, ◌%◌, ◌^◌, ◌<◌, ◌≡◌, refl, ap, ◌∙◌, ◌≢◌, Bool, true, false, Option, none, some,
  done, ltb, ltb→lt, Bool-cases, inl, inr, ne→==, ==_iff, ◌==◌, if◌then◌else◌, arith,
}
use native.Mathlib.Nat.{mod-eq_of_lt}
use squashfuse.Hash
use squashfuse.Hash.{Hash, size_mod, pointer_bytes, bucket_bytes}
use squashfuse.Hash.Laws.{update, Represents, Represents-ext, get_lem}
use squashfuse.Hash.Writes.{assign-Represents, remove-Represents}
use squashfuse.Hash.Doubling.{add-Represents}
use squashfuse.Inodes.{
  InodeEntry, InodeMap, inode_entry, ino32_num2fuse, ino32_sqfs, ino32_register, ino32_forget,
  sqfs_inode_none, fuse_root_id,
}
use squashfuse.Inodes.Numbers.{fuse2num-num2fuse, num2fuse_apart, ie_inode-inode_entry}

-- One count changed.
abbrev pub recount : (ℕ → ℕ) → ℕ → ℕ → ℕ → ℕ
recount refs n k q = if q == n then k else refs q

-- The entry that a number with references has.
abbrev pub entry_of : (ℕ → ℕ) → (ℕ → ℕ) → ℕ → Option InodeEntry
entry_of id_of refs q = if refs q == 0 then none else some (inode_entry (id_of q) (refs q))

-- The map has an entry for exactly the numbers with references, with their count and identifier.
abbrev pub Tracks : (ℕ → ℕ) → InodeMap → (ℕ → ℕ) → Type 0
Tracks id_of map refs = Represents map.icache (entry_of id_of refs)

module _ (id_of refs : ℕ → ℕ) (n k : ℕ) where
  recount-some :
      0 < k
      → (q : ℕ)
      → update (entry_of id_of refs) n (some (inode_entry (id_of n) k)) q
        ≡ entry_of id_of (recount refs n k) q
  recount-some pos q = ground (arith, ==_iff q n)

  recount-none :
      (q : ℕ) → update (entry_of id_of refs) n none q ≡ entry_of id_of (recount refs n 0) q
  recount-none q = ground arith

raised :
    (i a : ℕ)
    → a + 1 < 2 ^ 32
    → record (inode_entry i a) { refcount = ((inode_entry i a).refcount + 1) % 2 ^ 32 }
      ≡ inode_entry i (a + 1)
unfolding inode_entry
raised i a few = rw (mod-eq_of_lt few) refl

lowered :
    (i a k : ℕ)
    → record (inode_entry i a) { refcount = (inode_entry i a).refcount - k } ≡ inode_entry i (a - k)
unfolding inode_entry
lowered i a k = refl

refcount_lem : (i a : ℕ) → (inode_entry i a).refcount ≡ a
unfolding inode_entry
refcount_lem i a = refl

module _ (id_of : ℕ → ℕ) (map : InodeMap) (refs : ℕ → ℕ) (t : Tracks id_of map refs) (n : ℕ) where
  found_lem : Hash.get map.icache n ≡ done (entry_of id_of refs n)
  found_lem = get_lem map.icache (entry_of id_of refs) t n

  -- On a map that tracks a count of references for each inode number, where the allocations
  -- succeed, the doubled capacity does not overflow and the count fits 32 bits with one more,
  -- `sqfs_ll_ino32_register` of a number and its identifier returns the FUSE number, keeps the
  -- root, and gives a map that tracks one reference more for that number and the same for all
  -- others, whether or not the number was there.
  pub register-Tracks :
      (grants : ℕ → Bool)
      → refs n + 1 < 2 ^ 32
      → map.icache.capacity * 2 < size_mod
      → grants (map.icache.capacity * 2 * pointer_bytes) ≡ true
      → grants (bucket_bytes + map.icache.value_size) ≡ true
      → (map' : InodeMap) × (ino32_register grants map n (id_of n)
          ≡ done (ino32_num2fuse map.root n, map'))
        × (map'.root ≡ map.root)
        × Tracks id_of map' (recount refs n (refs n + 1))
  unfolding ino32_register
  register-Tracks grants few small table entry = elim (Bool-cases (refs n == 0)) [
    | inl new ↦
        let absent : entry_of id_of refs n ≡ none = rw new refl in
        let none_yet : refs n ≡ 0 = (==_iff (refs n) 0).0 new in
        let (h', run, rep, _, _) =
          add-Represents grants map.icache (entry_of id_of refs) n (inode_entry (id_of n) 1) t
            absent small table entry in
        (
          record map { icache = h' },
          rw (found_lem, absent, run) refl,
          refl,
          rw none_yet (Represents-ext h' _ _ rep (recount-some id_of refs n 1 (omega arith))),
        )
    | inr old ↦
        let ie = inode_entry (id_of n) (refs n) in
        let present : entry_of id_of refs n ≡ some ie = rw old refl in
        let more = inode_entry (id_of n) (refs n + 1) in
        let (h', run, rep, _, _) =
          assign-Represents map.icache (entry_of id_of refs) t n more ie present in
        (
          record map { icache = h' },
          rw (found_lem, present, ino32_register, raised (id_of n) (refs n) few, run) refl,
          refl,
          Represents-ext h' _ _ rep (recount-some id_of refs n (refs n + 1) (omega arith)),
        )
  ]

  -- On a map that tracks a count of references for each inode number, for numbers of 32 bits,
  -- `sqfs_ll_ino32_forget` of k references to a FUSE number keeps the root and gives a map that
  -- tracks k references fewer for that number, or none if it had no more than k, and the same for
  -- all others.
  pub forget-Tracks :
      (k : ℕ)
      → map.root < 2 ^ 32
      → n < 2 ^ 32
      → (map' : InodeMap) × (ino32_forget map (ino32_num2fuse map.root n) k ≡ done map')
        × (map'.root ≡ map.root)
        × Tracks id_of map' (recount refs n (refs n - k))
  unfolding ino32_forget
  forget-Tracks k small little =
      let back = fuse2num-num2fuse map.root n small little in
      let ie = inode_entry (id_of n) (refs n) in
      elim (Bool-cases (refs n == 0)) [
        | inl new ↦
            let absent : entry_of id_of refs n ≡ none = rw new refl in
            (
              map,
              rw (back, found_lem, absent) refl,
              refl,
              Represents-ext map.icache _ _ t (λ q. ground arith),
            )
        | inr old ↦
            let present : entry_of id_of refs n ≡ some ie = rw old refl in
            elim (Bool-cases (ltb k (refs n))) [
              | inl some_left ↦
                  let below = ltb→lt k (refs n) some_left in
                  let kept : ltb k ie.refcount ≡ true =
                    ap (ltb k) (refcount_lem (id_of n) (refs n)) ∙ some_left in
                  let (h', run, rep, _, _) =
                    assign-Represents map.icache (entry_of id_of refs) t n
                      (inode_entry (id_of n) (refs n - k)) ie present in
                  (
                    record map { icache = h' },
                    rw (back, found_lem, present, ino32_forget, kept)
                        (rw (back, lowered (id_of n) (refs n) k, run) refl),
                    refl,
                    Represents-ext h' _ _ rep
                        (recount-some id_of refs n (refs n - k) (omega arith)),
                  )
              | inr gone ↦
                  let dropped : ltb k ie.refcount ≡ false =
                    ap (ltb k) (refcount_lem (id_of n) (refs n)) ∙ gone in
                  let nothing : refs n - k ≡ 0 = ground arith in
                  let (h', run, rep, _) = remove-Represents map.icache (entry_of id_of refs) t n in
                  (
                    record map { icache = h' },
                    rw (back, found_lem, present, ino32_forget, dropped) (rw (back, run) refl),
                    refl,
                    rw nothing (Represents-ext h' _ _ rep (recount-none id_of refs n 0)),
                  )
            ]
      ]

  -- On a map that tracks references, for a number of 32 bits that is not the root's and an
  -- identifier of 48 bits, `sqfs_ll_ino32_sqfs` of the FUSE number gives the identifier while
  -- there are references, and the reserved identifier otherwise.
  pub ino32_sqfs-Tracks :
      (root_inode : ℕ)
      → map.root < 2 ^ 32
      → n < 2 ^ 32
      → n ≢ map.root
      → id_of n < 2 ^ 48
      → ino32_sqfs root_inode map (ino32_num2fuse map.root n)
        ≡ done (if refs n == 0 then sqfs_inode_none else id_of n)
  unfolding ino32_sqfs
  ino32_sqfs-Tracks root_inode small little other fits =
      let back = fuse2num-num2fuse map.root n small little in
      let apart : (ino32_num2fuse map.root n == fuse_root_id) ≡ false =
        ne→== _ _ (num2fuse_apart map.root n small little other) in
      rw (apart, back, found_lem)
        (elim (Bool-cases (refs n == 0)) [
          | inl new ↦ rw (new, ino32_sqfs) refl
          | inr old ↦ rw (old, ino32_sqfs, ie_inode-inode_entry (id_of n) (refs n) fits) refl
        ])
