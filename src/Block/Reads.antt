-- ===== src/Block/Reads.antt =====
-- What `sqfs_block_read` and its callers read, apart from memory: the bytes of a block as a function
-- of its place in the file. A read that succeeds makes one block, and one that fails leaks none.
use squashfuse.Common.{
  ℕ, ◌+◌, ◌≤◌, ◌≡◌, refl, fun_ext, Bool, true, Option, none, some, List, [], length, SqfsErr, ok,
  err, failed, Outcome, done, ◌==◌, if◌then◌else◌, Bool-cases, Option-cases, inl, inr, arith,
}
use squashfuse.Block.{
  block_decode, block_fill, block_bytes, update, alloc, give_up, block_dispose, deref, block_read,
}
use squashfuse.Fs.{Block, Heap, Image}

-- Every allocation succeeds.
pub record IsGranted (img : Image) : Type 0 where
  pub granted : (n : ℕ) → img.system.grants n ≡ true

-- No block has an address that the heap has not given out.
pub record IsFresh (h : Heap) : Type 0 where
  pub unused : (q : ℕ) → h.next ≤ q → h.blocks q ≡ none

abbrev blank_block : Block
blank_block = record { size = 0; bytes = []; refcount = 1 }

-- The heap with a block of these bytes at the next address, referenced once.
abbrev pub with_block : Heap → List ℕ → Heap
with_block h bytes = record {
  next = h.next + 1;
  blocks =
      update h.blocks h.next (some (record { size = length bytes; bytes = bytes; refcount = 1 }));
}

-- The bytes of a block whose stored form is `input`.
unfoldable pub unpack : Image → Bool → ℕ → List ℕ → Option (List ℕ)
unpack img compressed outsize input =
    let (e, output) = img.decompressor input outsize in
    if compressed then (if failed e then none else some output) else some input

-- The bytes of the block at a position, stored in `size` bytes.
unfoldable pub block_at : Image → ℕ → Bool → ℕ → ℕ → Option (List ℕ)
block_at img pos compressed size outsize = elim (img.system.pread size (pos + img.offset)) [
  | none ↦ none
  | some input ↦ if length input == size then unpack img compressed outsize input else none
]

update-update :
    (f : ℕ → Option Block) (p : ℕ) (a b : Option Block) → update (update f p a) p b ≡ update f p b
update-update f p a b = fun_ext λ q. ground arith

module _ (h : Heap) where
  abbrev begun : ℕ × Heap
  begun = (h.next, record { next = h.next + 1; blocks = update h.blocks h.next (some blank_block) })

  alloc_lem : alloc h blank_block ≡ begun
  unfolding alloc
  alloc_lem = refl

  fill_lem : (bytes : List ℕ) → block_fill h.next bytes begun.1 ≡ with_block h bytes
  unfolding block_fill
  fill_lem bytes = rw (update-update h.blocks h.next (some blank_block))

  -- The state after a failure: the blocks are those of before.
  pub record GaveUp (r : Outcome (SqfsErr × Option ℕ × Heap)) : Type 0 where
    pub error : SqfsErr
    pub after : Heap
    pub returns : r ≡ done (error, none, after)
    pub fails : failed error ≡ true
    pub kept : after.blocks ≡ h.blocks
    pub grown : after.next ≡ h.next + 1

  give_up-GaveUp : (e : SqfsErr) → IsFresh h → failed e ≡ true → GaveUp (give_up e h.next begun.1)
  unfolding give_up block_dispose deref
  give_up-GaveUp e fresh fails = record {
    error = e;
    after = record { next = h.next + 1; blocks = update begun.1.blocks h.next none };
    returns = ground arith;
    fails = fails;
    kept = fun_ext λ q. ground (arith, fresh.unused q);
    grown = refl;
  }

  module _ (img : Image) (all : IsGranted img) (compressed : Bool) (outsize : ℕ)
      (input : List ℕ) where
    block_decode_lem :
        (bytes : List ℕ)
        → unpack img compressed outsize input ≡ some bytes
        → block_decode img compressed outsize h.next begun.1 input
          ≡ done (ok, some h.next, with_block h bytes)
    unfolding block_decode unpack
    block_decode_lem bytes e =
        ground
          (arith, all.granted outsize, fill_lem input, fill_lem (img.decompressor input outsize).1)

    block_decode-GaveUp :
        IsFresh h
        → unpack img compressed outsize input ≡ none
        → GaveUp (block_decode img compressed outsize h.next begun.1 input)
    unfolding block_decode unpack
    block_decode-GaveUp fresh e = elim (Bool-cases compressed) [
      | inr stored ↦ absurd (ground arith)
      | inl packed ↦ elim (Bool-cases (failed (img.decompressor input outsize).0)) [
        | inr fine ↦ absurd (ground arith)
        | inl bad ↦
            rw (packed, all.granted outsize, bad)
              (give_up-GaveUp (img.decompressor input outsize).0 fresh bad)
      ]
    ]

  module _ (img : Image) (all : IsGranted img) (pos : ℕ) (compressed : Bool)
      (size outsize : ℕ) where
    -- Where all allocations succeed, reading a block that is in the file succeeds with one new
    -- block, which holds the unpacked bytes and has one reference.
    pub block_read_lem :
        (bytes : List ℕ)
        → block_at img pos compressed size outsize ≡ some bytes
        → block_read img pos compressed size outsize h ≡ done (ok, some h.next, with_block h bytes)
    unfolding block_read block_at alloc
    block_read_lem bytes there = elim (Option-cases (img.system.pread size (pos + img.offset))) [
      | inl missing ↦ absurd (ground arith)
      | inr (input, e) ↦ ground (
        arith,
        all.granted block_bytes,
        all.granted size,
        block_decode_lem img all compressed outsize input bytes,
      )
    ]

    -- Where all allocations succeed and no block has an unused address, reading a block that is
    -- missing, cut short or not unpacked returns an error and the null pointer, and frees what it
    -- allocated: the blocks in memory are those of before.
    pub block_read-GaveUp :
        IsFresh h
        → block_at img pos compressed size outsize ≡ none
        → GaveUp (block_read img pos compressed size outsize h)
    unfolding block_read block_at alloc
    block_read-GaveUp fresh nothing =
        rw (all.granted block_bytes, all.granted size)
          (elim (Option-cases (img.system.pread size (pos + img.offset))) [
            | inl missing ↦ rw (missing, block_read) (give_up-GaveUp err fresh refl)
            | inr (input, e) ↦ elim (Bool-cases (length input == size)) [
              | inr short ↦ rw (e, block_read, short) (give_up-GaveUp err fresh refl)
              | inl whole ↦
                  rw (e, block_read, whole)
                    (block_decode-GaveUp img all compressed outsize input fresh (ground arith))
            ]
          ])
