-- ===== src/Inode/Link.antt =====
-- `sqfs_readlink`: the target as far as the buffer goes, and device numbers.
use squashfuse.Common.{
  ℕ, ◌+◌, ◌-◌, ◌*◌, ◌/◌, ◌%◌, ◌<◌, ◌^◌, ◌≡◌, refl, sym, ap, ◌∙◌, true, List, ◌++◌, take, drop,
  length, append_assoc, arith, take-append-drop, length-take, take_all, min, ltb, if◌then◌else◌,
  Bool-cases, inl, inr, lt→ltb, ltb→lt,
}
use squashfuse.Actions.{md_bytes}
use squashfuse.Actions.Rules.{IsSound, Ends, Yields, pure-Yields, bind-Yields, md_bytes-Yields}
use squashfuse.Block.Reads.{IsGranted}
use squashfuse.Fs.{Image, Caches}
use squashfuse.Metadata.Stream.{Ahead}
use squashfuse.Inode.{Inode, symlink_size, has_type, s_iflnk, readlink, dev, decode_dev}
use squashfuse.Inode.Decoding.{as_symlink_lem}

module _ (img : Image) (hdr_of : ℕ → ℕ) (all : IsGranted img) (i : Inode) (target rest : List ℕ)
    (link : has_type s_iflnk i.base.mode ≡ true) (shape : i.xtra ≡ symlink_size (length target))
    (ahead : Ahead img i.next.block i.next.offset (target ++ rest)) (size : ℕ) where
  abbrev cut : ℕ
  cut = min (length target) (size - 1)

  cut_choice :
      0 < size
      → size < 2 ^ 64
      → (if ltb ((size + 2 ^ 64 - 1) % 2 ^ 64) (length target)
          then (size + 2 ^ 64 - 1) % 2 ^ 64
          else length target)
        ≡ cut
  cut_choice some_room small = ground arith

  cut-Ahead : Ahead img i.next.block i.next.offset (take cut target ++ (drop cut target ++ rest))
  cut-Ahead =
      rw (← append_assoc (take cut target) (drop cut target) rest, take-append-drop cut target)
        ahead

  cut_lem : take cut target ≡ take (size - 1) target
  cut_lem = elim (Bool-cases (ltb (length target) (size - 1))) [
    | inl fits ↦
        let roomy = ltb→lt (length target) (size - 1) fits in
        take_all (min (length target) (size - 1)) target (omega arith)
        ∙ sym (take_all (size - 1) target (omega arith))
    | inr short ↦ let same : cut ≡ size - 1 = ground arith in ap (λ k. take k target) same
  ]

  readlink-Yields :
      0 < size
      → size < 2 ^ 64
      → Yields img hdr_of (readlink img i size) (λ b. b ≡ take (size - 1) target)
  unfolding readlink
  readlink-Yields some_room small =
      let fits : ltb cut size ≡ true = lt→ltb cut size (omega arith) in
      let width : length (take cut target) ≡ cut = omega (arith, length-take cut target) in
      let same : take cut target ≡ take (size - 1) target = cut_lem in
      rw (link, as_symlink_lem i (length target) shape, cut_choice some_room small)
        (bind-Yields img hdr_of (md_bytes img i.next cut) _
          (md_bytes-Yields img hdr_of all i.next cut (take cut target) (drop cut target ++ rest)
            width cut-Ahead)
          (λ r p. rw fits (pure-Yields img hdr_of _ r.0 (p.0 ∙ same))))

  -- Where all allocations succeed and the state of the caches is sound, for a symbolic link whose
  -- target is in the metadata behind its inode, `sqfs_readlink` into a buffer of at least one
  -- byte ends without an error, delivers the target as far as it fits beside the terminating 0,
  -- and leaves the caches sound.
  pub readlink-Ends :
      0 < size
      → size < 2 ^ 64
      → (s : Caches) → IsSound img hdr_of s
      → Ends img hdr_of (λ b. b ≡ take (size - 1) target) s (readlink img i size s)
  readlink-Ends some_room small s sound = readlink-Yields some_room small s sound

-- A device number as Linux packs it: twelve bits of major number between the parts of the minor.
abbrev pub pack_dev : ℕ → ℕ → ℕ
pack_dev major minor = minor % 2 ^ 8 + major * 2 ^ 8 + minor / 2 ^ 8 * 2 ^ 20

-- A device number packed from a major number of 12 bits and a minor number of 20 bits, the way
-- Linux packs them, is decoded to these.
pub decode_dev-pack :
    (major minor : ℕ)
    → major < 2 ^ 12
    → minor < 2 ^ 20
    → decode_dev (pack_dev major minor) ≡ dev major minor
unfolding decode_dev
decode_dev-pack major minor h k =
    let hi : pack_dev major minor / 2 ^ 8 % 2 ^ 12 ≡ major = omega arith in
    let lo : pack_dev major minor % 2 ^ 8 + pack_dev major minor / 2 ^ 20 % 2 ^ 12 * 2 ^ 8 ≡ minor =
      omega arith in
    rw (hi, lo) refl
