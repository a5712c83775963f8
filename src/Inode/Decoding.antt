-- ===== src/Inode/Decoding.antt =====
-- What an inode is read back as: the structure that its type names, behind the fields that all
-- types share.
use Prim.Native.Nat.{bit_or}
use squashfuse.Common.{
  ◌+◌, ◌/◌, ◌%◌, ◌^◌, ℕ, pos, to_int, two_complement32, to_int_lem, ◌≡◌, refl, sym, ap, ◌∙◌, List,
  [], ◌++◌, append-nil, append_assoc,
}
use squashfuse.Actions.{◌>>=◌, pure, md_bytes, md_skip}
use squashfuse.Actions.Rules.{
  IsSound, Ends, Yields, pure-Yields, bind-Yields, map-Yields, md_bytes-Yields, md_skip-Yields,
  length-encode_fields,
}
use squashfuse.Block.Reads.{IsGranted}
use squashfuse.Format.{swapin, sizeof, encode_fields, le_bytes}
use squashfuse.Format.RoundTrip.{Fit, swapin-le_bytes, length-le_bytes}
use squashfuse.Format.Inodes.{
  BaseInode, base_inode_widths, base_inode_values, swapin_base_inode, swapin_base_inode_lem,
  swapin_ipc_inode, swapin_ipc_inode_lem, swapin_lipc_inode, swapin_lipc_inode_lem,
  swapin_dev_inode, swapin_dev_inode_lem, swapin_ldev_inode, swapin_ldev_inode_lem,
}
use squashfuse.Format.TreeInodes.{
  swapin_symlink_inode, swapin_symlink_inode_lem, swapin_reg_inode, swapin_reg_inode_lem,
  swapin_lreg_inode, swapin_lreg_inode_lem, swapin_dir_inode, swapin_dir_inode_lem,
  swapin_ldir_inode, swapin_ldir_inode_lem,
}
use squashfuse.Fs.{Image, Cursor, Caches}
use squashfuse.Metadata.{cursor_inode}
use squashfuse.Metadata.Stream.{Ahead}
use squashfuse.Inode.{
  Inode, Kind, kind, is_dir, is_reg, is_symlink, is_blkdev, is_chrdev, is_fifo, is_socket, is_ldir,
  is_lreg, is_lsymlink, is_lblkdev, is_lchrdev, is_lfifo, is_lsocket, other, unset, symlink_size,
  as_symlink, read_reg, read_lreg, read_dir, read_ldir, read_symlink, read_lsymlink, read_dev,
  read_ldev, read_ipc, read_lipc, read_kind, inode_get, invalid_xattr,
}
use squashfuse.Inode.Bodies.{
  Body, widths, values, trailer, IsComplete, decoded, type_code, file_type, kind-type_code,
  mode_of_kind-file_type, links, links_small,
}

pub as_symlink_lem : (i : Inode) (n : ℕ) → i.xtra ≡ symlink_size n → as_symlink i ≡ pure n
unfolding as_symlink
as_symlink_lem i n e = rw e refl

module _ (img : Image) (hdr_of : ℕ → ℕ) (all : IsGranted img) where
  abbrev pub Reads : (k : Kind) → Body k → Inode → List ℕ → Inode → Type 0
  Reads k x i rest j =
      (c : Cursor) × (j ≡ decoded k x (two_complement32 (links k x)) i c)
      × Ahead img c.block c.offset rest

  -- With the code's conversion of the count of links.
  abbrev Converts : (k : Kind) → Body k → Inode → List ℕ → Inode → Type 0
  Converts k x i rest j =
      (c : Cursor) × (j ≡ decoded k x (to_int (links k x)) i c) × Ahead img c.block c.offset rest

  Converts-Reads :
      (k : Kind) (x : Body k) (i : Inode) (rest : List ℕ) (j : Inode)
      → Fit (widths k) (values k x)
      → Converts k x i rest j
      → Reads k x i rest j
  Converts-Reads k x i rest j fit (c, same, ahead) =
      (c, same ∙ ap (λ z. decoded k x z i c) (to_int_lem (links k x) (links_small k x fit)), ahead)

  -- A structure is read and the cursor stands behind it.
  struct_step :
      (k : Kind) (x : Body k) (i : Inode) (rest : List ℕ) (swap : List ℕ → Body k)
      → Fit (widths k) (values k x)
      → swap (encode_fields (widths k) (values k x) ++ []) ≡ x
      → Ahead img i.next.block i.next.offset (encode_fields (widths k) (values k x) ++ rest)
      → Yields img hdr_of
          (md_bytes img i.next (sizeof (widths k)) >>= λ r.
            pure (decoded k (swap r.0) (to_int (links k (swap r.0))) i r.1))
          (Converts k x i rest)
  struct_step k x i rest swap fit back ahead =
      let stored = encode_fields (widths k) (values k x) in
      bind-Yields img hdr_of (md_bytes img i.next (sizeof (widths k)))
        (λ r. pure (decoded k (swap r.0) (to_int (links k (swap r.0))) i r.1))
        (md_bytes-Yields img hdr_of all i.next (sizeof (widths k)) stored rest
          (length-encode_fields (widths k) (values k x) fit) ahead)
        (λ r p.
          let same : swap r.0 ≡ x = ap swap (p.0 ∙ sym (append-nil stored)) ∙ back in
          pure-Yields img hdr_of _ (decoded k (swap r.0) (to_int (links k (swap r.0))) i r.1)
            (r.1, ap (λ y. decoded k y (to_int (links k y)) i r.1) same, p.1))

  -- Behind the structure of an extended symbolic link.
  link_step :
      (x : Body is_lsymlink) (i j : Inode) (c : Cursor) (rest : List ℕ)
      → IsComplete is_lsymlink x
      → j ≡ decoded is_symlink x.0 (to_int x.0.nlink) i c
      → Ahead img c.block c.offset (trailer is_lsymlink x ++ rest)
      → Yields img hdr_of
          (md_skip img j.next x.0.symlink_size >>= λ cur.
            md_bytes img cur 4 >>= λ r. pure (record j { xattr = swapin 4 r.0 }))
          (Converts is_lsymlink x i (trailer is_lsymlink x ++ rest))
  link_step x i j c rest complete same ahead =
      let index = le_bytes 4 x.2 in
      let at : j.next ≡ c = ap (λ (t : Inode). t.next) same in
      let apart : Ahead img j.next.block j.next.offset (x.1 ++ (index ++ rest)) =
        rw at (rw append_assoc at ahead) in
      bind-Yields img hdr_of (md_skip img j.next x.0.symlink_size) _
        (md_skip-Yields img hdr_of all j.next x.0.symlink_size x.1 (index ++ rest) complete.0 apart)
        (λ cur q.
          bind-Yields img hdr_of (md_bytes img cur 4) _
            (md_bytes-Yields img hdr_of all cur 4 index rest (length-le_bytes 4 x.2) q)
            (λ r t.
              let read : swapin 4 r.0 ≡ x.2 =
                ap (swapin 4) t.0 ∙ swapin-le_bytes 4 x.2 complete.1 in
              pure-Yields img hdr_of _ (record j { xattr = swapin 4 r.0 })
                (c, rw (same, read) refl, ahead)))

  read_lsymlink-Yields :
      (x : Body is_lsymlink) (i : Inode) (rest : List ℕ)
      → Fit (widths is_lsymlink) (values is_lsymlink x)
      → IsComplete is_lsymlink x
      → Ahead img i.next.block i.next.offset (
          encode_fields (widths is_lsymlink) (values is_lsymlink x)
          ++ (trailer is_lsymlink x ++ rest))
      → Yields img hdr_of
          (read_lsymlink img i)
          (Converts is_lsymlink x i (trailer is_lsymlink x ++ rest))
  unfolding read_lsymlink read_symlink
  read_lsymlink-Yields x i rest fit complete ahead =
      let first =
        struct_step is_symlink x.0 i (trailer is_lsymlink x ++ rest) swapin_symlink_inode fit
          (swapin_symlink_inode_lem x.0 [] fit) ahead in
      bind-Yields img hdr_of (read_symlink img i) _ first (λ j p.
        let shape : j.xtra ≡ symlink_size x.0.symlink_size = ap (λ (t : Inode). t.xtra) p.1 in
        rw (as_symlink_lem j x.0.symlink_size shape) (link_step x i j p.0 rest complete p.1 p.2))

  read_kind-Yields :
      (k : Kind) (x : Body k) (i : Inode) (rest : List ℕ)
      → Fit (widths k) (values k x)
      → IsComplete k x
      → Ahead img i.next.block i.next.offset
          (encode_fields (widths k) (values k x) ++ (trailer k x ++ rest))
      → Yields img hdr_of (read_kind img k i) (Converts k x i (trailer k x ++ rest))
  unfolding read_kind read_reg read_lreg read_dir read_ldir read_symlink read_dev read_ldev read_ipc
      read_lipc to_int
  read_kind-Yields is_reg x i rest fit complete ahead =
      struct_step is_reg x i rest swapin_reg_inode fit (swapin_reg_inode_lem x [] fit) ahead
  read_kind-Yields is_lreg x i rest fit complete ahead =
      struct_step is_lreg x i rest swapin_lreg_inode fit (swapin_lreg_inode_lem x [] fit) ahead
  read_kind-Yields is_dir x i rest fit complete ahead =
      struct_step is_dir x i rest swapin_dir_inode fit (swapin_dir_inode_lem x [] fit) ahead
  read_kind-Yields is_ldir x i rest fit complete ahead =
      struct_step is_ldir x i rest swapin_ldir_inode fit (swapin_ldir_inode_lem x [] fit) ahead
  read_kind-Yields is_symlink x i rest fit complete ahead =
      struct_step is_symlink x i rest swapin_symlink_inode fit (swapin_symlink_inode_lem x [] fit)
        ahead
  read_kind-Yields is_blkdev x i rest fit complete ahead =
      struct_step is_blkdev x i rest swapin_dev_inode fit (swapin_dev_inode_lem x [] fit) ahead
  read_kind-Yields is_chrdev x i rest fit complete ahead =
      struct_step is_chrdev x i rest swapin_dev_inode fit (swapin_dev_inode_lem x [] fit) ahead
  read_kind-Yields is_lblkdev x i rest fit complete ahead =
      struct_step is_lblkdev x i rest swapin_ldev_inode fit (swapin_ldev_inode_lem x [] fit) ahead
  read_kind-Yields is_lchrdev x i rest fit complete ahead =
      struct_step is_lchrdev x i rest swapin_ldev_inode fit (swapin_ldev_inode_lem x [] fit) ahead
  read_kind-Yields is_socket x i rest fit complete ahead =
      struct_step is_socket x i rest swapin_ipc_inode fit (swapin_ipc_inode_lem x [] fit) ahead
  read_kind-Yields is_fifo x i rest fit complete ahead =
      struct_step is_fifo x i rest swapin_ipc_inode fit (swapin_ipc_inode_lem x [] fit) ahead
  read_kind-Yields is_lsocket x i rest fit complete ahead =
      struct_step is_lsocket x i rest swapin_lipc_inode fit (swapin_lipc_inode_lem x [] fit) ahead
  read_kind-Yields is_lfifo x i rest fit complete ahead =
      struct_step is_lfifo x i rest swapin_lipc_inode fit (swapin_lipc_inode_lem x [] fit) ahead
  read_kind-Yields is_lsymlink x i rest fit complete ahead =
      read_lsymlink-Yields x i rest fit complete ahead
  read_kind-Yields other x i rest fit complete ahead = absurd x

  -- The inode before its structure is read.
  abbrev pub blank : Kind → BaseInode → Cursor → Inode
  blank k base start = record {
    base = record base { mode = bit_or base.mode (file_type k) };
    nlink = pos 0;
    xattr = invalid_xattr;
    next = start;
    xtra = unset;
  }

  -- The fields that all types share are read from the front of the structure, and then read again.
  inode_get-Yields :
      (id : ℕ) (base : BaseInode) (k : Kind) (x : Body k) (own rest : List ℕ)
      → base.inode_type ≡ type_code k
      → Fit base_inode_widths (base_inode_values base)
      → Fit (widths k) (values k x)
      → IsComplete k x
      → encode_fields (widths k) (values k x)
        ≡ encode_fields base_inode_widths (base_inode_values base) ++ own
      → Ahead img
          (cursor_inode id img.sb.inode_table_start).block
          (cursor_inode id img.sb.inode_table_start).offset
          (encode_fields (widths k) (values k x) ++ (trailer k x ++ rest))
      → Yields img hdr_of (inode_get img id) (
          Reads k x (blank k base (cursor_inode id img.sb.inode_table_start)) (trailer k x ++ rest))
  unfolding inode_get
  inode_get-Yields id base k x own rest is fit fits complete split ahead =
      let start = cursor_inode id img.sb.inode_table_start in
      let shared = encode_fields base_inode_widths (base_inode_values base) in
      let front : Ahead img start.block start.offset (shared ++ (own ++ (trailer k x ++ rest))) =
        rw (split, append_assoc) at ahead in
      bind-Yields img hdr_of (md_bytes img start (sizeof base_inode_widths)) _
        (md_bytes-Yields img hdr_of all start (sizeof base_inode_widths) shared _
          (length-encode_fields base_inode_widths (base_inode_values base) fit) front)
        (λ r p.
          let same : swapin_base_inode r.0 ≡ base =
            ap swapin_base_inode (p.0 ∙ sym (append-nil shared))
            ∙ swapin_base_inode_lem base [] fit in
          let coded : kind base.inode_type ≡ k = ap kind is ∙ kind-type_code k in
          rw (same, coded, mode_of_kind-file_type k)
            (map-Yields img hdr_of _
              (read_kind-Yields k x (blank k base start) rest fits complete ahead)
              (λ j. Converts-Reads k x (blank k base start) (trailer k x ++ rest) j fits)))

  -- An identifier has the offset in its lower 16 bits, and in the others the block's distance from
  -- the start of the table.
  abbrev pub place : ℕ → ℕ → Cursor
  place id start = record { block = (id / 65536 + start) % 2 ^ 64; offset = id % 65536 }

  -- Where all allocations succeed and the state of the caches is sound, for each of the 14 codes
  -- of inode types, if the structure that the code stands for, whose fields fit their widths and
  -- begin with those that all types share, is in the metadata at the identifier's place with what
  -- follows it, then `sqfs_inode_get` ends without an error in the inode with the structure's
  -- fields, the count of links read as a signed number of 32 bits, the bits of that type of file
  -- in its mode, the extended attributes' index where the type has one, and the cursor behind the
  -- structure, where the rest lies ahead; the caches are sound afterwards.
  pub inode_get-Ends :
      (id : ℕ) (base : BaseInode) (k : Kind) (x : Body k) (own rest : List ℕ)
      → base.inode_type ≡ type_code k
      → Fit base_inode_widths (base_inode_values base)
      → Fit (widths k) (values k x)
      → IsComplete k x
      → encode_fields (widths k) (values k x)
        ≡ encode_fields base_inode_widths (base_inode_values base) ++ own
      → Ahead img
          (place id img.sb.inode_table_start).block
          (place id img.sb.inode_table_start).offset
          (encode_fields (widths k) (values k x) ++ (trailer k x ++ rest))
      → (s : Caches) → IsSound img hdr_of s
      → Ends img hdr_of
          (Reads k x (blank k base (place id img.sb.inode_table_start)) (trailer k x ++ rest))
          s
          (inode_get img id s)
  unfolding cursor_inode
  inode_get-Ends id base k x own rest is fit fits complete split ahead s sound =
      inode_get-Yields id base k x own rest is fit fits complete split ahead s sound
