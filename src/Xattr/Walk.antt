-- ===== src/Xattr/Walk.antt =====
-- `sqfs_xattr_read` moves from one attribute to the next, whatever of it was read.
use squashfuse.Common.{
  ℕ, ◌-◌, ◌/◌, ◌%◌, ◌^◌, ◌≡◌, ◌⊎◌, refl, sym, ap, ◌∙◌, true, false, List, [], ◌∷◌, ◌++◌, length,
  append-nil, append_assoc, err, ltb, ◌==◌, if◌then◌else◌, arith, inl, inr,
}
use mathlib.Core.Path.{subst}
use squashfuse.Actions.{Action, ◌>>=◌, pure, fail, md_bytes}
use squashfuse.Actions.Rules.{
  IsSound, Ends, Yields, pure-Yields, bind-Yields, then-Yields, else-Yields, md_bytes-Yields,
  length-encode_fields,
}
use squashfuse.Block.Reads.{IsGranted}
use squashfuse.Format.{sizeof}
use squashfuse.Format.RoundTrip.{Fit}
use squashfuse.Format.Tables.{
  XattrEntry, xattr_entry_widths, xattr_entry_values, swapin_xattr_entry, swapin_xattr_entry_lem,
}
use squashfuse.Fs.{Image, Caches}
use squashfuse.Metadata.Stream.{Ahead}
use squashfuse.Xattr.{
  Xattr, prefix, prefix_max, xattr_full_name, xattr_name, xattr_skip_value, xattr_value, xattr_read,
}
use squashfuse.Xattr.Namespaces.{namespace, prefix-namespace}
use squashfuse.Xattr.Attributes.{
  Attribute, entry_of, entry_bytes, val_bytes, attributes_bytes, Fresh, Inside, Valued,
  xattr_skip_value-Fresh, xattr_name-Inside, xattr_value-Fresh,
}

module _ (img : Image) (rest : List ℕ) where
  -- The reader is before the attributes, or at the one in front of them.
  abbrev pub Place : List Attribute → Xattr → Type 0
  Place ys x =
      Fresh img rest ys x ⊎ ((a : Attribute) × (Inside img rest a ys x ⊎ Valued img rest a ys x))

  module _ (hdr_of : ℕ → ℕ) (all : IsGranted img) where
    -- What the reader does behind the value that it skips.
    abbrev take_entry : Xattr → Action Xattr
    take_entry x = do
      (bytes, cur) ← md_bytes img x.c_next (sizeof xattr_entry_widths)
      let e = swapin_xattr_entry bytes
      (if ltb prefix_max (e.type % 2 ^ 8)
          then fail err
          else pure (record x {
            c_name = cur;
            entry = e;
            type = e.type % 2 ^ 8;
            ool = e.type / 2 ^ 8 % 2 == 1;
            remain = x.remain - 1;
            has_vsize = false;
            has_val = false;
            has_next = false;
          }))

    take_entry-Inside :
        (b : Attribute) (ys : List Attribute) (x : Xattr)
        → Fresh img rest (b ∷ ys) x
        → Yields img hdr_of (take_entry x) (Inside img rest b ys)
    unfolding attributes_bytes entry_bytes
    take_entry-Inside b ys x s =
        let is = s.attributes.0 in
        let stored = entry_bytes b in
        let behind = b.name ++ (val_bytes b ++ (attributes_bytes ys ++ rest)) in
        let fit : Fit xattr_entry_widths (xattr_entry_values (entry_of b)) =
          (omega (arith, is.known), (is.name, tt)) in
        let front : Ahead img x.c_next.block x.c_next.offset (stored ++ behind) =
          subst (λ bytes. Ahead img x.c_next.block x.c_next.offset bytes)
            (append_assoc stored (b.name ++ (val_bytes b ++ attributes_bytes ys)) rest
              ∙ ap (λ t. stored ++ t)
                  (append_assoc b.name (val_bytes b ++ attributes_bytes ys) rest
                    ∙ ap (λ t. b.name ++ t)
                        (append_assoc (val_bytes b) (attributes_bytes ys) rest)))
            s.ahead in
        bind-Yields img hdr_of (md_bytes img x.c_next (sizeof xattr_entry_widths)) _
          (md_bytes-Yields img hdr_of all x.c_next (sizeof xattr_entry_widths) stored behind
            (length-encode_fields xattr_entry_widths (xattr_entry_values (entry_of b)) fit) front)
          (λ r p.
            let e : swapin_xattr_entry r.0 ≡ entry_of b =
              ap swapin_xattr_entry (p.0 ∙ sym (append-nil stored))
              ∙ swapin_xattr_entry_lem (entry_of b) [] fit in
            let type : (swapin_xattr_entry r.0).type ≡ b.type = ap (λ (t : XattrEntry). t.type) e in
            let low : (swapin_xattr_entry r.0).type % 2 ^ 8 ≡ b.type =
              omega (arith, type, is.known) in
            let small : ltb prefix_max ((swapin_xattr_entry r.0).type % 2 ^ 8) ≡ false =
              ground (arith, low, is.known) in
            else-Yields img hdr_of _ _ small (
              pure-Yields img hdr_of (Inside img rest b ys) _ (record {
                remain = omega (arith, s.remain);
                attributes = s.attributes.1;
                current = is;
                unknown = refl;
                unread = refl;
                inline = ground (arith, type, is.known);
                type = low;
                size = ap (λ (t : XattrEntry). t.size) e;
                name = p.1;
                value = λ (h : false ≡ true). absurd (ground arith);
              })))

    forget_ool :
        (a : Attribute) (ys : List Attribute) (x : Xattr)
        → Inside img rest a ys x ⊎ Valued img rest a ys x
        → Inside img rest a ys (record x { ool = false })
          ⊎ Valued img rest a ys (record x { ool = false })
    forget_ool a ys x (inl s) = inl (record {
      remain = s.remain;
      attributes = s.attributes;
      current = s.current;
      unknown = s.unknown;
      unread = s.unread;
      inline = refl;
      type = s.type;
      size = s.size;
      name = s.name;
      value = s.value;
    })
    forget_ool a ys x (inr v) = inr (record {
      remain = v.remain;
      attributes = v.attributes;
      read = v.read;
      unknown = v.unknown;
      inline = refl;
      size = v.size;
      ahead = v.ahead;
    })

    next_unknown :
        (a : Attribute) (ys : List Attribute) (x : Xattr)
        → Inside img rest a ys x ⊎ Valued img rest a ys x
        → x.has_next ≡ false
    next_unknown a ys x (inl s) = s.unknown
    next_unknown a ys x (inr v) = v.unknown

    skipped-Fresh :
        (ys : List Attribute) (x : Xattr)
        → Place ys x
        → Yields img hdr_of
            (if x.has_next then pure x else xattr_skip_value img (record x { ool = false }))
            (Fresh img rest ys)
    skipped-Fresh ys x (inl s) = then-Yields img hdr_of _ _ s.known (pure-Yields img hdr_of _ x s)
    skipped-Fresh ys x (inr (a, s)) = else-Yields img hdr_of _ _ (next_unknown a ys x s) (
        xattr_skip_value-Fresh img rest hdr_of all a ys (record x { ool = false })
          (forget_ool a ys x s))

    pub remain_of : (ys : List Attribute) (x : Xattr) → Place ys x → x.remain ≡ length ys
    remain_of ys x (inl s) = s.remain
    remain_of ys x (inr (a, inl s)) = s.remain
    remain_of ys x (inr (a, inr s)) = s.remain

    -- From any place, the next attribute is entered.
    pub xattr_read-Inside :
        (b : Attribute) (ys : List Attribute) (x : Xattr)
        → Place (b ∷ ys) x
        → Yields img hdr_of (xattr_read img x) (Inside img rest b ys)
    unfolding xattr_read
    xattr_read-Inside b ys x s =
        let more : (x.remain == 0) ≡ false = ground (arith, remain_of (b ∷ ys) x s) in
        else-Yields img hdr_of _ _ more (
          bind-Yields img hdr_of _ take_entry (skipped-Fresh (b ∷ ys) x s)
            (λ y f. take_entry-Inside b ys y f))

    -- What a client does to list the attributes.
    abbrev pub read_next : Xattr → Action (List ℕ × List ℕ × Xattr)
    read_next x = do
      x₁ ← xattr_read img x
      (name, x₂) ← xattr_full_name img x₁
      (value, x₃) ← xattr_value img x₂
      pure (name, value, x₃)

    xattr_full_name-Inside :
        (a : Attribute) (ys : List Attribute) (x : Xattr)
        → Inside img rest a ys x
        → Yields img hdr_of
            (xattr_full_name img x)
            (λ r. (r.0 ≡ namespace a.type ++ a.name) × Inside img rest a ys r.1)
    unfolding xattr_full_name
    xattr_full_name-Inside a ys x s =
        bind-Yields img hdr_of (xattr_name img x) _ (xattr_name-Inside img rest hdr_of all a ys x s)
          (λ n p.
            pure-Yields img hdr_of _ (prefix x.type ++ n.0, n.1)
              (
                ap (λ t. prefix t ++ n.0) s.type
                    ∙ ap (λ t. prefix a.type ++ t) p.0
                    ∙ ap (λ t. t ++ a.name) (prefix-namespace a.type s.current.known),
                p.1,
              ))

    read_next-Yields :
        (b : Attribute) (ys : List Attribute) (x : Xattr)
        → Place (b ∷ ys) x
        → Yields img hdr_of
            (read_next x)
            (λ r. (r.0 ≡ namespace b.type ++ b.name) × (r.1 ≡ b.value) × Fresh img rest ys r.2)
    read_next-Yields b ys x s =
        bind-Yields img hdr_of (xattr_read img x) _ (xattr_read-Inside b ys x s) (λ x₁ i.
          bind-Yields img hdr_of (xattr_full_name img x₁) _ (xattr_full_name-Inside b ys x₁ i)
            (λ n p.
              bind-Yields img hdr_of (xattr_value img n.1) _
                (xattr_value-Fresh img rest hdr_of all b ys n.1 (inl p.1))
                (λ v q. pure-Yields img hdr_of _ (n.0, v.0, v.1) (p.0, q.0, q.1))))

    -- Where all allocations succeed and the state of the caches is sound, from a reader before
    -- some attributes with values inline, or at one before them of which the name, the size or
    -- nothing was read, `sqfs_xattr_read`, `sqfs_xattr_name` with the prefix and
    -- `sqfs_xattr_value` end without an error, skip what was not read, deliver the next
    -- attribute's name behind the text of its type (user. for 0, trusted. for 1 and security. for
    -- 2) and its value, and leave the reader before the others and the caches sound.
    pub read_next-Ends :
        (b : Attribute) (ys : List Attribute) (x : Xattr)
        → Place (b ∷ ys) x
        → (s : Caches) → IsSound img hdr_of s
        → Ends img hdr_of
            (λ r. (r.0 ≡ namespace b.type ++ b.name) × (r.1 ≡ b.value) × Fresh img rest ys r.2)
            s
            (read_next x s)
    read_next-Ends b ys x here s sound = read_next-Yields b ys x here s sound
