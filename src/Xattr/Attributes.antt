-- ===== src/Xattr/Attributes.antt =====
-- A list of attributes as it is stored, with the values inline, and the reader's way through it.
use squashfuse.Common.{
  ℕ, ◌≤◌, ◌<◌, ◌^◌, ◌≡◌, ◌⊎◌, refl, sym, ap, ◌∙◌, true, false, List, [], ◌∷◌, ◌++◌, length,
  append-nil, append_assoc, if◌then◌else◌, inl, inr, Bool-cases,
}
use mathlib.Core.Path.{subst}
use squashfuse.Actions.{pure, md_bytes, md_skip}
use squashfuse.Actions.Rules.{
  Yields, pure-Yields, bind-Yields, then-Yields, else-Yields, md_bytes-Yields, md_skip-Yields,
  length-encode_fields,
}
use squashfuse.Block.Reads.{IsGranted}
use squashfuse.Format.{sizeof, encode_fields}
use squashfuse.Format.RoundTrip.{Fit}
use squashfuse.Format.Tables.{
  XattrEntry, XattrVal, xattr_entry_widths, xattr_entry_values, xattr_val_widths, xattr_val_values,
  swapin_xattr_val, swapin_xattr_val_lem,
}
use squashfuse.Fs.{Image, Cursor}
use squashfuse.Metadata.Stream.{Ahead}
use squashfuse.Xattr.{
  Xattr, prefix_max, past_value, read_val, follow, xattr_name, xattr_skip_name, xattr_value_size,
  xattr_value, xattr_skip_value,
}

-- The type is that of the prefix, and the name is what follows it.
pub record Attribute : Type 0 where
  pub type : ℕ
  pub name : List ℕ
  pub value : List ℕ

pub record IsAttribute (a : Attribute) : Type 0 where
  pub known : a.type ≤ prefix_max
  pub name : length a.name < 2 ^ 16
  pub value : length a.value < 2 ^ 32

abbrev pub AreAttributes : List Attribute → Type 0
AreAttributes [] = Unit {0}
AreAttributes (a ∷ ys) = IsAttribute a × AreAttributes ys

abbrev pub entry_of : Attribute → XattrEntry
entry_of a = record { type = a.type; size = length a.name }

abbrev pub val_of : Attribute → XattrVal
val_of a = record { vsize = length a.value }

unfoldable pub entry_bytes : Attribute → List ℕ
entry_bytes a = encode_fields xattr_entry_widths (xattr_entry_values (entry_of a))

-- The size of the value and the value.
unfoldable pub val_bytes : Attribute → List ℕ
val_bytes a = encode_fields xattr_val_widths (xattr_val_values (val_of a)) ++ a.value

unfoldable pub attributes_bytes : List Attribute → List ℕ
attributes_bytes [] = []
attributes_bytes (a ∷ ys) = entry_bytes a ++ (a.name ++ (val_bytes a ++ attributes_bytes ys))

module _ (img : Image) (rest : List ℕ) where
  -- So many attributes are before the reader, which knows where the next one is.
  pub record Fresh (ys : List Attribute) (x : Xattr) : Type 0 where
    pub remain : x.remain ≡ length ys
    pub attributes : AreAttributes ys
    pub known : x.has_next ≡ true
    pub ahead : Ahead img x.c_next.block x.c_next.offset (attributes_bytes ys ++ rest)

  -- The reader has read the entry of `a`, and perhaps its name, but nothing of its value.
  pub record Inside (a : Attribute) (ys : List Attribute) (x : Xattr) : Type 0 where
    pub remain : x.remain ≡ length ys
    pub attributes : AreAttributes ys
    pub current : IsAttribute a
    pub unknown : x.has_next ≡ false
    pub unread : x.has_val ≡ false
    pub inline : x.ool ≡ false
    pub type : x.type ≡ a.type
    pub size : x.entry.size ≡ length a.name
    pub name :
        Ahead img x.c_name.block x.c_name.offset
          (a.name ++ (val_bytes a ++ (attributes_bytes ys ++ rest)))
    pub value :
        x.has_vsize ≡ true
        → Ahead img x.c_vsize.block x.c_vsize.offset (val_bytes a ++ (attributes_bytes ys ++ rest))

  -- The size of the value is known as well.
  pub record Valued (a : Attribute) (ys : List Attribute) (x : Xattr) : Type 0 where
    pub remain : x.remain ≡ length ys
    pub attributes : AreAttributes ys
    pub read : x.has_val ≡ true
    pub unknown : x.has_next ≡ false
    pub inline : x.ool ≡ false
    pub size : x.val.vsize ≡ length a.value
    pub ahead : Ahead img x.c_val.block x.c_val.offset (a.value ++ (attributes_bytes ys ++ rest))

  module _ (hdr_of : ℕ → ℕ) (all : IsGranted img) where
    -- Reading a name leaves the reader before the value.
    pub xattr_name-Inside :
        (a : Attribute) (ys : List Attribute) (x : Xattr)
        → Inside a ys x
        → Yields img hdr_of (xattr_name img x) (λ r. (r.0 ≡ a.name) × Inside a ys r.1)
    unfolding xattr_name
    xattr_name-Inside a ys x s =
        bind-Yields img hdr_of (md_bytes img x.c_name x.entry.size) _
          (md_bytes-Yields img hdr_of all x.c_name x.entry.size a.name _ (sym s.size) s.name)
          (λ r p. pure-Yields img hdr_of _ _ (
            p.0,
            record {
              remain = s.remain;
              attributes = s.attributes;
              current = s.current;
              unknown = s.unknown;
              unread = s.unread;
              inline = s.inline;
              type = s.type;
              size = s.size;
              name = s.name;
              value = λ _. p.1;
            },
          ))

    xattr_skip_name-Inside :
        (a : Attribute) (ys : List Attribute) (x : Xattr)
        → Inside a ys x
        → Yields img hdr_of (xattr_skip_name img x) (λ r. Inside a ys r × (r.has_vsize ≡ true))
    unfolding xattr_skip_name
    xattr_skip_name-Inside a ys x s =
        bind-Yields img hdr_of (md_skip img x.c_name x.entry.size) _
          (md_skip-Yields img hdr_of all x.c_name x.entry.size a.name _ (sym s.size) s.name)
          (λ r p. pure-Yields img hdr_of _ _ (
            record {
              remain = s.remain;
              attributes = s.attributes;
              current = s.current;
              unknown = s.unknown;
              unread = s.unread;
              inline = s.inline;
              type = s.type;
              size = s.size;
              name = s.name;
              value = λ _. p;
            },
            refl,
          ))

    read_val-Yields :
        (a : Attribute) (behind : List ℕ) (cur : Cursor)
        → IsAttribute a
        → Ahead img cur.block cur.offset (val_bytes a ++ behind)
        → Yields img hdr_of
            (read_val img cur)
            (λ r. (r.0.vsize ≡ length a.value) × Ahead img r.1.block r.1.offset (a.value ++ behind))
    unfolding read_val val_bytes
    read_val-Yields a behind cur is ahead =
        let stored = encode_fields xattr_val_widths (xattr_val_values (val_of a)) in
        let fit : Fit xattr_val_widths (xattr_val_values (val_of a)) = (is.value, tt) in
        let front : Ahead img cur.block cur.offset (stored ++ (a.value ++ behind)) =
          rw append_assoc at ahead in
        bind-Yields img hdr_of (md_bytes img cur (sizeof xattr_val_widths)) _
          (md_bytes-Yields img hdr_of all cur (sizeof xattr_val_widths) stored _
            (length-encode_fields xattr_val_widths (xattr_val_values (val_of a)) fit) front)
          (λ r p.
            let e : swapin_xattr_val r.0 ≡ val_of a =
              ap swapin_xattr_val (p.0 ∙ sym (append-nil stored))
              ∙ swapin_xattr_val_lem (val_of a) [] fit in
            pure-Yields img hdr_of _ (swapin_xattr_val r.0, r.1)
              (ap (λ (v : XattrVal). v.vsize) e, p.1))

    known_size-Inside :
        (a : Attribute) (ys : List Attribute) (x : Xattr)
        → Inside a ys x
        → Yields img hdr_of
            (if x.has_vsize then pure x else xattr_skip_name img x)
            (λ r. Inside a ys r × (r.has_vsize ≡ true))
    known_size-Inside a ys x s = elim (Bool-cases x.has_vsize) [
      | inl e ↦ then-Yields img hdr_of _ _ e (pure-Yields img hdr_of _ x (s, e))
      | inr e ↦ else-Yields img hdr_of _ _ e (xattr_skip_name-Inside a ys x s)
    ]

    pub xattr_value_size-Valued :
        (a : Attribute) (ys : List Attribute) (x : Xattr)
        → Inside a ys x
        → Yields img hdr_of (xattr_value_size img x) (Valued a ys)
    unfolding xattr_value_size
    xattr_value_size-Valued a ys x s =
        bind-Yields img hdr_of _ _ (known_size-Inside a ys x s) (λ y p.
          bind-Yields img hdr_of (read_val img y.c_vsize) _
            (read_val-Yields a (attributes_bytes ys ++ rest) y.c_vsize s.current (p.0.value p.1))
            (λ r q.
              let z = record y { c_val = r.1; val = r.0 } in
              bind-Yields img hdr_of (if z.ool then follow img z else pure z) _
                (else-Yields img hdr_of _ _ p.0.inline (pure-Yields img hdr_of (λ w. w ≡ z) z refl))
                (λ w e.
                  pure-Yields img hdr_of _ (record w { has_val = true })
                    (record {
                      remain = ap (λ (t : Xattr). t.remain) e ∙ p.0.remain;
                      attributes = s.attributes;
                      read = refl;
                      unknown = ap (λ (t : Xattr). t.has_next) e ∙ p.0.unknown;
                      inline = ap (λ (t : Xattr). t.ool) e ∙ p.0.inline;
                      size = ap (λ (t : Xattr). t.val.vsize) e ∙ q.0;
                      ahead =
                          subst
                            (λ (t : Xattr).
                              Ahead img t.c_val.block t.c_val.offset
                                (a.value ++ (attributes_bytes ys ++ rest)))
                            (sym e) q.1;
                    }))))

    known_val-Valued :
        (a : Attribute) (ys : List Attribute) (x : Xattr)
        → Inside a ys x ⊎ Valued a ys x
        → Yields img hdr_of (if x.has_val then pure x else xattr_value_size img x) (Valued a ys)
    known_val-Valued a ys x (inl s) =
        else-Yields img hdr_of _ _ s.unread (xattr_value_size-Valued a ys x s)
    known_val-Valued a ys x (inr v) =
        then-Yields img hdr_of _ _ v.read (pure-Yields img hdr_of _ x v)

    past_value-Fresh :
        (a : Attribute) (ys : List Attribute) (x : Xattr) (cur : Cursor)
        → Valued a ys x
        → Ahead img cur.block cur.offset (attributes_bytes ys ++ rest)
        → Fresh ys (past_value img x cur)
    past_value-Fresh a ys x cur v ahead =
        subst (λ b. Fresh ys (if b then x else record x { c_next = cur; has_next = true }))
          (sym v.inline)
          (record { remain = v.remain; attributes = v.attributes; known = refl; ahead = ahead })

    -- Reading a value leaves the reader before the next attribute.
    pub xattr_value-Fresh :
        (a : Attribute) (ys : List Attribute) (x : Xattr)
        → Inside a ys x ⊎ Valued a ys x
        → Yields img hdr_of (xattr_value img x) (λ r. (r.0 ≡ a.value) × Fresh ys r.1)
    unfolding xattr_value
    xattr_value-Fresh a ys x s = bind-Yields img hdr_of _ _ (known_val-Valued a ys x s) (λ y v.
        bind-Yields img hdr_of (md_bytes img y.c_val y.val.vsize) _
          (md_bytes-Yields img hdr_of all y.c_val y.val.vsize a.value _ (sym v.size) v.ahead)
          (λ r p.
            pure-Yields img hdr_of _ (r.0, past_value img y r.1)
              (p.0, past_value-Fresh a ys y r.1 v p.1)))

    pub xattr_skip_value-Fresh :
        (a : Attribute) (ys : List Attribute) (x : Xattr)
        → Inside a ys x ⊎ Valued a ys x
        → Yields img hdr_of (xattr_skip_value img x) (Fresh ys)
    unfolding xattr_skip_value
    xattr_skip_value-Fresh a ys x s = bind-Yields img hdr_of _ _ (known_val-Valued a ys x s) (λ y v.
        bind-Yields img hdr_of (md_skip img y.c_val y.val.vsize) _
          (md_skip-Yields img hdr_of all y.c_val y.val.vsize a.value _ (sym v.size) v.ahead)
          (λ cur p.
            pure-Yields img hdr_of _ (past_value img y cur) (past_value-Fresh a ys y cur v p)))
