-- ===== src/Tests/Xattr.antt =====
-- One attribute, "user.a" with the value 7.
use squashfuse.Common.{ℕ, ◌≡◌, refl, List, [], ◌∷◌, some, arith, inl}
use squashfuse.Actions.Rules.{Ends}
use squashfuse.Block.Reads.{block_at, unpack}
use squashfuse.Block.{md_header}
use squashfuse.Format.{swapin, swapin_loop, encode_fields, le_bytes}
use squashfuse.Fs.{Image}
use squashfuse.Metadata.Stream.{md_at}
use squashfuse.Xattr.{Xattr, closed}
use squashfuse.Xattr.Attributes.{Attribute, Fresh, attributes_bytes, entry_bytes, val_bytes}
use squashfuse.Directory.Names.{IsText}
use squashfuse.Xattr.Find.{xattr_find}
use squashfuse.Xattr.Search.{Located, xattr_find-Ends}
use squashfuse.Xattr.Walk.{read_next, read_next-Ends}
use squashfuse.Tests.Images.{
  image_of, image_of-IsGranted, front, front-Ahead, empty_caches, no_header, empty_caches-IsSound,
}

abbrev attribute : Attribute
attribute = record { type = 0; name = 97 ∷ []; value = 7 ∷ [] }

abbrev stored : List ℕ
stored = 0 ∷ 0 ∷ 1 ∷ 0 ∷ 97 ∷ 1 ∷ 0 ∷ 0 ∷ 0 ∷ 7 ∷ []

abbrev xattr_image : Image
xattr_image = image_of stored

stored_there : md_at xattr_image 1 ≡ some (stored, 12)
unfolding md_at block_at unpack md_header swapin swapin_loop
stored_there = refl

stored_encoded : attributes_bytes (attribute ∷ []) ≡ stored
unfolding attributes_bytes entry_bytes val_bytes encode_fields le_bytes
stored_encoded = refl

abbrev opened : Xattr
opened = record closed { c_next = front; remain = 1 }

opened-Fresh : Fresh xattr_image [] (attribute ∷ []) opened
opened-Fresh = record {
  remain = refl;
  attributes = (record { known = omega arith; name = omega arith; value = omega arith }, tt);
  known = refl;
  ahead =
      rw stored_encoded
        (front-Ahead xattr_image stored 12 stored_there (omega arith) (omega arith));
}

read_next-Ends_example :
    Ends xattr_image no_header
      (λ r.
        (r.0 ≡ 117 ∷ 115 ∷ 101 ∷ 114 ∷ 46 ∷ 97 ∷ []) × (r.1 ≡ 7 ∷ []) × Fresh xattr_image [] [] r.2)
      empty_caches
      (read_next xattr_image [] no_header (image_of-IsGranted stored) opened empty_caches)
read_next-Ends_example =
    read_next-Ends xattr_image [] no_header (image_of-IsGranted stored) attribute [] opened
      (inl opened-Fresh) empty_caches (empty_caches-IsSound xattr_image)

a-IsText : IsText (97 ∷ [])
a-IsText = (omega arith, tt)

xattr_find-Ends_example :
    Ends xattr_image no_header
      (Located xattr_image [] no_header
        (image_of-IsGranted stored)
        0
        (97 ∷ [])
        a-IsText
        (attribute ∷ []))
      empty_caches
      (xattr_find xattr_image opened (117 ∷ 115 ∷ 101 ∷ 114 ∷ 46 ∷ 97 ∷ []) empty_caches)
xattr_find-Ends_example =
    xattr_find-Ends xattr_image [] no_header (image_of-IsGranted stored) 0 (97 ∷ []) a-IsText
      (attribute ∷ []) opened (omega arith) (inl opened-Fresh) empty_caches
      (empty_caches-IsSound xattr_image)
