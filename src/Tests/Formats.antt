-- ===== src/Tests/Formats.antt =====
-- Swapping in a few bytes.
use squashfuse.Common.{◌+◌, ◌*◌, ◌≡◌, refl, [], ◌∷◌, ◌++◌, arith}
use squashfuse.Format.{swapin, swap16, swapin_fields, le_bytes, encode_fields}
use squashfuse.Format.RoundTrip.{swapin-le_bytes, swapin_fields-encode_fields, swap16-bytes}

swapin-magic : swapin 4 (le_bytes 4 0x73717368) ≡ 0x73717368
swapin-magic = swapin-le_bytes 4 0x73717368 (omega arith)

magic_bytes : le_bytes 4 0x73717368 ≡ 0x68 ∷ 0x73 ∷ 0x71 ∷ 0x73 ∷ []
unfolding le_bytes
magic_bytes = refl

swapin_fields-encode_fields_example :
    swapin_fields (4 ∷ 2 ∷ []) (encode_fields (4 ∷ 2 ∷ []) (70000 ∷ 515 ∷ []) ++ 1 ∷ [])
    ≡ 70000 ∷ 515 ∷ []
swapin_fields-encode_fields_example =
    swapin_fields-encode_fields (4 ∷ 2 ∷ []) (70000 ∷ 515 ∷ []) (1 ∷ [])
      (omega arith, (omega arith, tt))

swap16-bytes_test : swap16 (0x34 + 256 * 0x12) ≡ 0x12 + 256 * 0x34
swap16-bytes_test = swap16-bytes 0x34 0x12 (omega arith) (omega arith)
