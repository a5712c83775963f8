-- ===== src/Block/Headers.antt =====
-- The headers of blocks: a size with a flag above it that is set where the block is not compressed.
use squashfuse.Common.{ℕ, ◌+◌, ◌-◌, ◌*◌, ◌/◌, ◌%◌, ◌^◌, ◌≤◌, ◌<◌, ◌≡◌, Bool, arith, if◌then◌else◌}
use Prim.Native.Nat.{bit_and}
use squashfuse.Common.Bits.{bit_and-split, bit_and-zero, bit_and-mask}
use squashfuse.Block.{md_header, data_header}

-- A bit below the top one, and the rest.
flag_bits : (x : ℕ) → x < 2 → bit_and x 1 ≡ x
flag_bits x h = omega (arith, bit_and-mask 1 x)

md_flag : (hdr : ℕ) → hdr < 2 ^ 16 → bit_and hdr (2 ^ 15) ≡ hdr / 2 ^ 15 * 2 ^ 15
md_flag hdr h = omega (
  arith,
  bit_and-split 15 hdr 1 0 (omega arith),
  bit_and-zero (hdr % 2 ^ 15),
  flag_bits (hdr / 2 ^ 15) (omega arith),
)

md_low : (hdr : ℕ) → hdr < 2 ^ 16 → bit_and hdr (2 ^ 32 - 1 - 2 ^ 15) ≡ hdr % 2 ^ 15
md_low hdr h =
    let above = hdr / 2 ^ 15 in
    let nothing : above / 2 ≡ 0 = omega arith in
    omega (
      arith,
      bit_and-split 15 hdr 0x1fffe (2 ^ 15 - 1) (omega arith),
      bit_and-split 1 above 0xffff 0 (omega arith),
      bit_and-mask 16 (above / 2),
      bit_and-zero (above % 2),
      bit_and-mask 15 (hdr % 2 ^ 15),
    )

data_flag : (hdr : ℕ) → bit_and hdr (2 ^ 24) ≡ hdr / 2 ^ 24 % 2 * 2 ^ 24
data_flag hdr = omega (
  arith,
  bit_and-split 24 hdr 1 0 (omega arith),
  bit_and-zero (hdr % 2 ^ 24),
  bit_and-mask 1 (hdr / 2 ^ 24),
)

data_low :
    (hdr : ℕ)
    → hdr < 2 ^ 32
    → bit_and hdr (2 ^ 32 - 1 - 2 ^ 24) ≡ hdr % 2 ^ 24 + hdr / 2 ^ 25 * 2 ^ 25
data_low hdr h =
    let above = hdr / 2 ^ 24 in
    omega (
      arith,
      bit_and-split 24 hdr 0xfe (2 ^ 24 - 1) (omega arith),
      bit_and-split 1 above 0x7f 0 (omega arith),
      bit_and-mask 7 (above / 2),
      bit_and-zero (above % 2),
      bit_and-mask 24 (hdr % 2 ^ 24),
    )

-- The header of a metadata block of 1 to 2^15 bytes: the size, 2^15 written as 0, and the flag.
abbrev pub pack_md_header : Bool → ℕ → ℕ
pack_md_header compressed size = size % 2 ^ 15 + (if compressed then 0 else 2 ^ 15)

-- Every 16-bit metadata header yields a size from 1 to 2^15.
pub md_header_bounds :
    (hdr : ℕ) → hdr < 2 ^ 16 → (1 ≤ (md_header hdr).1) × ((md_header hdr).1 ≤ 2 ^ 15)
unfolding md_header
md_header_bounds hdr h = ground (arith, md_low hdr h)

-- The metadata header that packs a flag and a size from 1 to 2^15 is read back as that flag and
-- that size.
pub md_header-pack :
    (compressed : Bool) (size : ℕ)
    → 1 ≤ size
    → size ≤ 2 ^ 15
    → md_header (pack_md_header compressed size) ≡ (compressed, size)
unfolding md_header
md_header-pack compressed size lo hi =
    let hdr = pack_md_header compressed size in ground (arith, md_low hdr, md_flag hdr)

-- The header of a data block of less than 2^24 bytes.
abbrev pub pack_data_header : Bool → ℕ → ℕ
pack_data_header compressed size = size + (if compressed then 0 else 2 ^ 24)

-- The data block header that packs a flag and a size below 2^24 is read back as that flag and
-- that size.
pub data_header-pack :
    (compressed : Bool) (size : ℕ)
    → size < 2 ^ 24
    → data_header (pack_data_header compressed size) ≡ (compressed, size)
unfolding data_header
data_header-pack compressed size h =
    let hdr = pack_data_header compressed size in ground (arith, data_low hdr, data_flag hdr)
