-- ===== src/Format.antt =====
-- swap.c, and the code that gen_swap.sh makes of squashfs_fs.h: on-disk structures are packed
-- little-endian fields, and swapping one in reads each field's bytes into a host number.
-- A structure's memory is the list of its bytes.
pub mod Super
pub mod Inodes
pub mod TreeInodes
pub mod Dirs
pub mod Tables
pub mod RoundTrip
use squashfuse.Common.{
  ℕ, zero, suc, ◌+◌, ◌*◌, ◌/◌, ◌%◌, ◌^◌, List, [], ◌∷◌, ◌++◌, get_or, take, drop,
}

-- The loop of `SWAP(BITS)`: from the last byte down, in a number of n bytes.
unfoldable pub swapin_loop : ℕ → List ℕ → ℕ → ℕ → ℕ
swapin_loop n c zero r = r
swapin_loop n c (suc i) r = swapin_loop n c i ((r * 256 % 256 ^ n + get_or c i 0) % 256 ^ n)

-- `sqfs_swapin16`, `sqfs_swapin32` and `sqfs_swapin64`: n is 2, 4 and 8.
unfoldable pub swapin : ℕ → List ℕ → ℕ
swapin n c = swapin_loop n c n 0

-- `sqfs_swap16`: both shifts are done in `int`, and the store keeps 16 bits.
unfoldable pub swap16 : ℕ → ℕ
swap16 n = (n / 2 ^ 8 + n * 2 ^ 8) % 2 ^ 16

-- The fields of a structure with these widths in bytes, swapped in one after the other.
unfoldable pub swapin_fields : List ℕ → List ℕ → List ℕ
swapin_fields [] bytes = []
swapin_fields (n ∷ ns) bytes = swapin n (take n bytes) ∷ swapin_fields ns (drop n bytes)

abbrev pub sizeof : List ℕ → ℕ
sizeof [] = 0
sizeof (n ∷ ns) = n + sizeof ns

-- The format's own description: n bytes of a number, the lowest first.
unfoldable pub le_bytes : ℕ → ℕ → List ℕ
le_bytes zero v = []
le_bytes (suc n) v = (v % 256) ∷ le_bytes n (v / 256)

-- A structure's bytes, from the widths and the values of its fields.
unfoldable pub encode_fields : List ℕ → List ℕ → List ℕ
encode_fields (n ∷ ns) (v ∷ vs) = le_bytes n v ++ encode_fields ns vs
encode_fields _ _ = []
