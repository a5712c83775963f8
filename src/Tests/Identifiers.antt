-- ===== src/Tests/Identifiers.antt =====
-- Tables of identifiers in the small file.
use squashfuse.Common.{
  ℕ, zero, suc, ◌*◌, ◌<◌, ◌≡◌, refl, true, some, List, [], ◌∷◌, take, drop, get_elem?, ok, done,
  arith,
}
use squashfuse.Block.{metadata_size, md_header}
use squashfuse.Block.Reads.{IsGranted, unpack, block_at}
use squashfuse.Block.Coherence.{IsCoherent}
use squashfuse.Format.{swapin, swapin_loop, swapin_fields, le_bytes}
use squashfuse.Format.Super.{swapin_super_block}
use squashfuse.Fs.{BlockCache, Image}
use squashfuse.Identifiers.{id_get, export_ok, export_inode}
use squashfuse.Identifiers.Lookup.{all_bytes, id_get_lem, export_inode_lem}
use squashfuse.Metadata.Stream.{md_at, IsMetadata}
use squashfuse.Tables.Entries.{IsTable}
use squashfuse.Tests.Blocks.{small_image, empty_cache, empty_cache-IsCoherent}

-- Two identifiers in the last block, which are one inode's too.
abbrev listing : Image
listing = record small_image {
  id_table = record { each = 4; count = 2; blocks = 10 ∷ [] };
  export_table = record { each = 8; count = 1; blocks = 10 ∷ [] };
}

listing-IsGranted : IsGranted listing
listing-IsGranted = record { granted = λ n. refl }

last_block : md_at listing 10 ≡ some (1 ∷ 2 ∷ 3 ∷ 4 ∷ 0 ∷ 0 ∷ 0 ∷ 0 ∷ [], 10)
unfolding md_at block_at unpack md_header swapin swapin_loop
last_block = refl

abbrev ids : List ℕ
ids = 0x04030201 ∷ 0 ∷ []

abbrev inodes : List ℕ
inodes = 0x04030201 ∷ []

id_block :
    (i : ℕ)
    → i * metadata_size < 8
    → (pos : ℕ) × (n : ℕ) × (get_elem? listing.id_table.blocks i ≡ some pos)
      × (0 < pos)
      × (md_at listing pos
          ≡ some (take metadata_size (drop (i * metadata_size) (all_bytes 4 ids)), n))
unfolding all_bytes le_bytes
id_block zero h = (10, 10, refl, omega arith, last_block)
id_block (suc i) h = absurd (omega arith)

ids-IsTable : IsTable listing listing.id_table (all_bytes 4 ids)
unfolding all_bytes le_bytes
ids-IsTable = record {
  per_block = 2048;
  some_per_block = omega arith;
  some_bytes = omega arith;
  whole = refl;
  small = omega arith;
  width = refl;
  block_there = id_block;
}

inode_block :
    (i : ℕ)
    → i * metadata_size < 8
    → (pos : ℕ) × (n : ℕ) × (get_elem? listing.export_table.blocks i ≡ some pos)
      × (0 < pos)
      × (md_at listing pos
          ≡ some (take metadata_size (drop (i * metadata_size) (all_bytes 8 inodes)), n))
unfolding all_bytes le_bytes
inode_block zero h = (10, 10, refl, omega arith, last_block)
inode_block (suc i) h = absurd (omega arith)

inodes-IsTable : IsTable listing listing.export_table (all_bytes 8 inodes)
unfolding all_bytes le_bytes
inodes-IsTable = record {
  per_block = 1024;
  some_per_block = omega arith;
  some_bytes = omega arith;
  whole = refl;
  small = omega arith;
  width = refl;
  block_there = inode_block;
}

id_get_lem_example :
    (bc' : BlockCache) × (id_get listing 0 empty_cache ≡ done (ok, some 0x04030201, bc'))
    × IsCoherent (IsMetadata listing) bc'
id_get_lem_example =
    id_get_lem listing listing-IsGranted ids ids-IsTable refl empty_cache
      (empty_cache-IsCoherent (IsMetadata listing)) 0 0x04030201 refl (omega arith) (omega arith)

exported : export_ok listing ≡ true
unfolding export_ok swapin_super_block swapin_fields swapin swapin_loop
exported = refl

export_inode_lem_example :
    (bc' : BlockCache) × (export_inode listing 1 empty_cache ≡ done (ok, some 0x04030201, bc'))
    × IsCoherent (IsMetadata listing) bc'
export_inode_lem_example =
    export_inode_lem listing listing-IsGranted inodes inodes-IsTable refl empty_cache
      (empty_cache-IsCoherent (IsMetadata listing)) 0 0x04030201 exported refl (omega arith)
      (omega arith) (omega arith)
