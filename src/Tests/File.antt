-- ===== src/Tests/File.antt =====
-- A list of two blocks.
use squashfuse.Common.{ℕ, ◌+◌, ◌*◌, ◌≡◌, refl, List, [], ◌∷◌, some, arith, false}
use squashfuse.Actions.Rules.{Ends}
use squashfuse.Block.Reads.{block_at, unpack}
use squashfuse.Block.{md_header}
use squashfuse.File.{Blocklist}
use squashfuse.File.Blocks.{Before, block_start, headers_bytes, walk, walk-Ends}
use squashfuse.Format.{swapin, swapin_loop, le_bytes}
use squashfuse.Fs.{Image}
use squashfuse.Metadata.Stream.{md_at}
use squashfuse.Tests.Images.{
  image_of, image_of-IsGranted, front, front-Ahead, empty_caches, no_header, empty_caches-IsSound,
}

abbrev headers : List ℕ
headers = 3 ∷ 5 ∷ []

abbrev stored : List ℕ
stored = 3 ∷ 0 ∷ 0 ∷ 0 ∷ 5 ∷ 0 ∷ 0 ∷ 0 ∷ []

abbrev list_image : Image
list_image = image_of stored

stored_there : md_at list_image 1 ≡ some (stored, 10)
unfolding md_at block_at unpack md_header swapin swapin_loop
stored_there = refl

stored_encoded : headers_bytes headers ≡ stored
unfolding headers_bytes le_bytes
stored_encoded = refl

abbrev blocklist : Blocklist
blocklist = record {
  remain = 2;
  cur = front;
  started = false;
  pos = 0;
  block = 96;
  header = 0;
  input_size = 0;
}

blocklist-Before : Before list_image [] headers 96 0 blocklist
blocklist-Before = record {
  remain = refl;
  headers = (omega arith, (omega arith, tt));
  ahead =
      rw stored_encoded (front-Ahead list_image stored 10 stored_there (omega arith) (omega arith));
  start_there = refl;
  pos_there = refl;
}

walk-Ends_example :
    Ends list_image no_header
      (λ r. (r.header ≡ 5) × (r.block ≡ block_start 96 headers 1) × (r.pos ≡ 0 + 1 * 4096))
      empty_caches
      (walk list_image [] 1 blocklist empty_caches)
walk-Ends_example =
    walk-Ends list_image [] no_header (image_of-IsGranted stored) 1 5 headers 96 0 blocklist
      blocklist-Before refl (omega arith) empty_caches (empty_caches-IsSound list_image)
