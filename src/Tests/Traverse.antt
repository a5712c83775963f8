-- ===== src/Tests/Traverse.antt =====
-- A path in a small buffer, and a traversal that is over.
use squashfuse.Common.{ℕ, ◌≤◌, ◌<◌, ◌≡◌, refl, [], ◌∷◌, ◌++◌, none, ok, arith, true, false, done}
use squashfuse.Actions.{got}
use squashfuse.Directory.{Dirent}
use squashfuse.Traverse.{
  Traverse, Level, name_remove, get_entry, round, round_at, rounds, remove_name, settled,
  traverse_next,
}
use squashfuse.Traverse.Buffer.{PathBuffer, path_add, path_remove, terminate}
use squashfuse.Traverse.Paths.{IsPath, string, path_add-IsPath, path_remove-path_add}
use squashfuse.Traverse.States.{rank, round-rank, rounds_fuel, Loop}
use squashfuse.Tests.Images.{image_of, empty_caches}

abbrev buffer : PathBuffer
buffer = record { bytes = 97 ∷ 47 ∷ 0 ∷ 9 ∷ []; size = 3; cap = 4 }

buffer-IsPath : IsPath buffer
buffer-IsPath = record {
  backed = refl;
  some_size = omega arith;
  within = omega arith;
  ended = refl;
}

path_add-IsPath_example :
    (q : PathBuffer) × (path_add (λ n. true) 9 buffer (98 ∷ 99 ∷ []) 2 ≡ done (ok, q))
    × IsPath q
    × (string q ≡ string buffer ++ 98 ∷ 99 ∷ [])
path_add-IsPath_example =
    path_add-IsPath (λ n. true) 9 (λ n. refl) buffer (98 ∷ 99 ∷ []) buffer-IsPath (omega arith)

path_remove-path_add_example :
    (q : PathBuffer) × (path_add (λ n. true) 9 buffer (98 ∷ 99 ∷ []) 2 ≡ done (ok, q))
    × (string (path_remove q 2) ≡ string buffer)
    × IsPath (path_remove q 2)
path_remove-path_add_example =
    path_remove-path_add (λ n. true) 9 (λ n. refl) buffer (98 ∷ 99 ∷ []) buffer-IsPath (omega arith)

abbrev level : Level
level = record {
  dir = record {
    cur = record { block = 1; offset = 0 };
    offset = 0;
    total = 0;
    header = record { count = 0; start_block = 0; inode_number = 0 };
  };
  name_size = 0;
}

abbrev entry : Dirent
entry = record {
  inode = 0;
  inode_number = 0;
  type = 0;
  name = [];
  name_size = 0;
  offset = 0;
  next_offset = 0;
}

abbrev started : Traverse
started = record {
  dir_end = false;
  entry = entry;
  state = name_remove;
  stack = record { value_size = 56; size = 0; capacity = 0; items = []; freer = none };
  path = buffer;
  path_last_size = 1;
}

abbrev shortened : Traverse
shortened = record started {
  state = get_entry;
  path = record { bytes = 97 ∷ 0 ∷ 0 ∷ 9 ∷ []; size = 2; cap = 4 };
}

round_started :
    round (image_of []) 9 level started empty_caches ≡ done (got (shortened, none), empty_caches)
unfolding round round_at remove_name path_remove terminate
round_started = refl

round-rank_example : rank get_entry < rank name_remove
round-rank_example =
    round-rank (image_of []) 9 level started shortened empty_caches empty_caches round_started

rounds_fuel_example :
    ((k : ℕ) × (k ≤ 4)
      × Loop
          (image_of [])
          9
          level
          k
          started
          empty_caches
          (rounds (image_of []) 9 level 4 started empty_caches))
    × (traverse_next (image_of []) 9 level started empty_caches
        ≡ settled
            (image_of [])
            9
            level
            started
            (rounds (image_of []) 9 level 4 started empty_caches))
rounds_fuel_example = rounds_fuel (image_of []) 9 level 4 started empty_caches (omega arith)
