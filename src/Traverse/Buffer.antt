-- ===== src/Traverse/Buffer.antt =====
-- traverse.c: the buffer of the path, memory of its capacity that holds a string and a 0 behind it.
use squashfuse.Common.{
  ℕ, zero, suc, ◌+◌, ◌-◌, ◌*◌, ◌%◌, Bool, List, [], ◌++◌, length, take, drop, set, replicate,
  SqfsErr, ok, err, Outcome, done, fault, out_of_fuel, ◌>>=◌, ltb, if◌then◌else◌,
}
use squashfuse.Stack.{size_mod, resize}

pub record PathBuffer : Type 0 where
  pub bytes : List ℕ
  pub size : ℕ
  pub cap : ℕ

-- `TRAVERSE_DEFAULT_PATH_CAP`.
abbrev pub default_path_cap : ℕ
default_path_cap = 32

unfoldable pub terminate : PathBuffer → PathBuffer
terminate p = record p { bytes = set p.bytes (p.size - 1) 0 }

-- `memcpy` into the memory.
unfoldable pub overwrite : List ℕ → ℕ → List ℕ → List ℕ
overwrite memory at str = take at memory ++ (str ++ drop (at + length str) memory)

-- `while (need > next_cap) next_cap *= 2`, on fuel. After 64 doublings the capacity is 0 for good,
-- so where the fuel is used up the code goes on for ever.
unfoldable pub grown_cap : ℕ → ℕ → ℕ → Outcome ℕ
grown_cap zero need cap = fault out_of_fuel
grown_cap (suc fuel) need cap =
    let rest = grown_cap fuel need (cap * 2 % size_mod) in if ltb cap need then rest else done cap

abbrev pub cap_fuel : ℕ
cap_fuel = 64

module _ (grants : ℕ → Bool) (junk : ℕ) where
  unfoldable pub path_init : SqfsErr × PathBuffer
  path_init =
      if grants default_path_cap
      then (
        ok,
        record {
          bytes = set (replicate default_path_cap junk) 0 0;
          size = 1;
          cap = default_path_cap;
        },
      )
      else (err, record { bytes = []; size = 0; cap = default_path_cap })

  unfoldable pub ensure_path : PathBuffer → ℕ → Outcome (SqfsErr × PathBuffer)
  ensure_path p need =
      let grow = (do
        cap ← grown_cap cap_fuel need p.cap
        (if grants cap
            then done (ok, record p { bytes = resize junk cap p.bytes; cap = cap })
            else done (err, p))) in
      if ltb p.cap need then grow else done (ok, p)

  abbrev append_to : ℕ → List ℕ → SqfsErr × PathBuffer → SqfsErr × PathBuffer
  append_to need str (ok, p) =
      (ok, terminate (record p { bytes = overwrite p.bytes (p.size - 1) str; size = need }))
  append_to need str (e, p) = (e, p)

  -- Of `str`, so many characters.
  unfoldable pub path_add : PathBuffer → List ℕ → ℕ → Outcome (SqfsErr × PathBuffer)
  path_add p str size = do
    let need = (p.size + size) % size_mod
    r ← ensure_path p need
    done (append_to need (take size str) r)

unfoldable pub path_remove : PathBuffer → ℕ → PathBuffer
path_remove p size =
    terminate (if ltb size p.size then record p { size = p.size - size } else record p { size = 1 })
