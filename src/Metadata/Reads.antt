-- ===== src/Metadata/Reads.antt =====
-- `sqfs_md_read` takes the bytes that lie ahead of the cursor, across blocks, and moves it past them.
use squashfuse.Common.{
  ℕ, zero, suc, ◌+◌, ◌-◌, ◌%◌, ◌≤◌, ◌<◌, ◌≡◌, refl, sym, ap, ◌∙◌, Bool, true, false, some, List, [],
  ◌∷◌, ◌++◌, take, drop, length, SqfsErr, ok, Outcome, done, ltb, ◌==◌, if◌then◌else◌, arith,
  Bool-cases, ltb→lt, ne→==, inl, inr, length-append, length-drop, take-length_append,
  drop-length_append, append_assoc, le→leb, ==_refl, drop-drop, take_all, ℕ-cases,
}
use native.Mathlib.Nat.{mod-eq_of_lt}
use squashfuse.Fs.{BlockCache, Image, Cursor}
use squashfuse.Block.Reads.{IsGranted}
use squashfuse.Block.Coherence.{counted_block, IsCoherent, deref-held, block_dispose-held}
use squashfuse.Metadata.{size_mod, amount, copy, md_read_loop, md_read}
use squashfuse.Metadata.Stream.{
  IsMetadata, Cached, md_cache-Cached, md_at, Ahead, finished, inside, append_split,
}

-- What goes into `buf`.
abbrev pub given : Bool → List ℕ → List ℕ
given wanted xs = if wanted then xs else []

given_nothing : (wanted : Bool) → given wanted [] ≡ []
given_nothing true = refl
given_nothing false = refl

append_nil : (xs : List ℕ) → xs ++ [] ≡ xs
append_nil [] = refl
append_nil (x ∷ xs) = ap (λ t. x ∷ t) (append_nil xs)

fuel_left : (fuel : ℕ) → 0 < fuel → (k : ℕ) × (fuel ≡ suc k)
fuel_left zero h = absurd (omega arith)
fuel_left (suc k) h = (k, refl)

given_append :
    (wanted : Bool) (xs ys : List ℕ) → given wanted xs ++ given wanted ys ≡ given wanted (xs ++ ys)
given_append true xs ys = refl
given_append false xs ys = refl

-- The outcome of a read: `xs` is delivered, `rest` lies ahead, and the cache serves the next call.
pub record Read (img : Image) (wanted : Bool) (buf xs rest : List ℕ)
    (r : Outcome (SqfsErr × Cursor × List ℕ × BlockCache)) : Type 0 where
  pub cursor : Cursor
  pub state : BlockCache
  pub coherent : IsCoherent (IsMetadata img) state
  pub ahead : Ahead img cursor.block cursor.offset rest
  pub returns : r ≡ done (ok, cursor, buf ++ given wanted xs, state)

amount_lem :
    (b o size : ℕ)
    → o ≤ b
    → b < size_mod
    → amount b o size ≡ (if ltb size (b - o) then size else b - o)
unfolding amount
amount_lem b o size h small =
    let left : (b + size_mod - o) % size_mod ≡ b - o = omega arith in rw left refl

pub copy_lem :
    (wanted : Bool) (bytes : List ℕ) (offset n : ℕ)
    → offset + n ≤ length bytes
    → copy wanted (counted_block bytes 2) offset n
      ≡ done (given wanted (take n (drop offset bytes)))
unfolding copy
copy_lem true bytes offset n h = rw (le→leb (offset + n) (length bytes) h) refl
copy_lem false bytes offset n h = refl

module _ (img : Image) (all : IsGranted img) (wanted : Bool) where
  stop_lem :
      (fuel : ℕ) (cur : Cursor) (pos : ℕ) (buf : List ℕ) (bc : BlockCache)
      → md_read_loop img (suc fuel) wanted cur pos 0 buf bc ≡ done (ok, cur, buf, bc)
  unfolding md_read_loop
  stop_lem fuel cur pos buf bc = refl

  -- A round that takes m bytes from the block at the cursor.
  round_lem :
      (fuel : ℕ) (cur : Cursor) (size m n : ℕ) (buf bytes : List ℕ) (bc : BlockCache)
      (there : md_at img cur.block ≡ some (bytes, n))
      (x : Cached img all cur.block bytes n there bc)
      → 0 < size
      → length bytes < size_mod
      → cur.offset + m ≤ length bytes
      → amount (length bytes) cur.offset size ≡ m
      → md_read_loop img (suc fuel) wanted cur cur.block size buf bc
        ≡ md_read_loop img fuel wanted
            (if cur.offset + m == length bytes
              then record { block = cur.block + n; offset = 0 }
              else record { block = cur.block; offset = cur.offset + m })
            (cur.block + n)
            (size - m)
            (buf ++ given wanted (take m (drop cur.offset bytes)))
            x.state
  unfolding md_read_loop
  round_lem fuel cur size m n buf bytes bc there x some_left small room takes =
      let more : (size == 0) ≡ false = ne→== size 0 (omega arith) in
      let exact : (cur.offset + m) % size_mod ≡ cur.offset + m = mod-eq_of_lt (omega arith) in
      rw (more, md_read_loop, x.returns, deref-held x.state.heap x.address bytes x.live, takes)
        (rw
          (
            copy_lem wanted bytes cur.offset m room,
            exact,
            block_dispose-held x.state.heap x.address bytes x.live,
          )
          refl)

  -- The last round, inside the block.
  part_lem :
      (fuel : ℕ) (cur : Cursor) (size n : ℕ) (buf bytes : List ℕ) (bc : BlockCache)
      (there : md_at img cur.block ≡ some (bytes, n))
      (x : Cached img all cur.block bytes n there bc)
      → 0 < size
      → length bytes < size_mod
      → size < length bytes - cur.offset
      → 0 < fuel
      → md_read_loop img (suc fuel) wanted cur cur.block size buf bc
        ≡ done (
          ok,
          record { block = cur.block; offset = cur.offset + size },
          buf ++ given wanted (take size (drop cur.offset bytes)),
          x.state,
        )
  part_lem fuel cur size n buf bytes bc there x some_left small part again =
      let takes : amount (length bytes) cur.offset size ≡ size =
        amount_lem (length bytes) cur.offset size (omega arith) small ∙ ground arith in
      let stays : (cur.offset + size == length bytes) ≡ false =
        ne→== (cur.offset + size) (length bytes) (omega arith) in
      let (k, e) = fuel_left fuel again in
      let all_taken : size - size ≡ 0 = omega arith in
      round_lem fuel cur size size n buf bytes bc there x some_left small (omega arith) takes
      ∙ rw (stays, all_taken, e) (stop_lem k _ (cur.block + n) _ x.state)

  -- A round that takes the rest of the block.
  whole_lem :
      (fuel : ℕ) (cur : Cursor) (size n : ℕ) (buf bytes : List ℕ) (bc : BlockCache)
      (there : md_at img cur.block ≡ some (bytes, n))
      (x : Cached img all cur.block bytes n there bc)
      → 0 < size
      → length bytes < size_mod
      → cur.offset ≤ length bytes
      → length bytes - cur.offset ≤ size
      → md_read_loop img (suc fuel) wanted cur cur.block size buf bc
        ≡ md_read_loop img fuel wanted
            (record { block = cur.block + n; offset = 0 })
            (cur.block + n)
            (size - (length bytes - cur.offset))
            (buf ++ given wanted (take (length bytes - cur.offset) (drop cur.offset bytes)))
            x.state
  whole_lem fuel cur size n buf bytes bc there x some_left small reach whole =
      let m = length bytes - cur.offset in
      let takes : amount (length bytes) cur.offset size ≡ m =
        amount_lem (length bytes) cur.offset size reach small ∙ ground arith in
      let end : cur.offset + m ≡ length bytes = omega arith in
      let moves : (cur.offset + m == length bytes) ≡ true = rw end (==_refl (length bytes)) in
      rw moves at
        (round_lem fuel cur size m n buf bytes bc there x some_left small (omega arith) takes)

  loop-Read :
      (fuel : ℕ) (cur : Cursor) (ahead xs rest buf : List ℕ) (bc : BlockCache)
      → Ahead img cur.block cur.offset ahead
      → ahead ≡ xs ++ rest
      → IsCoherent (IsMetadata img) bc
      → length xs < fuel
      → (0 < cur.offset → length xs + 1 < fuel)
      → Read img wanted buf xs rest (md_read_loop img fuel wanted cur cur.block (length xs) buf bc)
  loop-Read zero cur ahead xs rest buf bc a e c enough more = absurd (omega arith)
  loop-Read (suc fuel) cur ahead [] rest buf bc a e c enough more = record {
    cursor = cur;
    state = bc;
    coherent = c;
    ahead = rw e at a;
    returns = stop_lem fuel cur cur.block buf bc ∙ rw (given_nothing wanted, append_nil buf) refl;
  }
  loop-Read (suc fuel) cur ahead (y ∷ xs) rest buf bc (finished o none_left) e c enough more =
      absurd (omega (arith, ap length (sym e ∙ none_left)))
  loop-Read (suc fuel) cur ahead (y ∷ xs) rest buf bc
        (inside {n = n} {bytes = bytes} {rest = next} behind there nonempty small reach a split) e c
        enough more =
      let x = md_cache-Cached img all cur.block bytes n there bc c behind in
      let size = length (y ∷ xs) in
      let here = drop cur.offset bytes in
      let left : length here ≡ length bytes - cur.offset = length-drop cur.offset bytes in
      elim (Bool-cases (ltb size (length bytes - cur.offset))) [
        | inl part ↦
            let below = ltb→lt size (length bytes - cur.offset) part in
            let (t, front, back) =
              append_split (y ∷ xs) rest here next (sym e ∙ split) (omega arith) in
            let taken : take size here ≡ y ∷ xs =
              ap (take size) front ∙ take-length_append (y ∷ xs) t in
            let kept : drop (cur.offset + size) bytes ≡ t =
              sym (drop-drop cur.offset size bytes)
              ∙ ap (drop size) front
              ∙ drop-length_append (y ∷ xs) t in
            record {
              cursor = record { block = cur.block; offset = cur.offset + size };
              state = x.state;
              coherent = x.coherent;
              ahead = inside behind there nonempty small (omega arith) a (rw kept back);
              returns =
                  part_lem fuel cur size n buf bytes bc there x (omega arith) small below
                    (omega arith)
                  ∙ rw taken refl;
            }
        | inr whole ↦
            let m = length bytes - cur.offset in
            let fits : m ≤ size = ground arith in
            let (t, front, back) =
              append_split here next (y ∷ xs) rest (sym split ∙ e) (omega arith) in
            let sizes : size - m ≡ length t =
              omega (arith, ap length front, length-append here t) in
            let taken : take m here ≡ here = take_all m here (omega arith) in
            let delivered : (buf ++ given wanted here) ++ given wanted t
                ≡ buf ++ given wanted (y ∷ xs) =
              append_assoc buf (given wanted here) (given wanted t)
              ∙ ap (λ l. buf ++ l) (given_append wanted here t ∙ ap (given wanted) (sym front)) in
            let enough' : length t < fuel = elim (ℕ-cases cur.offset) [
              | inl start ↦ omega (arith, sizes)
              | inr (k, behind_start) ↦ omega (arith, sizes, more (omega arith))
            ] in
            let r =
              loop-Read fuel (record { block = cur.block + n; offset = 0 }) next t rest
                (buf ++ given wanted here) x.state a back x.coherent enough'
                (λ p. absurd (omega arith)) in
            record {
              cursor = r.cursor;
              state = r.state;
              coherent = r.coherent;
              ahead = r.ahead;
              returns =
                  whole_lem fuel cur size n buf bytes bc there x (omega arith) small reach fits
                  ∙ rw (sizes, taken)
                      (r.returns ∙ ap (λ l. done (ok, r.cursor, l, r.state)) delivered);
            }
      ]

  -- Where all allocations succeed and the state of the metadata cache is coherent, if the bytes
  -- `xs ++ rest` lie ahead of the cursor in blocks that are not empty and not at position 0, then
  -- `sqfs_md_read` of as many bytes as `xs` has ends without an error, delivers `xs` (or skips
  -- it, for a null buffer), leaves the cursor where `rest` lies ahead, across block boundaries,
  -- and leaves the cache coherent, with no reference kept.
  pub md_read-Read :
      (cur : Cursor) (xs rest : List ℕ) (bc : BlockCache)
      → Ahead img cur.block cur.offset (xs ++ rest)
      → IsCoherent (IsMetadata img) bc
      → Read img wanted [] xs rest (md_read img wanted cur (length xs) bc)
  unfolding md_read
  md_read-Read cur xs rest bc a c =
      loop-Read (length xs + 2) cur (xs ++ rest) xs rest [] bc a refl c (omega arith)
        (λ behind. omega arith)
