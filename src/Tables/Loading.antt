-- ===== src/Tables/Loading.antt =====
-- Loading a table's block positions.
use squashfuse.Common.{
  ℕ, zero, suc, ◌+◌, ◌*◌, ◌/◌, ◌%◌, ◌≤◌, ◌<◌, ◌≡◌, refl, sym, ap, ◌∙◌, true, false, some, List, [],
  ◌∷◌, ◌++◌, length, replicate, length-append, ok, arith, ◌==◌, ==_refl, ne→==, ==_iff, Bool-cases,
  inl, inr, ◌≢◌,
}
use native.Mathlib.Nat.{mod-eq_of_lt, mod-lt, div-add-mod, mul_comm, add-mul, div-le_self}
use squashfuse.Block.{metadata_size}
use squashfuse.Format.{swapin_fields, encode_fields, le_bytes}
use squashfuse.Format.RoundTrip.{Fit, length-le_bytes, swapin_fields-encode_fields}
use squashfuse.Fs.{System, Table}
use squashfuse.Metadata.{size_mod}
use squashfuse.Tables.{divceil, table_init}

length-encode_fields :
    (n : ℕ) (vs : List ℕ)
    → Fit (replicate n 8) vs
    → length (encode_fields (replicate n 8) vs) ≡ n * 8
unfolding encode_fields
length-encode_fields zero [] fit = refl
length-encode_fields zero (v ∷ vs) fit = absurd fit
length-encode_fields (suc n) [] fit = absurd fit
length-encode_fields (suc n) (v ∷ vs) fit = omega (
  arith,
  length-append (le_bytes 8 v) (encode_fields (replicate n 8) vs),
  length-le_bytes 8 v,
  length-encode_fields n vs fit.1,
)

append_nil : (xs : List ℕ) → xs ++ [] ≡ xs
append_nil [] = refl
append_nil (x ∷ xs) = ap (λ t. x ∷ t) (append_nil xs)

-- For a group size that is not 0, where total and group together do not overflow, `sqfs_divceil`
-- gives the number of groups that hold the total, and not one more than that.
pub divceil_bounds :
    (total group : ℕ)
    → 0 < group
    → total + group < size_mod
    → (total ≤ divceil total group * group) × (divceil total group * group < total + group)
unfolding divceil
divceil_bounds total group some_size small =
    let q = total / group in
    let parts = div-add-mod total group in
    let below = mod-lt total some_size in
    let turned = mul_comm group q in
    let fewer : q ≤ total = div-le_self total group in
    let next : (q + 1) % size_mod ≡ q + 1 = mod-eq_of_lt (omega arith) in
    let one_more : (q + 1) * group ≡ q * group + group = add-mul q 1 group ∙ omega arith in
    elim (Bool-cases (total % group == 0)) [
      | inl whole ↦
          let none_left = (==_iff (total % group) 0).0 whole in rw whole (omega arith, omega arith)
      | inr part ↦
          let some_left : total % group ≢ 0 = ground arith in
          rw (part, next, one_more) (omega arith, omega arith)
    ]

module _ (system : System) (table : Table) (start each count n : ℕ) (positions : List ℕ) where
  -- For a table with entries whose sizes do not overflow, if the file holds the positions of its
  -- n blocks in little-endian form at the start and memory for them is granted, where n is the
  -- number of blocks that `sqfs_divceil` gives, `sqfs_table_init` succeeds with exactly those
  -- positions.
  pub table_init_lem :
      0 < count
      → each * count < size_mod
      → divceil (each * count) metadata_size ≡ n
      → n * 8 < size_mod
      → system.grants (n * 8) ≡ true
      → Fit (replicate n 8) positions
      → system.pread (n * 8) start ≡ some (encode_fields (replicate n 8) positions)
      → table_init system table start each count
        ≡ (ok, record { each = each; count = count; blocks = positions })
  unfolding table_init
  table_init_lem some_entries small blocks short granted fit read =
      let exact : each * count % size_mod ≡ each * count = mod-eq_of_lt small in
      let all : (count == 0) ≡ false = ne→== count 0 (omega arith) in
      let bread : n * 8 % size_mod ≡ n * 8 = mod-eq_of_lt short in
      let stored = encode_fields (replicate n 8) positions in
      let width = length-encode_fields n positions fit in
      let whole : (length stored == n * 8) ≡ true = rw width (==_refl (n * 8)) in
      let back : swapin_fields (replicate n 8) stored ≡ positions =
        ap (swapin_fields (replicate n 8)) (sym (append_nil stored))
        ∙ swapin_fields-encode_fields (replicate n 8) positions [] fit in
      rw (all, exact, blocks, bread, granted, read)
        (rw (table_init, exact, blocks, bread, whole, back) refl)
