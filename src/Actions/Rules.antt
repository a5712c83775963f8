-- ===== src/Actions/Rules.antt =====
-- Rules for calls that succeed whatever a sound state of the caches holds.
use squashfuse.Common.{
  ℕ, ◌*◌, ◌<◌, ◌≡◌, refl, sym, Bool, true, false, List, [], ◌∷◌, ◌++◌, length, take, drop, Outcome,
  done, if◌then◌else◌, arith, length-append,
}
use mathlib.Core.Path.{subst}
use squashfuse.Fs.{Image, Table, Cursor, Caches}
use squashfuse.Actions.{Answer, got, Action, ◌>>=◌, pure, md_bytes, md_skip, table_bytes}
use squashfuse.Block.Reads.{IsGranted}
use squashfuse.Block.Coherence.{IsCoherent}
use squashfuse.Data.Cached.{IsDataOf}
use squashfuse.Format.{encode_fields, sizeof, le_bytes}
use squashfuse.Format.RoundTrip.{Fit, length-le_bytes}
use squashfuse.Metadata.Stream.{IsMetadata, Ahead}
use squashfuse.Metadata.Reads.{md_read-Read}
use squashfuse.Tables.Entries.{IsTable, table_get_lem}

-- `hdr_of` gives the header of the data block or fragment at a position.
pub record IsSound (img : Image) (hdr_of : ℕ → ℕ) (s : Caches) : Type 0 where
  pub md : IsCoherent (IsMetadata img) s.md
  pub data_blocks : IsCoherent (IsDataOf img hdr_of) s.data_blocks
  pub fragments : IsCoherent (IsDataOf img hdr_of) s.fragments

module _ (img : Image) (hdr_of : ℕ → ℕ) where
  -- From every sound state, the call ends in an answer with `P` and leaves a sound state.
  pub record Ends {A : Type 0} (P : A → Type 0) (s : Caches) (r : Outcome (Answer A × Caches))
      : Type 0 where
    pub answer : A
    pub after : Caches
    pub returns : r ≡ done (got answer, after)
    pub holds : P answer
    pub sound : IsSound img hdr_of after

  abbrev pub Yields : {A : Type 0} → Action A → (A → Type 0) → Type 0
  Yields m P = (s : Caches) → IsSound img hdr_of s → Ends P s (m s)

  pub pure-Yields : {A : Type 0} (P : A → Type 0) (a : A) → P a → Yields (pure a) P
  pure-Yields P a p s i = record { answer = a; after = s; returns = refl; holds = p; sound = i }

  pub then-Yields :
      {A : Type 0} {P : A → Type 0} {b : Bool} (m n : Action A)
      → b ≡ true
      → Yields m P
      → Yields (if b then m else n) P
  then-Yields {P} {b} m n e y = subst (λ c. Yields (if c then m else n) P) (sym e) y

  pub else-Yields :
      {A : Type 0} {P : A → Type 0} {b : Bool} (m n : Action A)
      → b ≡ false
      → Yields n P
      → Yields (if b then m else n) P
  else-Yields {P} {b} m n e y = subst (λ c. Yields (if c then m else n) P) (sym e) y

  pub map-Yields :
      {A : Type 0} {P Q : A → Type 0} (m : Action A)
      → Yields m P
      → ((a : A) → P a → Q a)
      → Yields m Q
  map-Yields m y f s i =
      let r = y s i in
      record {
        answer = r.answer;
        after = r.after;
        returns = r.returns;
        holds = f r.answer r.holds;
        sound = r.sound;
      }

  pub bind-Yields :
      {A B : Type 0} {P : A → Type 0} {Q : B → Type 0} (m : Action A) (f : A → Action B)
      → Yields m P
      → ((a : A) → P a → Yields (f a) Q)
      → Yields (m >>= f) Q
  bind-Yields m f y k s i =
      let r = y s i in
      let t = k r.answer r.holds r.after r.sound in
      record {
        answer = t.answer;
        after = t.after;
        returns = rw r.returns t.returns;
        holds = t.holds;
        sound = t.sound;
      }

  module _ (all : IsGranted img) where
    -- Bytes that lie ahead are read, and the rest lies ahead of the cursor afterwards.
    pub md_bytes-Yields :
        (cur : Cursor) (n : ℕ) (xs rest : List ℕ)
        → length xs ≡ n
        → Ahead img cur.block cur.offset (xs ++ rest)
        → Yields (md_bytes img cur n) (λ r. (r.0 ≡ xs) × Ahead img r.1.block r.1.offset rest)
    unfolding md_bytes
    md_bytes-Yields cur n xs rest width ahead s i =
        let r = md_read-Read img all true cur xs rest s.md ahead i.md in
        record {
          answer = (xs, r.cursor);
          after = record s { md = r.state };
          returns = rw (← width, r.returns) refl;
          holds = (refl, r.ahead);
          sound = record { md = r.coherent; data_blocks = i.data_blocks; fragments = i.fragments };
        }

    pub md_skip-Yields :
        (cur : Cursor) (n : ℕ) (xs rest : List ℕ)
        → length xs ≡ n
        → Ahead img cur.block cur.offset (xs ++ rest)
        → Yields (md_skip img cur n) (λ r. Ahead img r.block r.offset rest)
    unfolding md_skip
    md_skip-Yields cur n xs rest width ahead s i =
        let r = md_read-Read img all false cur xs rest s.md ahead i.md in
        record {
          answer = r.cursor;
          after = record s { md = r.state };
          returns = rw (← width, r.returns) refl;
          holds = r.ahead;
          sound = record { md = r.coherent; data_blocks = i.data_blocks; fragments = i.fragments };
        }

    pub table_bytes-Yields :
        (t : Table) (entries : List ℕ) (idx : ℕ)
        → IsTable img t entries
        → idx < t.count
        → Yields (table_bytes img t idx) (λ r. r ≡ take t.each (drop (idx * t.each) entries))
    unfolding table_bytes
    table_bytes-Yields t entries idx is inside s i =
        let (bc', run, c) = table_get_lem img all t entries is idx s.md i.md inside in
        record {
          answer = take t.each (drop (idx * t.each) entries);
          after = record s { md = bc' };
          returns = rw run refl;
          holds = refl;
          sound = record { md = c; data_blocks = i.data_blocks; fragments = i.fragments };
        }

pub length-encode_fields : (ws vs : List ℕ) → Fit ws vs → length (encode_fields ws vs) ≡ sizeof ws
unfolding encode_fields
length-encode_fields [] [] fit = refl
length-encode_fields [] (v ∷ vs) fit = absurd fit
length-encode_fields (w ∷ ws) [] fit = absurd fit
length-encode_fields (w ∷ ws) (v ∷ vs) fit = omega (
  arith,
  length-append (le_bytes w v) (encode_fields ws vs),
  length-le_bytes w v,
  length-encode_fields ws vs fit.1,
)
