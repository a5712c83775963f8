-- ===== src/File/Blocks.antt =====
-- The list of a file's blocks: each stands behind the one before.
use squashfuse.Common.{
  ℕ, zero, suc, ◌+◌, ◌*◌, ◌%◌, ◌<◌, ◌^◌, ◌≡◌, ap, ◌∙◌, false, some, List, [], ◌∷◌, ◌++◌, length,
  append_assoc, ◌==◌, if◌then◌else◌, arith, get_elem?,
}
use mathlib.Core.Option.{some-injective}
use native.Mathlib.Nat.{mod-eq_of_lt, suc-mul}
use squashfuse.Actions.{Action, ◌>>=◌, md_bytes}
use squashfuse.Actions.Rules.{
  IsSound, Ends, Yields, pure-Yields, bind-Yields, else-Yields, map-Yields, md_bytes-Yields,
}
use squashfuse.Block.{data_header}
use squashfuse.Block.Reads.{IsGranted}
use squashfuse.Format.{swapin, le_bytes}
use squashfuse.Format.RoundTrip.{swapin-le_bytes, length-le_bytes}
use squashfuse.Fs.{Image, Caches}
use squashfuse.Metadata.{size_mod}
use squashfuse.Metadata.Stream.{Ahead}
use squashfuse.File.{Blocklist, blocklist_next}

-- The headers of blocks as they are stored.
unfoldable pub headers_bytes : List ℕ → List ℕ
headers_bytes [] = []
headers_bytes (h ∷ hs) = le_bytes 4 h ++ headers_bytes hs

abbrev pub AreHeaders : List ℕ → Type 0
AreHeaders [] = Unit {0}
AreHeaders (h ∷ hs) = (h < 256 ^ 4) × AreHeaders hs

-- Where the block that so many others of the list precede begins.
unfoldable pub block_start : ℕ → List ℕ → ℕ → ℕ
block_start start hs zero = start
block_start start [] (suc k) = start
block_start start (h ∷ hs) (suc k) = block_start ((start + (data_header h).1) % size_mod) hs k

module _ (img : Image) (rest : List ℕ) where
  -- The blocks with these headers are before the list's reader: the first of them at `start`, with
  -- the file's bytes from `pos` on.
  pub record Before (hs : List ℕ) (start pos : ℕ) (bl : Blocklist) : Type 0 where
    pub remain : bl.remain ≡ length hs
    pub headers : AreHeaders hs
    pub ahead : Ahead img bl.cur.block bl.cur.offset (headers_bytes hs ++ rest)
    pub start_there : (bl.block + bl.input_size) % size_mod ≡ start
    pub pos_there : (if bl.started then (bl.pos + img.sb.block_size) % size_mod else bl.pos) ≡ pos

  -- So many calls, of which each one but the last is followed by another.
  abbrev pub walk : ℕ → Blocklist → Action Blocklist
  walk zero bl = blocklist_next img bl
  walk (suc k) bl = blocklist_next img bl >>= λ bl'. walk k bl'

  module _ (hdr_of : ℕ → ℕ) (all : IsGranted img) where
    -- The block with the header, and the others before the reader.
    abbrev At : ℕ → List ℕ → ℕ → ℕ → Blocklist → Type 0
    At h hs start pos bl =
        (bl.header ≡ h)
        × (bl.block ≡ start)
        × (bl.pos ≡ pos)
        × Before hs ((start + (data_header h).1) % size_mod) ((pos + img.sb.block_size) % size_mod)
            bl

    blocklist_next-At :
        (h : ℕ) (hs : List ℕ) (start pos : ℕ) (bl : Blocklist)
        → Before (h ∷ hs) start pos bl
        → Yields img hdr_of (blocklist_next img bl) (At h hs start pos)
    unfolding blocklist_next headers_bytes
    blocklist_next-At h hs start pos bl b =
        let front : Ahead img bl.cur.block bl.cur.offset
            (le_bytes 4 h ++ (headers_bytes hs ++ rest)) =
          rw append_assoc at b.ahead in
        let more : (bl.remain == 0) ≡ false = ground (arith, b.remain) in
        else-Yields img hdr_of _ _ more (
          bind-Yields img hdr_of (md_bytes img bl.cur 4) _
            (md_bytes-Yields img hdr_of all bl.cur 4 (le_bytes 4 h) (headers_bytes hs ++ rest)
              (length-le_bytes 4 h) front)
            (λ r p.
              let read : swapin 4 r.0 ≡ h = ap (swapin 4) p.0 ∙ swapin-le_bytes 4 h b.headers.0 in
              pure-Yields img hdr_of (At h hs start pos) _ (
                read,
                b.start_there,
                b.pos_there,
                record {
                  remain = omega (arith, b.remain);
                  headers = b.headers.1;
                  ahead = p.1;
                  start_there =
                      ap (λ n. (n + (data_header (swapin 4 r.0)).1) % size_mod) b.start_there
                      ∙ ap (λ n. (start + (data_header n).1) % size_mod) read;
                  pos_there = ap (λ n. (n + img.sb.block_size) % size_mod) b.pos_there;
                },
              )))

    walk-Yields :
        (k h : ℕ) (hs : List ℕ) (start pos : ℕ) (bl : Blocklist)
        → Before hs start pos bl
        → get_elem? hs k ≡ some h
        → pos + k * img.sb.block_size < size_mod
        → Yields img hdr_of (walk k bl) (λ r.
          (r.header ≡ h)
          × (r.block ≡ block_start start hs k)
          × (r.pos ≡ pos + k * img.sb.block_size))
    unfolding block_start
    walk-Yields k h [] start pos bl b there small = absurd (ground arith)
    walk-Yields zero h (g ∷ hs) start pos bl b there small =
        let same : g ≡ h = some-injective g h there in
        map-Yields img hdr_of (blocklist_next img bl) (blocklist_next-At g hs start pos bl b)
          (λ r p. (p.0 ∙ same, p.1, p.2 ∙ omega arith))
    walk-Yields (suc k) h (g ∷ hs) start pos bl b there small =
        let size = img.sb.block_size in
        let grown : suc k * size ≡ size + k * size = suc-mul k size ∙ omega arith in
        let exact : (pos + size) % size_mod ≡ pos + size = mod-eq_of_lt (omega (arith, grown)) in
        bind-Yields img hdr_of (blocklist_next img bl) (walk k)
          (blocklist_next-At g hs start pos bl b)
          (λ r p.
            map-Yields img hdr_of (walk k r)
              (walk-Yields k h hs ((start + (data_header g).1) % size_mod) ((pos + size) % size_mod)
                r p.3 there (omega (arith, exact, grown)))
              (λ w q. (q.0, q.1, q.2 ∙ omega (arith, exact, grown))))

    -- Where all allocations succeed and the state of the caches is sound, for a block list before
    -- headers that are in the metadata, with positions that fit 64 bits, k + 1 calls of
    -- `sqfs_blocklist_next` end without an error with the header at index k, the position in the
    -- image that the sizes of the blocks before it give, and the position in the file that is k
    -- blocks further, and leave the caches sound.
    pub walk-Ends :
        (k h : ℕ) (hs : List ℕ) (start pos : ℕ) (bl : Blocklist)
        → Before hs start pos bl
        → get_elem? hs k ≡ some h
        → pos + k * img.sb.block_size < size_mod
        → (s : Caches) → IsSound img hdr_of s
        → Ends img hdr_of
            (λ r.
              (r.header ≡ h)
              × (r.block ≡ block_start start hs k)
              × (r.pos ≡ pos + k * img.sb.block_size))
            s
            (walk k bl s)
    walk-Ends k h hs start pos bl b there small s sound =
        walk-Yields k h hs start pos bl b there small s sound
