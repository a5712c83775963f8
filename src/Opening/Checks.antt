-- ===== src/Opening/Checks.antt =====
-- What a successful `sqfs_init` has checked, and what it leaves.
use squashfuse.Common.{
  ℕ, ◌≡◌, ◌⊎◌, refl, sym, ap, ◌∙◌, false, not, ◌||◌, some, [], SqfsErr, ok, failed, Outcome, done,
  ltb, ◌==◌, arith, inl, inr, Bool-cases, Option-cases,
}
use squashfuse.Actions.Rules.{IsSound}
use squashfuse.Format.Super.{SuperBlock}
use squashfuse.Format.{swap16}
use squashfuse.Fs.{System, Image, Caches}
use squashfuse.Opening.{
  Opened, magic, magic_swap, check_super, check_version, read_super, bare, load_tables, init_caches,
  open_image, init,
}
use squashfuse.Opening.Fresh.{init_caches-IsSound}

-- An image that passed the checks, for a stored super block.
pub record IsAccepted (system : System) (stored : SuperBlock) (img : Image) : Type 0 where
  pub marked : (stored.s_magic ≡ magic) ⊎ (stored.s_magic ≡ magic_swap)
  pub major : img.sb.s_major ≡ 4
  pub minor : img.sb.s_minor ≡ 0
  pub known : system.decompressor_of img.sb.compression ≡ some img.decompressor

check_version_lem :
    (sb : SuperBlock)
    → failed (check_version sb).0 ≡ false
    → ((check_version sb).1.s_major ≡ 4) × ((check_version sb).1.s_minor ≡ 0)
unfolding check_version
check_version_lem sb h = elim (Bool-cases (not (sb.s_major == 4) || ltb 0 sb.s_minor)) [
  | inl bad ↦ absurd (ground (arith, h, bad))
  | inr good ↦ rw (check_version, good) (ground (arith, good))
]

check_super_lem :
    (sb : SuperBlock)
    → failed (check_super sb).0 ≡ false
    → ((sb.s_magic ≡ magic) ⊎ (sb.s_magic ≡ magic_swap))
      × ((check_super sb).1.s_major ≡ 4)
      × ((check_super sb).1.s_minor ≡ 0)
unfolding check_super
check_super_lem sb h = elim (Bool-cases (sb.s_magic == magic)) [
  | inl plain ↦
      let r = check_version_lem sb (rw (check_super, plain) at h) in
      rw (check_super, plain) (inl (ground (arith, plain)), r.0, r.1)
  | inr other ↦ elim (Bool-cases (sb.s_magic == magic_swap)) [
    | inl swapped ↦
        let t = record sb { s_major = swap16 sb.s_major; s_minor = swap16 sb.s_minor } in
        let r = check_version_lem t (rw (check_super, other, swapped) at h) in
        rw (check_super, other, swapped) (inr (ground (arith, swapped)), r.0, r.1)
    | inr neither ↦ absurd (ground (arith, rw (check_super, other, neither) at h))
  ]
]

opened_or : Image × Caches → Outcome Opened → Image × Caches
opened_or d (done (e, some r)) = r
opened_or d _ = d

same_opened :
    {e e' : SqfsErr} {r r' : Image × Caches}
    → ◌≡◌ {A = Outcome Opened} (done (e, some r)) (done (e', some r'))
    → r ≡ r'
unfolding opened_or
same_opened {r} h = ap (opened_or r) h

open_image_lem :
    (img img' : Image) (s : Caches)
    → open_image img [] ≡ done (ok, some (img', s))
    → ((load_tables img).1 ≡ img') × (init_caches (load_tables img).1.system.grants ≡ some s)
unfolding open_image
open_image_lem img img' s h =
    let loaded = load_tables img in
    elim (Option-cases (init_caches loaded.1.system.grants)) [
      | inl miss ↦ absurd (ground (arith, rw (open_image, miss) at h))
      | inr (made, e) ↦ elim (Bool-cases loaded.0) [
        | inl bad ↦ absurd (ground (arith, rw (open_image, e, bad) at h))
        | inr good ↦
            let both : (loaded.1, made) ≡ (img', s) = same_opened (rw (open_image, e, good) at h) in
            (ap (λ (t : Image × Caches). t.0) both, e ∙ ap (λ (t : Image × Caches). some t.1) both)
      ]
    ]

load_tables_lem :
    (img : Image)
    → ((load_tables img).1.sb ≡ img.sb) × ((load_tables img).1.decompressor ≡ img.decompressor)
unfolding load_tables
load_tables_lem img = (refl, refl)

-- If `sqfs_init` without a subdirectory succeeds, then the super block that stands in the image
-- has the magic number in one of the byte orders, the version is 4.0, also where it was swapped,
-- the decompressor is the one for the compression, and the caches of the open file system are
-- sound for whatever is in the image.
pub init-IsAccepted :
    (system : System) (offset : ℕ) (hdr_of : ℕ → ℕ) (img : Image) (s : Caches)
    → init system offset [] ≡ done (ok, some (img, s))
    → (stored : SuperBlock) × (read_super system offset ≡ some stored)
      × IsAccepted system stored img
      × IsSound img hdr_of s
unfolding init
init-IsAccepted system offset hdr_of img s h = elim (Option-cases (read_super system offset)) [
  | inl miss ↦ absurd (ground (arith, rw (init, miss) at h))
  | inr (stored, e) ↦
      let sb = (check_super stored).1 in
      elim (Bool-cases (failed (check_super stored).0)) [
        | inl bad ↦ absurd (ground (arith, rw (init, e, bad) at h))
        | inr good ↦ elim (Option-cases (system.decompressor_of sb.compression)) [
          | inl miss ↦ absurd (ground (arith, rw (init, e, good, miss) at h))
          | inr (d, known) ↦
              let checked = check_super_lem stored good in
              let start = bare system offset sb d in
              let opened = open_image_lem start img s (rw (init, e, good, known) at h) in
              let kept = load_tables_lem start in
              let same : img.sb ≡ sb = ap (λ (t : Image). t.sb) (sym opened.0) ∙ kept.0 in
              let routine : img.decompressor ≡ d =
                ap (λ (t : Image). t.decompressor) (sym opened.0) ∙ kept.1 in
              (
                stored,
                e,
                record {
                  marked = checked.0;
                  major = ap (λ (t : SuperBlock). t.s_major) same ∙ checked.1;
                  minor = ap (λ (t : SuperBlock). t.s_minor) same ∙ checked.2;
                  known =
                      ap (λ (t : SuperBlock). system.decompressor_of t.compression) same
                      ∙ known
                      ∙ ap some (sym routine);
                },
                init_caches-IsSound img hdr_of _ s opened.1,
              )
        ]
      ]
]
