-- ===== src/Traverse/States.antt =====
-- The states that `sqfs_traverse_next` goes through.
use squashfuse.Common.{
  ℕ, zero, suc, ◌<◌, ◌≡◌, refl, sym, ap, ◌∙◌, Bool, true, Option, none, some, Outcome, done, fault,
  arith, ◌⊎◌, ◌==◌, ◌≤◌, SqfsErr, Fault, Option-cases, Bool-cases, inl, inr,
}
use squashfuse.Actions.{Answer, got, failure, Action, chain, pure}
use squashfuse.Directory.{dir_next}
use squashfuse.Fs.{Image, Caches}
use squashfuse.Traverse.{
  State, descend_entry, name_remove, error, finished, ascend_level, name_add, get_entry, Level,
  Traverse, round, rounds, settled, traverse_next, top_level, next_entry, descend, ascend, add_name,
  round_at,
}

-- How many rounds may follow in the same call.
abbrev pub rank : State → ℕ
rank finished = 0
rank error = 0
rank name_add = 0
rank ascend_level = 1
rank get_entry = 2
rank name_remove = 3
rank descend_entry = 3

-- From an answer of `m`, whatever it is.
inverted :
    {A B : Type 0} (r : Outcome (Answer A × Caches)) (f : A → Action B) (b : B) (s : Caches)
    → chain r f ≡ done (got b, s)
    → (a : A) × (s' : Caches) × (r ≡ done (got a, s')) × (f a s' ≡ done (got b, s))
inverted (fault e) f b s h = absurd (ground arith)
inverted (done (got a, s')) f b s h = (a, s', refl, h)
inverted (done (failure e, s')) f b s h = absurd (ground arith)

answer_or : {A : Type 0} → A → Outcome (Answer A × Caches) → A
answer_or a (done (got b, s)) = b
answer_or a _ = a

same_answer :
    {A : Type 0} {a b : A} {s s' : Caches}
    → ◌≡◌ {A = Outcome (Answer A × Caches)} (done (got a, s)) (done (got b, s'))
    → a ≡ b
unfolding answer_or
same_answer {a} h = ap (answer_or a) h

module _ (img : Image) (junk : ℕ) (blank : Level) where
  next_entry_state :
      (t t' : Traverse) (s s' : Caches)
      → next_entry img junk blank t s ≡ done (got t', s')
      → (t'.state ≡ ascend_level) ⊎ (t'.state ≡ name_add)
  unfolding next_entry
  next_entry_state t t' s s' h =
      let ((at, level), s₁, e₁, h₁) = inverted (top_level img junk blank t s) _ t' s' h in
      let ((d, found), s₂, e₂, h₂) = inverted (dir_next img true level.dir s₁) _ t' s' h₁ in
      elim (Option-cases found) [
        | inl none_left ↦ inl (ap (λ u. u.state) (sym (same_answer (rw none_left at h₂))))
        | inr (x, one) ↦ inr (ap (λ u. u.state) (sym (same_answer (rw one at h₂))))
      ]

  lowers :
      (st : State) (t t' : Traverse) (s s' : Caches)
      → round_at img junk blank st t s ≡ done (got (t', none), s')
      → rank t'.state < rank st
  unfolding round_at
  lowers get_entry t t' s s' h =
      let (u, s₁, e₁, h₁) = inverted (next_entry img junk blank t s) _ (t', none) s' h in
      let same : u ≡ t' = ap (λ (p : Traverse × Option Bool). p.0) (same_answer h₁) in
      elim (next_entry_state t u s s₁ e₁) [
        | inl a ↦ rw (← same, a) (omega arith)
        | inr a ↦ rw (← same, a) (omega arith)
      ]
  lowers name_add t t' s s' h =
      let (u, s₁, e₁, h₁) = inverted (add_name img junk blank t s) _ (t', none) s' h in
      absurd (ground (arith, ap (λ (p : Traverse × Option Bool). p.1) (same_answer h₁)))
  lowers name_remove t t' s s' h =
      let same = ap (λ (p : Traverse × Option Bool). p.0) (same_answer h) in
      rw (← same) (omega arith)
  lowers descend_entry t t' s s' h =
      let (u, s₁, e₁, h₁) = inverted (descend img junk blank t s) _ (t', none) s' h in
      let same = ap (λ (p : Traverse × Option Bool). p.0) (same_answer h₁) in
      rw (← same) (omega arith)
  lowers ascend_level t t' s s' h =
      let (u, s₁, e₁, h₁) = inverted (ascend img junk blank t s) _ (t', none) s' h in
      elim (Bool-cases (u.stack.size == 0)) [
        | inl empty ↦
            let same = ap (λ (p : Traverse × Option Bool). p.0) (same_answer (rw empty at h₁)) in
            rw (← same) (omega arith)
        | inr some_left ↦ absurd (
            ground
              (arith, ap (λ (p : Traverse × Option Bool). p.1) (same_answer (rw some_left at h₁))))
      ]
  lowers finished t t' s s' h =
      absurd (ground (arith, ap (λ (p : Traverse × Option Bool). p.1) (same_answer h)))
  lowers error t t' s s' h = absurd (ground (arith, h))

  -- A round of the loop of `sqfs_traverse_next` that ends neither the call nor in an error leads
  -- from its state to one of lower rank.
  pub round-rank :
      (t t' : Traverse) (s s' : Caches)
      → round img junk blank t s ≡ done (got (t', none), s')
      → rank t'.state < rank t.state
  unfolding round
  round-rank t t' s s' h = lowers t.state t t' s s' h

  -- The end of a round, for two amounts of fuel that both suffice for what follows.
  abbrev go_on : ℕ → Traverse × Option Bool → Action (Traverse × Bool)
  go_on n p = elim p.1 [ none ↦ rounds img junk blank n p.0 | some b ↦ pure (p.0, b) ]

  abbrev Agree : ℕ → ℕ → ℕ → Type 0
  Agree bound m n =
      (t : Traverse) (s : Caches)
      → rank t.state < bound
      → rounds img junk blank m t s ≡ rounds img junk blank n t s

  go_on-Agree :
      (bound m n : ℕ) (r : Outcome (Answer (Traverse × Option Bool) × Caches))
      → ((t' : Traverse) (s' : Caches) → r ≡ done (got (t', none), s') → rank t'.state < bound)
      → Agree bound m n
      → chain r (go_on m) ≡ chain r (go_on n)
  go_on-Agree bound m n (fault e) lowered agree = refl
  go_on-Agree bound m n (done (failure e, s)) lowered agree = refl
  go_on-Agree bound m n (done (got (t', some b), s)) lowered agree = refl
  go_on-Agree bound m n (done (got (t', none), s)) lowered agree = agree t' s (lowered t' s refl)

  rounds_lem :
      (n : ℕ) (t : Traverse) (s : Caches)
      → rounds img junk blank (suc n) t s ≡ chain (round img junk blank t s) (go_on n)
  unfolding rounds
  rounds_lem n t s = refl

  -- Two amounts of fuel that both exceed the rank of the state lead to the same end.
  rounds_agree :
      (m n : ℕ) (t : Traverse) (s : Caches)
      → rank t.state < m
      → rank t.state < n
      → rounds img junk blank m t s ≡ rounds img junk blank n t s
  rounds_agree zero n t s h k = absurd (omega arith)
  rounds_agree (suc m) zero t s h k = absurd (omega arith)
  rounds_agree (suc m) (suc n) t s h k =
      rounds_lem m t s
      ∙ go_on-Agree (rank t.state) m n (round img junk blank t s)
          (λ t' s' e. round-rank t t' s s' e)
          (λ t' s' l. rounds_agree m n t' s' (omega arith) (omega arith))
      ∙ sym (rounds_lem n t s)

  -- The loop without fuel: so many rounds, the last of which delivers a result, fails or is itself
  -- a fault, while those before it only lead to the next state.
  pub data Loop : ℕ → Traverse → Caches → Outcome (Answer (Traverse × Bool) × Caches) → Type 0 where
    delivers :
        {t t' : Traverse} {s s' : Caches} (b : Bool)
        → round img junk blank t s ≡ done (got (t', some b), s')
        → Loop 1 t s (done (got (t', b), s'))
    fails :
        {t : Traverse} {s s' : Caches} (e : SqfsErr)
        → round img junk blank t s ≡ done (failure e, s')
        → Loop 1 t s (done (failure e, s'))
    crashes :
        {t : Traverse} {s : Caches} (e : Fault)
        → round img junk blank t s ≡ fault e
        → Loop 1 t s (fault e)
    continues :
        {k : ℕ} {t t' : Traverse} {s s' : Caches} {r : Outcome (Answer (Traverse × Bool) × Caches)}
        → round img junk blank t s ≡ done (got (t', none), s')
        → Loop k t' s' r
        → Loop (suc k) t s r

  abbrev pub Ended : ℕ → Traverse → Caches → Outcome (Answer (Traverse × Bool) × Caches) → Type 0
  Ended bound t s r = (k : ℕ) × (k ≤ bound) × Loop k t s r

  -- Behind a round, where what follows a round that goes on ends.
  go_on-Ended :
      (bound n : ℕ) (t : Traverse) (s : Caches)
      (r : Outcome (Answer (Traverse × Option Bool) × Caches))
      → round img junk blank t s ≡ r
      → ((t' : Traverse) (s' : Caches)
          → r ≡ done (got (t', none), s')
          → Ended bound t' s' (rounds img junk blank n t' s'))
      → Ended (suc bound) t s (chain r (go_on n))
  go_on-Ended bound n t s (fault e) is later = (1, omega arith, crashes e is)
  go_on-Ended bound n t s (done (failure e, s')) is later = (1, omega arith, fails e is)
  go_on-Ended bound n t s (done (got (t', some b), s')) is later = (1, omega arith, delivers b is)
  go_on-Ended bound n t s (done (got (t', none), s')) is later =
      let (k, small, loop) = later t' s' refl in (suc k, omega arith, continues is loop)

  rounds-Ended :
      (bound n : ℕ) (t : Traverse) (s : Caches)
      → rank t.state < n
      → rank t.state ≤ bound
      → Ended (suc bound) t s (rounds img junk blank n t s)
  rounds-Ended bound zero t s h k = absurd (omega arith)
  rounds-Ended zero (suc n) t s h k = rw (rounds_lem n t s) (
      go_on-Ended 0 n t s (round img junk blank t s) refl
        (λ t' s' e. absurd (omega (arith, round-rank t t' s s' e))))
  rounds-Ended (suc bound) (suc n) t s h k = rw (rounds_lem n t s) (
      go_on-Ended (suc bound) n t s (round img junk blank t s) refl (λ t' s' e.
        let lower = round-rank t t' s s' e in
        rounds-Ended bound n t' s' (omega arith) (omega arith)))

  next_lem :
      (t : Traverse) (s : Caches)
      → traverse_next img junk blank t s ≡ settled img junk blank t (rounds img junk blank 5 t s)
  unfolding traverse_next
  next_lem t s = refl

  rank_le : (st : State) → rank st ≤ 3
  rank_le finished = omega arith
  rank_le error = omega arith
  rank_le name_add = omega arith
  rank_le ascend_level = omega arith
  rank_le get_entry = omega arith
  rank_le name_remove = omega arith
  rank_le descend_entry = omega arith

  -- From every state of a traversal and of the caches, the loop of `sqfs_traverse_next` ends:
  -- with any fuel above the rank of its state, which is at most 3, its result is that of a finite
  -- sequence of rounds, at most one more than the rank, whose last one delivers a result, fails
  -- or is itself a fault, so that the loop's own fuel is never used up; and `sqfs_traverse_next`
  -- returns what that result stands for.
  pub rounds_fuel :
      (n : ℕ) (t : Traverse) (s : Caches)
      → rank t.state < n
      → ((k : ℕ) × (k ≤ suc (rank t.state)) × Loop k t s (rounds img junk blank n t s))
        × (traverse_next img junk blank t s
            ≡ settled img junk blank t (rounds img junk blank n t s))
  rounds_fuel n t s h = (
    rounds-Ended (rank t.state) n t s h (omega arith),
    next_lem t s
        ∙ ap (settled img junk blank t) (rounds_agree 5 n t s (omega (arith, rank_le t.state)) h),
  )
