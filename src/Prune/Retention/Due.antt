-- ===== src/Prune/Retention/Due.antt =====
-- The retention policies delete only what they are meant to.
use duplicacy.Prelude.{
  In, ◌≡◌, refl, List, [], ◌∷◌, ◌⊎◌, inl, inr, Bool, true, false, not, ◌&&◌, ◌||◌, is_empty, arith,
  Bool-cases, sym,
}
use mathlib.Core.Path.{subst}
use duplicacy.Prelude.Int.{ℤ, pos, ltb_ℤ}
use duplicacy.Prelude.Int64.{◌==ℤ◌}
use duplicacy.Prelude.Tables.{contains}
use duplicacy.Entry.{Text}
use duplicacy.Prune.{Snapshot}
use duplicacy.Prune.Retention.{
  RetentionPolicy, set_flag, find_policy, is_too_close, apply_policies, select_by_retention, treat,
}

module _ (get_days_between : ℤ → ℤ → ℤ) (now : ℤ) where
  -- A policy deletes the snapshot: the snapshot is of that age, and the interval is 0 or the
  -- snapshot is within it of one of `times`.
  abbrev pub IsDue : List RetentionPolicy → List ℤ → Snapshot → Type 0
  IsDue policies times s =
      (policy : RetentionPolicy) × In policy policies
      × (ltb_ℤ (get_days_between s.start_time now) policy.age ≡ false)
      × (((policy.interval ==ℤ pos 0) ≡ true)
          ⊎ ((time : ℤ) × In time times
              × (ltb_ℤ (get_days_between time s.start_time) policy.interval ≡ true)))

  -- Each snapshot is as it was, or is newly flagged, with one of the tags if there are any, and
  -- due; `times` holds the start times of the snapshots before it that are kept.
  pub data AreDue (tags : List Text) (policies : List RetentionPolicy)
      : List ℤ → List Snapshot → List Snapshot → Type 0 where
    done : {times : List ℤ} {rest : List Snapshot} → AreDue tags policies times rest rest
    same :
        {times : List ℤ} (s : Snapshot) {rest after : List Snapshot}
        → AreDue tags policies (s.start_time ∷ times) rest after
        → AreDue tags policies times (s ∷ rest) (s ∷ after)
    deleted :
        {times : List ℤ} (s : Snapshot) {rest after : List Snapshot}
        → ((is_empty tags || contains s.tag tags) ≡ true)
        → IsDue policies times s
        → AreDue tags policies times rest after
        → AreDue tags policies times (s ∷ rest) (set_flag s ∷ after)

  abbrev OldEnough : ℤ → List RetentionPolicy → Type 0
  OldEnough days [] = Unit
  OldEnough days (policy ∷ more) = ltb_ℤ days policy.age ≡ false

  -- The time is 0 or the last one, the policies are among those given, and the first applies.
  abbrev IsFound : ℤ → ℤ → List RetentionPolicy → ℤ × List RetentionPolicy → Type 0
  IsFound days last policies (since, found) =
      ((since ≡ pos 0) ⊎ (since ≡ last))
      × ((p : RetentionPolicy) → In p found → In p policies)
      × OldEnough days found

  find_policy-IsFound :
      (days last : ℤ) (policies : List RetentionPolicy)
      → IsFound days last policies (find_policy get_days_between now days last policies)
  unfolding find_policy
  find_policy-IsFound days last [] = (inr refl, λ p i. i, tt)
  find_policy-IsFound days last (policy ∷ rest) = elim (Bool-cases (ltb_ℤ days policy.age)) [
    | inl h ↦
        let (a, b, c) = find_policy-IsFound days (pos 0) rest in
        rw h (elim a [ inl e ↦ inl e | inr e ↦ inl e ], λ p i. inr (b p i), c)
    | inr h ↦ rw h (inr refl, λ p i. i, h)
  ]

  -- What the rounds that follow have to leave.
  module _ (tags : List Text) (policies : List RetentionPolicy) where
    abbrev Rounds : List ℤ → List Snapshot → (ℤ → List RetentionPolicy → List Snapshot) → Type 0
    Rounds times rest rounds =
        (since : ℤ) (more : List RetentionPolicy)
        → (since ≡ pos 0) ⊎ In since times
        → ((p : RetentionPolicy) → In p more → In p policies)
        → AreDue tags policies times rest (rounds since more)

    treat-AreDue :
        (times : List ℤ) (s : Snapshot) (rest : List Snapshot) (since : ℤ)
        (found : List RetentionPolicy) (rounds : ℤ → List RetentionPolicy → List Snapshot)
        → (is_empty tags || contains s.tag tags) ≡ true
        → (since ≡ pos 0) ⊎ In since times
        → ((p : RetentionPolicy) → In p found → In p policies)
        → OldEnough (get_days_between s.start_time now) found
        → Rounds times rest rounds
        → Rounds (s.start_time ∷ times) rest rounds
        → AreDue tags policies times
            (s ∷ rest)
            (treat get_days_between now s rest since found rounds)
    treat-AreDue times s rest since [] rounds t k sub old go_on go_on_kept = done
    treat-AreDue times s rest since (policy ∷ more) rounds t k sub old go_on go_on_kept =
        elim (Bool-cases (policy.interval ==ℤ pos 0)) [
          | inl e ↦ rw e (
              deleted s t (policy, sub policy (inl refl), old, inl e)
                (go_on since (policy ∷ more) k sub))
          | inr e ↦ rw e (elim (Bool-cases (is_too_close get_days_between now policy since s)) [
            | inl f ↦ rw f (
                deleted s t
                  (
                    policy,
                    sub policy (inl refl),
                    old,
                    inr (since, elim k [ inl z ↦ absurd (ground arith) | inr i ↦ i ], ground arith),
                  )
                  (go_on since (policy ∷ more) k sub))
            | inr f ↦ rw f (same s (go_on_kept s.start_time (policy ∷ more) (inr (inl refl)) sub))
          ])
        ]

    apply_policies-AreDue :
        (exclusive : Bool) (times : List ℤ) (last : ℤ) (remaining : List RetentionPolicy)
        (snapshots : List Snapshot)
        → (last ≡ pos 0) ⊎ In last times
        → ((p : RetentionPolicy) → In p remaining → In p policies)
        → AreDue tags policies times snapshots
            (apply_policies get_days_between now exclusive tags last remaining snapshots)
    unfolding apply_policies
    apply_policies-AreDue exclusive times last remaining [] k sub = done
    apply_policies-AreDue exclusive times last remaining (s ∷ rest) k sub =
        let (a, b, c) = find_policy-IsFound (get_days_between s.start_time now) last remaining in
        let since : (_ ≡ pos 0) ⊎ In _ times = elim a [
          | inl e ↦ inl e
          | inr e ↦ subst (λ x. (x ≡ pos 0) ⊎ In x times) (sym e) k
        ] in
        let skip = same s (
          apply_policies-AreDue exclusive (s.start_time ∷ times) last remaining rest
            (elim k [ inl e ↦ inl e | inr i ↦ inr (inr i) ]) sub) in
        elim (Bool-cases (not exclusive && is_empty rest)) [
          | inl e ↦ rw e skip
          | inr e ↦ rw e (elim (Bool-cases (not (is_empty tags) && not (contains s.tag tags))) [
            | inl f ↦ rw f skip
            | inr f ↦ rw f (
                treat-AreDue times s rest _ _ _ (ground arith) since (λ p i. sub p (b p i)) c
                  (λ l m. apply_policies-AreDue exclusive times l m rest)
                  (λ l m. apply_policies-AreDue exclusive (s.start_time ∷ times) l m rest))
          ])
        ]

    -- A snapshot that the retention policies select has one of the tags, if tags are given, and
    -- is due: some policy is for its age, and has an interval of 0, or the snapshot is within the
    -- interval of an earlier one that is kept. All other snapshots stay as they are.
    pub select_by_retention-AreDue :
        (exclusive : Bool) (snapshots : List Snapshot)
        → AreDue tags policies [] snapshots
            (select_by_retention get_days_between now exclusive tags policies snapshots)
    unfolding select_by_retention
    select_by_retention-AreDue exclusive [] = done
    select_by_retention-AreDue exclusive (s ∷ []) = done
    select_by_retention-AreDue exclusive (s ∷ t ∷ rest) =
        apply_policies-AreDue exclusive [] (pos 0) policies (s ∷ t ∷ rest) (inl refl) (λ p i. i)
