-- ===== src/Prune/Retention/Latest.antt =====
-- The retention policies never select the latest snapshot of an id.
use duplicacy.Prelude.{
  ◌≡◌, refl, List, [], ◌∷◌, true, false, not, ◌&&◌, ◌||◌, is_empty, Bool-cases, inl, inr, arith,
}
use duplicacy.Prelude.Int.{ℤ, pos}
use duplicacy.Prelude.Int64.{◌==ℤ◌}
use duplicacy.Prelude.Tables.{contains}
use duplicacy.Entry.{Text}
use duplicacy.Prune.{Snapshot, Snapshots, is_latest_flagged}
use duplicacy.Prune.Unreferenced.Exact.{is_permitted}
use duplicacy.Prune.Retention.{
  RetentionPolicy, set_flag, find_policy, is_too_close, treat, apply_policies, select_by_retention,
  select_snapshots,
}

-- The lists end with the same flag, and are both empty or both not.
abbrev EndAlike : List Snapshot → List Snapshot → Type 0
EndAlike xs ys = (is_empty ys ≡ is_empty xs) × (is_latest_flagged ys ≡ is_latest_flagged xs)

EndAlike-cons :
    (s t : Snapshot) (xs ys : List Snapshot)
    → is_empty xs ≡ false
    → EndAlike xs ys
    → EndAlike (s ∷ xs) (t ∷ ys)
EndAlike-cons s t [] ys h (e, f) = absurd (cc)
EndAlike-cons s t (x ∷ xs) [] h (e, f) = absurd (cc)
EndAlike-cons s t (x ∷ xs) (y ∷ ys) h (e, f) = (refl, f)

module _ (get_days_between : ℤ → ℤ → ℤ) (now : ℤ) where
  EndAlike-treat :
      (s : Snapshot) (rest : List Snapshot) (since : ℤ) (found : List RetentionPolicy)
      (rounds : ℤ → List RetentionPolicy → List Snapshot)
      → is_empty rest ≡ false
      → ((l : ℤ) (m : List RetentionPolicy) → EndAlike rest (rounds l m))
      → EndAlike (s ∷ rest) (treat get_days_between now s rest since found rounds)
  EndAlike-treat s rest since [] rounds h k = (refl, refl)
  EndAlike-treat s rest since (policy ∷ more) rounds h k =
      elim (Bool-cases
        (policy.interval ==ℤ pos 0 || is_too_close get_days_between now policy since s)) [
          | inl e ↦ rw e (EndAlike-cons s (set_flag s) rest _ h (k since (policy ∷ more)))
          | inr e ↦ rw e (EndAlike-cons s s rest _ h (k s.start_time (policy ∷ more)))
        ]

  EndAlike-apply_policies :
      (tags : List Text) (last : ℤ) (remaining : List RetentionPolicy) (snapshots : List Snapshot)
      → EndAlike snapshots (apply_policies get_days_between now false tags last remaining snapshots)
  unfolding apply_policies
  EndAlike-apply_policies tags last remaining [] = (refl, refl)
  EndAlike-apply_policies tags last remaining (s ∷ []) = (refl, refl)
  EndAlike-apply_policies tags last remaining (s ∷ t ∷ rest) =
      let (since, found) =
        find_policy get_days_between now (get_days_between s.start_time now) last remaining in
      elim (Bool-cases (not (is_empty tags) && not (contains s.tag tags))) [
        | inl f ↦ rw f (
            EndAlike-cons s s (t ∷ rest) _ refl
              (EndAlike-apply_policies tags last remaining (t ∷ rest)))
        | inr f ↦ rw f (
            EndAlike-treat s (t ∷ rest) since found _ refl
              (λ l m. EndAlike-apply_policies tags l m (t ∷ rest)))
      ]

  EndAlike-select_by_retention :
      (tags : List Text) (policies : List RetentionPolicy) (snapshots : List Snapshot)
      → EndAlike snapshots (select_by_retention get_days_between now false tags policies snapshots)
  unfolding select_by_retention
  EndAlike-select_by_retention tags policies [] = (refl, refl)
  EndAlike-select_by_retention tags policies (s ∷ []) = (refl, refl)
  EndAlike-select_by_retention tags policies (s ∷ t ∷ rest) =
      EndAlike-apply_policies tags (pos 0) policies (s ∷ t ∷ rest)

  -- A run that is not exclusive and selects by the retention policies is never refused: where no
  -- latest snapshot was flagged before, none is after the selection, for one id or for all.
  pub is_permitted-select_snapshots :
      (only : Text) (tags : List Text) (policies : List RetentionPolicy) (all_snapshots : Snapshots)
      → is_empty policies ≡ false
      → is_permitted false all_snapshots ≡ true
      → is_permitted false
          (select_snapshots get_days_between now false only [] tags policies all_snapshots)
        ≡ true
  unfolding is_permitted select_snapshots
  is_permitted-select_snapshots only tags policies [] k h = refl
  is_permitted-select_snapshots only tags policies ((id, snapshots) ∷ rest) k h =
      let (e, f) = EndAlike-select_by_retention tags policies snapshots in
      ground (arith, is_permitted-select_snapshots only tags policies rest k)
