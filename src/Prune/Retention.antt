-- ===== src/Prune/Retention.antt =====
-- The retention policies of PruneSnapshots in src/duplicacy_snapshotmanager.go: which snapshots of
-- one id are to be deleted. The policies are read from the text of the options elsewhere.
pub mod Due
pub mod Latest
use duplicacy.Prelude.{
  ℕ, List, [], ◌∷◌, Option, none, some, if◌then◌else◌, Bool, true, false, not, ◌&&◌, ◌||◌, is_empty,
}
use duplicacy.Prelude.Int.{ℤ, pos, ltb_ℤ}
use duplicacy.Prelude.Int64.{◌==ℤ◌}
use duplicacy.Prelude.Tables.{contains}
use duplicacy.Prelude.Bytes.{eq_text}
use duplicacy.Entry.{Text}
use duplicacy.Prune.{Snapshot, Snapshots}

pub record RetentionPolicy : Type 0 where
  pub age : ℤ
  pub interval : ℤ

abbrev pub set_flag : Snapshot → Snapshot
set_flag s = record s { flag = true }

abbrev has_revision : ℤ → List ℤ → Bool
has_revision r [] = false
has_revision r (q ∷ rest) = r ==ℤ q || has_revision r rest

unfoldable pub select_revisions : List ℤ → List Snapshot → List Snapshot
select_revisions revisions [] = []
select_revisions revisions (s ∷ rest) =
    (if has_revision s.revision revisions then set_flag s else s) ∷ select_revisions revisions rest

unfoldable pub select_tags : List Text → List Snapshot → List Snapshot
unfolding contains
select_tags tags [] = []
select_tags tags (s ∷ rest) =
    (if contains s.tag tags then set_flag s else s) ∷ select_tags tags rest

-- getDaysBetween, which goes by the local time zone, and the time of the run.
module _ (get_days_between : ℤ → ℤ → ℤ) (now : ℤ) where
  -- The loop that finds the policy for an age: the policies from there on, and the time of the
  -- last snapshot kept, which is 0 after a step.
  unfoldable pub find_policy : ℤ → ℤ → List RetentionPolicy → ℤ × List RetentionPolicy
  find_policy days last [] = (last, [])
  find_policy days last (policy ∷ rest) =
      let next = find_policy days (pos 0) rest in
      if ltb_ℤ days policy.age then next else (last, policy ∷ rest)

  abbrev pub is_too_close : RetentionPolicy → ℤ → Snapshot → Bool
  is_too_close policy last s =
      not (last ==ℤ pos 0) && ltb_ℤ (get_days_between last s.start_time) policy.interval

  -- What the policy that was found does with a snapshot, before the rounds that follow; with none
  -- left the loop ends.
  abbrev pub treat :
      Snapshot
      → List Snapshot
      → ℤ
      → List RetentionPolicy
      → (ℤ → List RetentionPolicy → List Snapshot)
      → List Snapshot
  treat s rest since [] rounds = s ∷ rest
  treat s rest since (policy ∷ more) rounds =
      let deleted = set_flag s ∷ rounds since (policy ∷ more) in
      let kept = s ∷ rounds s.start_time (policy ∷ more) in
      if policy.interval ==ℤ pos 0 || is_too_close policy since s then deleted else kept

  -- The snapshots after the loop, with those to be deleted flagged.
  unfoldable pub apply_policies :
      Bool → List Text → ℤ → List RetentionPolicy → List Snapshot → List Snapshot
  unfolding find_policy contains
  apply_policies exclusive tags last policies [] = []
  apply_policies exclusive tags last policies (s ∷ rest) =
      let skipped = s ∷ apply_policies exclusive tags last policies rest in
      let (since, found) = find_policy (get_days_between s.start_time now) last policies in
      let applied =
        treat s rest since found
          (λ last policies. apply_policies exclusive tags last policies rest) in
      if not exclusive && is_empty rest
      then skipped
      else if not (is_empty tags) && not (contains s.tag tags)
      then skipped
      else applied

  unfoldable pub select_by_retention :
      Bool → List Text → List RetentionPolicy → List Snapshot → List Snapshot
  unfolding apply_policies
  select_by_retention exclusive tags policies [] = []
  select_by_retention exclusive tags policies (s ∷ []) = s ∷ []
  select_by_retention exclusive tags policies (s ∷ t ∷ rest) =
      apply_policies exclusive tags (pos 0) policies (s ∷ t ∷ rest)

  -- The loop over the ids: only the given one if there is one, by the revisions given, else by the
  -- retention policies, else by the tags.
  unfoldable pub select_snapshots :
      Bool → Text → List ℤ → List Text → List RetentionPolicy → Snapshots → Snapshots
  unfolding select_by_retention select_revisions select_tags eq_text
  select_snapshots exclusive only revisions tags policies [] = []
  select_snapshots exclusive only revisions tags policies ((id, snapshots) ∷ rest) =
      let selected =
        if not (is_empty only) && not (eq_text id only)
        then snapshots
        else if not (is_empty revisions)
        then select_revisions revisions snapshots
        else if not (is_empty policies)
        then select_by_retention exclusive tags policies snapshots
        else select_tags tags snapshots in
      (id, selected) ∷ select_snapshots exclusive only revisions tags policies rest
