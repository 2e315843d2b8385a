-- ===== src/Prune/Unreferenced.antt =====
-- pruneSnapshotsNonExhaustive of src/duplicacy_snapshotmanager.go: the chunks that only the
-- snapshots to be deleted reference.
pub mod Exact
use duplicacy.Prelude.{
  List, [], ◌∷◌, ◌++◌, Option, none, some, if◌then◌else◌, Bool, true, false, not, ◌&&◌,
}
use duplicacy.Prelude.Tables.{lookup, put}
use duplicacy.Entry.{Text}
use duplicacy.Prune.{Snapshot, Snapshots, Task, is_latest_flagged, fossilize_chunk}

unfoldable pub split_by_flag :
    List Snapshot → List Snapshot → List Snapshot → List Snapshot × List Snapshot
split_by_flag [] deleted kept = (deleted, kept)
split_by_flag (s ∷ rest) deleted kept =
    let as_kept = split_by_flag rest deleted (kept ++ s ∷ []) in
    let as_deleted = split_by_flag rest (deleted ++ s ∷ []) kept in
    if s.flag then as_deleted else as_kept

-- `none` is the error for a latest snapshot that is to be deleted.
unfoldable pub partition_snapshots :
    Bool → Snapshots → List Snapshot → List Snapshot → Option (List Snapshot × List Snapshot)
unfolding split_by_flag
partition_snapshots exclusive [] deleted kept = some (deleted, kept)
partition_snapshots exclusive ((id, snapshots) ∷ rest) deleted kept =
    if is_latest_flagged snapshots && not exclusive
    then none
    else (let (d, k) = split_by_flag snapshots deleted kept in
        partition_snapshots exclusive rest d k)

-- The map from the chunks to whether a snapshot that is kept references them.
abbrev pub Targets : Type 0
Targets = List (Text × Bool)

unfoldable pub add_targets : List Text → Targets → Targets
unfolding put
add_targets [] targets = targets
add_targets (chunk ∷ rest) targets = add_targets rest (put chunk false targets)

unfoldable pub keep_target : Text → Targets → Targets
unfolding lookup put
keep_target chunk targets = elim (lookup chunk targets) [
  | none ↦ targets
  | some value ↦ put chunk true targets
]

unfoldable pub keep_targets : List Text → Targets → Targets
unfolding keep_target
keep_targets [] targets = targets
keep_targets (chunk ∷ rest) targets = keep_targets rest (keep_target chunk targets)

unfoldable pub tasks_of : Bool → Targets → List Task
tasks_of exclusive [] = []
tasks_of exclusive ((chunk, value) ∷ rest) =
    if value
    then tasks_of exclusive rest
    else fossilize_chunk chunk [] exclusive ∷ tasks_of exclusive rest

unfoldable pub concat_chunks : List (List Text) → List Text
concat_chunks [] = []
concat_chunks (chunks ∷ rest) = chunks ++ concat_chunks rest

-- A dry run only logs what it finds.
abbrev submitted : Bool → List Task → List Task
submitted true tasks = []
submitted false tasks = tasks

module _ (expand_snapshots : List Snapshot → Option (List (List Text))) where
  -- The tasks for the lists of chunks; the loops over a list of lists go through its elements.
  abbrev pub prune_chunks : Bool → Bool → List (List Text) → List (List Text) → List Task
  prune_chunks dry_run exclusive deleted kept = submitted dry_run (
      tasks_of exclusive
        (keep_targets (concat_chunks kept) (add_targets (concat_chunks deleted) [])))

  -- `none` is an error that ends the command.
  unfoldable pub prune_snapshots_non_exhaustive : Bool → Bool → Snapshots → Option (List Task)
  unfolding partition_snapshots add_targets keep_targets tasks_of concat_chunks
  prune_snapshots_non_exhaustive dry_run exclusive all_snapshots =
      elim (partition_snapshots exclusive all_snapshots [] []) [
        | none ↦ none
        | some (deleted, kept) ↦ elim (expand_snapshots deleted) [
          | none ↦ none
          | some deleted_chunks ↦ elim (expand_snapshots kept) [
            | none ↦ none
            | some kept_chunks ↦ some (prune_chunks dry_run exclusive deleted_chunks kept_chunks)
          ]
        ]
      ]
