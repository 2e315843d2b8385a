-- ===== src/Prune/Unreferenced/Exact.antt =====
-- The chunks that are pruned are those that a snapshot to be deleted references and no other does.
use duplicacy.Prelude.{
  ◌≡◌, refl, List, [], ◌∷◌, ◌++◌, map, Option, none, some, if◌then◌else◌, Bool, true, false, not,
  ◌&&◌, arith,
}
use mathlib.Core.List.{append-nil, append_assoc}
use duplicacy.Prelude.Bytes.{eq_text, eq_of_eq_text}
use duplicacy.Prelude.Tables.{
  contains, lookup, put, lookup-put, HasDistinctKeys, HasDistinctKeys-put,
}
use duplicacy.Entry.{Text}
use duplicacy.Prune.{Snapshot, Snapshots, Task, chunk_of, is_latest_flagged, fossilize_chunk}
use duplicacy.Prune.Unreferenced.{
  Targets, split_by_flag, partition_snapshots, add_targets, keep_target, keep_targets, tasks_of,
  concat_chunks, prune_snapshots_non_exhaustive,
}

unfoldable pub flagged : List Snapshot → List Snapshot
flagged [] = []
flagged (s ∷ rest) = if s.flag then s ∷ flagged rest else flagged rest

unfoldable pub unflagged : List Snapshot → List Snapshot
unflagged [] = []
unflagged (s ∷ rest) = if s.flag then unflagged rest else s ∷ unflagged rest

abbrev pub flagged_in : Snapshots → List Snapshot
flagged_in [] = []
flagged_in ((id, snapshots) ∷ rest) = flagged snapshots ++ flagged_in rest

abbrev pub unflagged_in : Snapshots → List Snapshot
unflagged_in [] = []
unflagged_in ((id, snapshots) ∷ rest) = unflagged snapshots ++ unflagged_in rest

-- No latest snapshot is to be deleted, unless the run is exclusive.
unfoldable pub is_permitted : Bool → Snapshots → Bool
is_permitted exclusive [] = true
is_permitted exclusive ((id, snapshots) ∷ rest) =
    not (is_latest_flagged snapshots && not exclusive) && is_permitted exclusive rest

unfoldable pub is_referenced : (Snapshot → List Text) → Text → List Snapshot → Bool
is_referenced chunks_of chunk snapshots = contains chunk (concat_chunks (map chunks_of snapshots))

split_by_flag_lem :
    (snapshots deleted kept : List Snapshot)
    → split_by_flag snapshots deleted kept
      ≡ (deleted ++ flagged snapshots, kept ++ unflagged snapshots)
unfolding split_by_flag flagged unflagged
split_by_flag_lem [] deleted kept = rw (append-nil deleted, append-nil kept) refl
split_by_flag_lem (s ∷ rest) deleted kept = ground (
  arith,
  split_by_flag_lem rest (deleted ++ s ∷ []) kept,
  split_by_flag_lem rest deleted (kept ++ s ∷ []),
  append_assoc deleted (s ∷ []) (flagged rest),
  append_assoc kept (s ∷ []) (unflagged rest),
)

pub partition_snapshots_lem :
    (exclusive : Bool) (all_snapshots : Snapshots) (deleted kept : List Snapshot)
    → is_permitted exclusive all_snapshots ≡ true
    → partition_snapshots exclusive all_snapshots deleted kept
      ≡ some (deleted ++ flagged_in all_snapshots, kept ++ unflagged_in all_snapshots)
unfolding partition_snapshots is_permitted
partition_snapshots_lem exclusive [] deleted kept h = rw (append-nil deleted, append-nil kept) refl
partition_snapshots_lem exclusive ((id, snapshots) ∷ rest) deleted kept h = ground (
  arith,
  split_by_flag_lem snapshots deleted kept,
  partition_snapshots_lem exclusive rest (deleted ++ flagged snapshots)
      (kept ++ unflagged snapshots),
  append_assoc deleted (flagged snapshots) (flagged_in rest),
  append_assoc kept (unflagged snapshots) (unflagged_in rest),
)

partition_snapshots-refused :
    (exclusive : Bool) (all_snapshots : Snapshots) (deleted kept : List Snapshot)
    → is_permitted exclusive all_snapshots ≡ false
    → partition_snapshots exclusive all_snapshots deleted kept ≡ none
unfolding partition_snapshots is_permitted
partition_snapshots-refused exclusive [] deleted kept h = absurd (cc)
partition_snapshots-refused exclusive ((id, snapshots) ∷ rest) deleted kept h =
    let (d, k) = split_by_flag snapshots deleted kept in
    ground (arith, partition_snapshots-refused exclusive rest d k)

pub lookup-add_targets :
    (chunk : Text) (chunks : List Text) (targets : Targets)
    → lookup chunk (add_targets chunks targets)
      ≡ (if contains chunk chunks then some false else lookup chunk targets)
unfolding add_targets contains
lookup-add_targets chunk [] targets = refl
lookup-add_targets chunk (c ∷ chunks) targets =
    ground (
      arith,
      lookup-add_targets chunk chunks (put c false targets),
      lookup-put chunk c false targets,
    )

HasDistinctKeys-add_targets :
    (chunks : List Text) (targets : Targets)
    → HasDistinctKeys targets
    → HasDistinctKeys (add_targets chunks targets)
unfolding add_targets
HasDistinctKeys-add_targets [] targets h = h
HasDistinctKeys-add_targets (c ∷ chunks) targets h =
    HasDistinctKeys-add_targets chunks (put c false targets) (HasDistinctKeys-put c false targets h)

abbrev marked : Option Bool → Option Bool
marked none = none
marked (some value) = some true

lookup-keep_target :
    (chunk c : Text) (targets : Targets)
    → lookup chunk (keep_target c targets)
      ≡ (if eq_text chunk c then marked (lookup chunk targets) else lookup chunk targets)
unfolding keep_target
lookup-keep_target chunk c targets =
    ground (arith, lookup-put chunk c true targets, eq_of_eq_text chunk c)

lookup-keep_targets :
    (chunk : Text) (chunks : List Text) (targets : Targets)
    → lookup chunk (keep_targets chunks targets)
      ≡ (if contains chunk chunks then marked (lookup chunk targets) else lookup chunk targets)
unfolding keep_targets contains
lookup-keep_targets chunk [] targets = refl
lookup-keep_targets chunk (c ∷ chunks) targets = ground (
  arith,
  lookup-keep_targets chunk chunks (keep_target c targets),
  lookup-keep_target chunk c targets,
)

HasDistinctKeys-keep_target :
    (c : Text) (targets : Targets)
    → HasDistinctKeys targets
    → HasDistinctKeys (keep_target c targets)
unfolding keep_target
HasDistinctKeys-keep_target c targets h = ground (arith, HasDistinctKeys-put c true targets h)

HasDistinctKeys-keep_targets :
    (chunks : List Text) (targets : Targets)
    → HasDistinctKeys targets
    → HasDistinctKeys (keep_targets chunks targets)
unfolding keep_targets
HasDistinctKeys-keep_targets [] targets h = h
HasDistinctKeys-keep_targets (c ∷ chunks) targets h =
    HasDistinctKeys-keep_targets chunks (keep_target c targets)
      (HasDistinctKeys-keep_target c targets h)

abbrev is_unmarked : Option Bool → Bool
is_unmarked none = false
is_unmarked (some value) = not value

chunk_of-fossilize_chunk :
    (chunk path : Text) (exclusive : Bool) → chunk_of (fossilize_chunk chunk path exclusive) ≡ chunk
chunk_of-fossilize_chunk chunk path true = refl
chunk_of-fossilize_chunk chunk path false = refl

contains-tasks_of :
    (exclusive : Bool) (chunk : Text) (targets : Targets)
    → HasDistinctKeys targets
    → contains chunk (map chunk_of (tasks_of exclusive targets))
      ≡ is_unmarked (lookup chunk targets)
unfolding tasks_of contains lookup
contains-tasks_of exclusive chunk [] h = refl
contains-tasks_of exclusive chunk ((c, true) ∷ rest) (h, hs) =
    ground (arith, contains-tasks_of exclusive chunk rest hs, eq_of_eq_text chunk c)
contains-tasks_of exclusive chunk ((c, false) ∷ rest) (h, hs) = ground (
  arith,
  contains-tasks_of exclusive chunk rest hs,
  eq_of_eq_text chunk c,
  chunk_of-fossilize_chunk c [] exclusive,
)

contains-prune_chunks :
    (exclusive : Bool) (deleted kept : List (List Text)) (chunk : Text)
    → contains chunk (
        map chunk_of (
          tasks_of exclusive
            (keep_targets (concat_chunks kept) (add_targets (concat_chunks deleted) []))))
      ≡ contains chunk (concat_chunks deleted) && not (contains chunk (concat_chunks kept))
unfolding lookup
contains-prune_chunks exclusive deleted kept chunk =
    let targets = add_targets (concat_chunks deleted) [] in
    ground (
      arith,
      contains-tasks_of exclusive chunk (keep_targets (concat_chunks kept) targets) (
          HasDistinctKeys-keep_targets (concat_chunks kept) targets
            (HasDistinctKeys-add_targets (concat_chunks deleted) [] tt)),
      lookup-keep_targets chunk (concat_chunks kept) targets,
      lookup-add_targets chunk (concat_chunks deleted) [],
    )

-- A prune that deletes no latest snapshot, or is exclusive, succeeds, and hands out a task for
-- exactly the chunks that a snapshot to be deleted references and no snapshot that is kept does.
-- It is no dry run, and each snapshot's chunks can be listed.
pub prune_snapshots_non_exhaustive-exact :
    (chunks_of : Snapshot → List Text) (expand : List Snapshot → Option (List (List Text)))
    → ((snapshots : List Snapshot) → expand snapshots ≡ some (map chunks_of snapshots))
    → (exclusive : Bool) (all_snapshots : Snapshots) → is_permitted exclusive all_snapshots ≡ true
    → (tasks : List Task) × (prune_snapshots_non_exhaustive expand false exclusive all_snapshots
        ≡ some tasks)
      × ((chunk : Text)
          → contains chunk (map chunk_of tasks)
            ≡ is_referenced chunks_of chunk (flagged_in all_snapshots)
              && not (is_referenced chunks_of chunk (unflagged_in all_snapshots)))
unfolding prune_snapshots_non_exhaustive is_referenced
prune_snapshots_non_exhaustive-exact chunks_of expand expands exclusive all_snapshots h = (
  _,
  rw
      (
        partition_snapshots_lem exclusive all_snapshots [] [] h,
        prune_snapshots_non_exhaustive,
        expands (flagged_in all_snapshots),
        expands (unflagged_in all_snapshots),
      )
      refl,
  contains-prune_chunks exclusive (map chunks_of (flagged_in all_snapshots))
      (map chunks_of (unflagged_in all_snapshots)),
)

-- Where the latest snapshot of some id is to be deleted and the run is not exclusive, no chunk is
-- touched: the command ends with an error.
pub prune_snapshots_non_exhaustive-refused :
    (expand : List Snapshot → Option (List (List Text))) (dry_run exclusive : Bool)
    (all_snapshots : Snapshots)
    → is_permitted exclusive all_snapshots ≡ false
    → prune_snapshots_non_exhaustive expand dry_run exclusive all_snapshots ≡ none
unfolding prune_snapshots_non_exhaustive
prune_snapshots_non_exhaustive-refused expand dry_run exclusive all_snapshots h =
    rw (partition_snapshots-refused exclusive all_snapshots [] [] h, prune_snapshots_non_exhaustive)
      refl
