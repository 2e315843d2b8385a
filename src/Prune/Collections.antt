-- ===== src/Prune/Collections.antt =====
-- How PruneSnapshots of src/duplicacy_snapshotmanager.go handles a fossil collection that an
-- earlier run left.
pub mod Handled
use duplicacy.Prelude.{
  ℕ, drop, List, [], ◌∷◌, ◌++◌, map, Option, none, some, if◌then◌else◌, Bool, true, false, not,
  ◌&&◌, ◌||◌,
}
use duplicacy.Prelude.Int.{ℤ}
use duplicacy.Prelude.Int64.{◌==ℤ◌}
use duplicacy.Prelude.Bytes.{eq_text}
use duplicacy.Prelude.Tables.{contains, lookup}
use duplicacy.Entry.{Text}
use duplicacy.Prune.{Snapshot, Snapshots, Task, delete, resurrect}
use duplicacy.Prune.Unreferenced.{concat_chunks}
use duplicacy.Prune.Collection.{FossilCollection, is_deletable}
use duplicacy.Prune.Exhaustive.{trim_suffix, chunk_id_from_listed_path, fsl_suffix}

-- What is left of a collection: the tasks, whether its file is removed, and the fossils that
-- count as collected.
pub record Handling : Type 0 where
  pub tasks : List Task
  pub is_file_removed : Bool
  pub referenced_fossils : List Text

abbrev has_snapshot : ℤ → List Snapshot → Bool
has_snapshot revision [] = false
has_snapshot revision (s ∷ rest) = revision ==ℤ s.revision || has_snapshot revision rest

abbrev has_any : List ℤ → List Snapshot → Bool
has_any [] snapshots = false
has_any (revision ∷ rest) snapshots = has_snapshot revision snapshots || has_any rest snapshots

abbrev or_none : Option (List Snapshot) → List Snapshot
or_none none = []
or_none (some snapshots) = snapshots

-- Some revision that the collection's run deleted is there again.
unfoldable pub has_ghost : List (Text × List ℤ) → Snapshots → Bool
unfolding lookup
has_ghost [] all_snapshots = false
has_ghost ((id, revisions) ∷ rest) all_snapshots =
    has_any revisions (or_none (lookup id all_snapshots)) || has_ghost rest all_snapshots

-- The id of a fossil's chunk; the path starts with chunks/, which is 7 bytes. The slice of the source
-- is out of range for a shorter path.
unfoldable pub fossil_chunk : Text → Text
unfolding trim_suffix chunk_id_from_listed_path
fossil_chunk fossil = trim_suffix fsl_suffix (chunk_id_from_listed_path (drop 7 fossil))

abbrev pub fossil_task : List Text → Text → Task
fossil_task new_chunks fossil =
    if contains (fossil_chunk fossil) new_chunks
    then resurrect (fossil_chunk fossil) fossil
    else delete (fossil_chunk fossil) fossil

unfoldable pub fossil_tasks : List Text → List Text → List Task
unfolding contains fossil_chunk
fossil_tasks new_chunks [] = []
fossil_tasks new_chunks (fossil ∷ rest) =
    fossil_task new_chunks fossil ∷ fossil_tasks new_chunks rest

unfoldable pub temporary_tasks : List Text → List Task
temporary_tasks [] = []
temporary_tasks (temporary ∷ rest) = delete [] temporary ∷ temporary_tasks rest

module _ (chunks_of : Snapshot → List Text) (dry_run exclusive : Bool) where
  abbrev pub handled : FossilCollection → List Snapshot → Handling
  handled collection new_snapshots = record {
    tasks =
        if dry_run
        then []
        else fossil_tasks (concat_chunks (map chunks_of new_snapshots)) collection.fossils
          ++ temporary_tasks collection.temporaries;
    is_file_removed = not dry_run;
    referenced_fossils = collection.fossils;
  }

  abbrev pub postponed : FossilCollection → Handling
  postponed collection = record {
    tasks = [];
    is_file_removed = false;
    referenced_fossils = collection.fossils;
  }

  -- By the answer of IsDeletable.
  abbrev pub handle_by : FossilCollection → Bool × List Snapshot → Handling
  handle_by collection (deletable, new_snapshots) =
      if deletable || exclusive then handled collection new_snapshots else postponed collection

  -- The file of a collection with ghosts is removed, in a dry run too.
  unfoldable pub handle_collection : FossilCollection → ℤ → Bool → List Text → Snapshots → Handling
  unfolding has_ghost is_deletable fossil_tasks temporary_tasks concat_chunks
  handle_collection collection now is_strong_consistent ignored_ids all_snapshots =
      if has_ghost collection.deleted_revisions all_snapshots
      then record { tasks = []; is_file_removed = true; referenced_fossils = [] }
      else handle_by collection
          (is_deletable collection now is_strong_consistent ignored_ids all_snapshots)
