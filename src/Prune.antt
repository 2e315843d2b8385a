-- ===== src/Prune.antt =====
-- src/duplicacy_snapshotmanager.go: how `prune` finds the chunks that no snapshot references.
pub mod Expand
pub mod Unreferenced
pub mod Retention
pub mod Collection
pub mod Exhaustive
pub mod Operator
pub mod Collections
use duplicacy.Prelude.{ℕ, ◌≡◌, List, [], ◌∷◌, ◌++◌, Bool, true, false, not, ◌&&◌}
use duplicacy.Prelude.Int.{ℤ}
use duplicacy.Prelude.Tables.{contains}
use duplicacy.Entry.{Text}

-- The fields of a snapshot that prune reads.
pub record Snapshot : Type 0 where
  pub id : Text
  pub revision : ℤ
  pub tag : Text
  pub start_time : ℤ
  pub end_time : ℤ
  pub file_sequence : List Text
  pub chunk_sequence : List Text
  pub length_sequence : List Text
  pub chunk_hashes : List Text
  pub flag : Bool

-- The map from snapshot ids to their snapshots, in the order in which it is walked.
abbrev pub Snapshots : Type 0
Snapshots = List (Text × List Snapshot)

-- The tasks handed to the chunk operator, with the chunk's id and the file's path.
pub data Task : Type 0 where
  delete fossilize resurrect : Text → Text → Task

abbrev pub chunk_of : Task → Text
chunk_of (delete chunk path) = chunk
chunk_of (fossilize chunk path) = chunk
chunk_of (resurrect chunk path) = chunk

abbrev pub fossilize_chunk : Text → Text → Bool → Task
fossilize_chunk chunk path true = delete chunk path
fossilize_chunk chunk path false = fossilize chunk path

-- The flag of the last snapshot; there is none of an empty list.
abbrev pub is_latest_flagged : List Snapshot → Bool
is_latest_flagged [] = false
is_latest_flagged (s ∷ []) = s.flag
is_latest_flagged (s ∷ t ∷ rest) = is_latest_flagged (t ∷ rest)
