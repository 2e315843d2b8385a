-- ===== src/Backup.antt =====
-- src/duplicacy_backupmanager.go: what Backup does with the entries and the chunks.
pub mod Ranges
pub mod Preserve
pub mod Merge
pub mod Metadata
pub mod Upload
use duplicacy.Prelude.{ℕ, List, Option, none, some, get_elem?}
use duplicacy.Prelude.Int.{ℤ, pos, negsuc}
use duplicacy.Entry.{Text}

-- ChunkHashes and ChunkLengths of a snapshot.
pub record ChunkTable : Type 0 where
  pub hashes : List Text
  pub lengths : List ℤ

-- `none` is an index out of range.
abbrev pub index {ℓ} : {A : Type ℓ} → List A → ℤ → Option A
index xs (pos i) = get_elem? xs i
index xs (negsuc i) = none

abbrev pub both : Option Text → Option ℤ → Option (Text × ℤ)
both none size = none
both (some hash) none = none
both (some hash) (some size) = some (hash, size)

abbrev pub chunk_at : ChunkTable → ℤ → Option (Text × ℤ)
chunk_at table i = both (index table.hashes i) (index table.lengths i)
