-- ===== src/Backup/Preserve.antt =====
-- Backup of src/duplicacy_backupmanager.go, for a file that has not changed: the chunks that it had
-- in the last snapshot are preserved, and it takes their new place.
pub mod Copied
pub mod Extends
pub mod Same
use mathlib.Core.Option
use duplicacy.Prelude.{ℕ, zero, suc, length, List, Option, none, some, if◌then◌else◌}
use duplicacy.Prelude.Int.{ℤ, pos, negsuc, pos_part, ltb_ℤ, ◌-ℤ◌}
use duplicacy.Prelude.Int64.{◌==ℤ◌, add64, sub64}
use duplicacy.Entry.{Entry}
use duplicacy.EntryList.{EntryList, add_preserved_chunk}
use duplicacy.Backup.{ChunkTable, chunk_at}

-- `localEntryList`, `lastPreservedChunk`, `preservedFileSize` and `totalModifiedFileSize`.
pub record Merging : Type 0 where
  pub list : EntryList
  pub last : ℤ
  pub preserved_size : ℤ
  pub modified_size : ℤ

module _ (table : ChunkTable) where
  unfoldable pub copy_chunk : ℤ → EntryList → Option EntryList
  unfolding add_preserved_chunk
  copy_chunk i list = elim (chunk_at table i) [
    | none ↦ none
    | some (hash, size) ↦ some (add_preserved_chunk hash size list)
  ]

  -- The loop from `i` on, for the rounds that its bound leaves.
  unfoldable pub copy_chunks : ℕ → ℤ → EntryList → Option EntryList
  unfolding copy_chunk add64
  copy_chunks zero i list = some list
  copy_chunks (suc rounds) i list = elim (copy_chunk i list) [
    | none ↦ none
    | some list' ↦ copy_chunks rounds (add64 i (pos 1)) list'
  ]

  -- The first chunk, with `delta`; it is there already if the file before ended in it.
  unfoldable pub first_chunk : Merging → ℤ → Option (EntryList × ℤ)
  unfolding copy_chunk add64 sub64
  first_chunk m start =
      let delta = sub64 start (pos (length m.list.preserved_chunk_hashes)) in
      let copied = Option.map (λ (list : EntryList). (list, delta)) (copy_chunk start m.list) in
      if m.last ==ℤ start then some (m.list, add64 delta (pos 1)) else copied

  abbrev pub rounds_after : ℤ → ℤ → ℕ
  rounds_after start end = pos_part (end -ℤ start)

  -- The list with the chunks of a file, and the `delta` to its old place.
  unfoldable pub place_chunks : Merging → ℤ → ℤ → Option (EntryList × ℤ)
  unfolding first_chunk copy_chunks
  place_chunks m start end = elim (first_chunk m start) [
    | none ↦ none
    | some (list, delta) ↦
        Option.map (λ (after : EntryList). (after, delta))
          (copy_chunks (rounds_after start end) (add64 start (pos 1)) list)
  ]

  abbrev pub last_of : ℤ → ℤ → ℤ
  last_of start end = if ltb_ℤ start end then end else start

  abbrev pub placed_at : Entry → Entry → ℤ → Entry
  placed_at entry remote delta = record entry {
    hash = remote.hash;
    start_offset = remote.start_offset;
    end_offset = remote.end_offset;
    start_chunk = sub64 remote.start_chunk delta;
    end_chunk = sub64 remote.end_chunk delta;
  }

  unfoldable pub preserve : Merging → Entry → Entry → Option (Merging × Entry)
  unfolding place_chunks
  preserve m entry remote = elim (place_chunks m remote.start_chunk remote.end_chunk) [
    | none ↦ none
    | some (list, delta) ↦ some (
      record m {
        list = list;
        last = last_of remote.start_chunk remote.end_chunk;
        preserved_size = add64 m.preserved_size entry.size;
      },
      placed_at entry remote delta,
    )
  ]
