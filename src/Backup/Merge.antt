-- ===== src/Backup/Merge.antt =====
-- Backup of src/duplicacy_backupmanager.go, the loop that goes through the local listing and the
-- one of the last snapshot side by side. A channel is the list of what comes out of it; its head is
-- also the entry that was received and is not used up, the variable `remoteEntry`.
pub mod Lookup
pub mod Placed
pub mod Kept
use duplicacy.Prelude.{List, [], ◌∷◌, Option, none, some, if◌then◌else◌, ◌&&◌}
use duplicacy.Prelude.Int.{pos, negsuc, ltb_ℤ}
use duplicacy.Prelude.Int64.{◌==ℤ◌, add64}
use duplicacy.Entry.{Entry, is_file, is_same_as}
use duplicacy.Entry.Order.{compare_paths}
use duplicacy.EntryList.Disk.{Library, add_entry}
use duplicacy.Backup.{ChunkTable}
use duplicacy.Backup.Preserve.{Merging, preserve}

-- The inner loop: the remote entry with the path of the local one, and what is left of the listing.
unfoldable pub advance : Entry → List Entry → Option Entry × List Entry
unfolding compare_paths
advance entry [] = (none, [])
advance entry (remote ∷ rest) =
    let result = compare_paths entry.path remote.path in
    let more = advance entry rest in
    if ltb_ℤ (pos 0) result
    then more
    else if result ==ℤ pos 0
    then (some remote, rest)
    else (none, remote ∷ rest)

-- A file to be uploaded has a size of -1 from now on.
abbrev pub modified : Merging → Entry → Merging × Entry
modified m entry = (
  record m { modified_size = add64 m.modified_size entry.size },
  (if ltb_ℤ (pos 0) entry.size then record entry { size = negsuc 0 } else entry),
)

module _ (table : ChunkTable) where
  unfoldable pub treat : Merging → Entry → Option Entry → Option (Merging × Entry)
  unfolding preserve is_same_as is_file
  treat m entry none = some (modified m entry)
  treat m entry (some remote) =
      if is_same_as entry remote && is_file entry
      then (if ltb_ℤ (pos 0) entry.size then preserve table m entry remote else some (m, entry))
      else some (modified m entry)

  module _ (lib : Library) where
    abbrev pub added : Merging → Entry → Merging
    added m entry = record m { list = add_entry lib entry m.list }

    -- What follows for the next local entry.
    abbrev pub go_on : Option (Merging × Entry) → (Merging → Option Merging) → Option Merging
    go_on none next = none
    go_on (some (m, placed)) next = next (added m placed)

    -- `none` is an index out of range.
    unfoldable pub merge : List Entry → List Entry → Merging → Option Merging
    unfolding advance treat add_entry
    merge [] remotes m = some m
    merge (entry ∷ locals) remotes m =
        let (found, rest) = advance entry remotes in
        go_on (treat m entry found) (λ after. merge locals rest after)
