-- ===== src/Samples/Backups.antt =====
-- The theorems on backups, at concrete listings.
use duplicacy.Prelude.{◌≡◌, refl, List, [], ◌∷◌, ◌++◌, some, none, true, inl, inr, arith}
use duplicacy.Prelude.Int.{ℤ, pos, negsuc}
use duplicacy.Prelude.Int64.{add64, sub64}
use duplicacy.Entry.{Entry, is_file}
use duplicacy.Entry.Check.{check, check_place}
use duplicacy.EntryList.{create_entry_list}
use duplicacy.EntryList.Disk.Contents.{Holds, in_memory}
use duplicacy.Backup.{ChunkTable}
use duplicacy.Backup.Preserve.{Merging, preserve, placed_at}
use duplicacy.Backup.Preserve.Copied.{IsTable}
use duplicacy.Backup.Preserve.Extends.{at_start}
use duplicacy.Backup.Preserve.Same.{HasChunks, SameChunks, Grows, IsMerging, preserve-SameChunks}
use duplicacy.Backup.Merge.{merge}
use duplicacy.Backup.Merge.Lookup.{IsListing, IsBefore, merge_by_path, merge-eq-merge_by_path}
use duplicacy.Backup.Merge.Placed.{AllOutcomes, HaveChunks}
use duplicacy.Backup.Merge.Kept.{merge-AllOutcomes, paths}
use duplicacy.Backup.Metadata.{Packing, start_packing, pack_entries, list_remote_files}
use duplicacy.Backup.Metadata.Listed.{AllSamePacked, IsReady, list_remote_files-pack_entries}
use duplicacy.Entry.Order.{compare_paths}
use duplicacy.Entry.Order.Key.{sign}
use duplicacy.Samples.{some_file, some_library}

-- Three chunks, and a file in the last two of them.
abbrev table : ChunkTable
table = record {
  hashes = (b'x' ∷ []) ∷ (b'y' ∷ []) ∷ (b'z' ∷ []) ∷ [];
  lengths = pos 4 ∷ pos 4 ∷ pos 4 ∷ [];
}

abbrev old_file : Entry
old_file = record some_file { start_chunk = pos 1; end_chunk = pos 2; attributes = none }

-- The same file as it is listed, and a new one after it.
abbrev same_file : Entry
same_file = record old_file { hash = []; start_chunk = pos 0; end_chunk = pos 0 }

abbrev new_file : Entry
new_file = record same_file { path = (b'd' ∷ b'/' ∷ b'b' ∷ []) }

abbrev fresh : Merging
fresh = record {
  list = create_entry_list (b't' ∷ []) (pos 10);
  last = negsuc 0;
  preserved_size = pos 0;
  modified_size = pos 0;
}

table-IsTable : IsTable table
table-IsTable = (refl, omega arith)

fresh-IsMerging : IsMerging table fresh
fresh-IsMerging = record { even = refl; ends = at_start }

old_file-HasChunks : HasChunks table old_file
old_file-HasChunks = record {
  s = 1;
  e = 2;
  start = refl;
  end = refl;
  ordered = omega arith;
  within = omega arith;
}

preserve-SameChunks_example :
    (after : Merging) × (delta : ℤ) × (preserve table fresh same_file old_file
      ≡ some (after, placed_at table same_file old_file delta))
    × SameChunks table old_file after.list (placed_at table same_file old_file delta)
    × Grows fresh.list after.list 3
    × IsMerging table after
preserve-SameChunks_example =
    preserve-SameChunks table fresh same_file old_file table-IsTable fresh-IsMerging (omega arith)
      old_file-HasChunks

same-IsBefore_new : IsBefore same_file new_file
unfolding compare_paths sign
same-IsBefore_new = refl

locals-IsListing : IsListing (same_file ∷ new_file ∷ [])
locals-IsListing = (omega arith, (same-IsBefore_new, tt), (omega arith, tt, tt))

remotes-IsListing : IsListing (old_file ∷ [])
remotes-IsListing = (omega arith, tt, tt)

merge-eq-merge_by_path_example :
    merge table some_library (same_file ∷ new_file ∷ []) (old_file ∷ []) fresh
    ≡ merge_by_path table some_library (old_file ∷ []) (same_file ∷ new_file ∷ []) fresh
merge-eq-merge_by_path_example =
    merge-eq-merge_by_path table some_library (same_file ∷ new_file ∷ []) (old_file ∷ []) fresh
      locals-IsListing remotes-IsListing

remotes-HaveChunks : HaveChunks table (old_file ∷ [])
remotes-HaveChunks remote (inl e) size = rw e old_file-HasChunks
remotes-HaveChunks remote (inr i) size = absurd i

merge-AllOutcomes_example :
    (after : Merging) × (outs : List Entry) × (merge table some_library
        (same_file ∷ new_file ∷ [])
        (old_file ∷ [])
        fresh
      ≡ some after)
    × Holds some_library after.list ([] ++ outs)
    × AllOutcomes table (old_file ∷ []) after.list (same_file ∷ new_file ∷ []) outs
    × (paths outs ≡ same_file.path ∷ new_file.path ∷ [])
merge-AllOutcomes_example =
    merge-AllOutcomes some_library table (same_file ∷ new_file ∷ []) (old_file ∷ []) fresh []
      table-IsTable fresh-IsMerging remotes-HaveChunks (omega arith) (in_memory refl refl)
      locals-IsListing remotes-IsListing

old_file-IsReady : IsReady table old_file
unfolding check is_file add64 sub64 check_place
old_file-IsReady = record { passes = refl; empty = λ file size. absurd (cc) }

list_remote_files-pack_entries_example :
    (final : Packing) × (written : List Entry) × (outs : List Entry) × (pack_entries table
        (old_file ∷ old_file ∷ [])
        start_packing
      ≡ some (final, written))
    × (list_remote_files (λ entry. true) final.lengths (pos 0) written
        ≡ record { sent = outs; error = none })
    × AllSamePacked table final.hashes final.lengths (old_file ∷ old_file ∷ []) outs
list_remote_files-pack_entries_example =
    list_remote_files-pack_entries table (old_file ∷ old_file ∷ []) table-IsTable (omega arith)
      (old_file-IsReady, (old_file-IsReady, tt))
