-- ===== src/Backup/Metadata.antt =====
-- UploadSnapshot of src/duplicacy_backupmanager.go, which writes the entries of a new snapshot with
-- the chunks that they use, and ListRemoteFiles of src/duplicacy_snapshot.go, which reads them. An
-- entry names its first chunk relative to the last chunk of the file before, and its last chunk
-- relative to its first.
pub mod Packed
pub mod Offsets
pub mod Steps
pub mod Listed
use mathlib.Core.Option
use duplicacy.Prelude.{
  ℕ, zero, suc, length, List, [], ◌∷◌, ◌++◌, Option, none, some, Bool, not, ◌&&◌, if◌then◌else◌,
}
use duplicacy.Prelude.Int.{ℤ, pos, negsuc, pos_part, ltb_ℤ, ◌-ℤ◌}
use duplicacy.Prelude.Int64.{◌==ℤ◌, add64, sub64}
use duplicacy.Entry.{Text, Entry, is_file}
use duplicacy.Entry.Check.{Verdict, accepted, panicked, rejected, check}
use duplicacy.Backup.{ChunkTable, chunk_at}

-- `chunkHashes`, `chunkLengths`, `lastChunk` and `lastEndChunk`.
pub record Packing : Type 0 where
  pub hashes : List Text
  pub lengths : List ℤ
  pub last_chunk : ℤ
  pub last_end_chunk : ℤ

abbrev pub start_packing : Packing
start_packing = record { hashes = []; lengths = []; last_chunk = negsuc 0; last_end_chunk = pos 0 }

-- `table` is the list of chunks of the snapshot, preserved and uploaded.
module _ (table : ChunkTable) where
  unfoldable pub append_chunk : ℤ → Packing → Option Packing
  append_chunk i p = elim (chunk_at table i) [
    | none ↦ none
    | some (hash, size) ↦
        some (record p { hashes = p.hashes ++ hash ∷ []; lengths = p.lengths ++ size ∷ [] })
  ]

  unfoldable pub append_chunks : ℕ → ℤ → Packing → Option Packing
  unfolding append_chunk add64
  append_chunks zero i p = some p
  append_chunks (suc rounds) i p = elim (append_chunk i p) [
    | none ↦ none
    | some q ↦ append_chunks rounds (add64 i (pos 1)) q
  ]

  -- The first chunk, with `delta`.
  unfoldable pub first_packed : Packing → ℤ → Option (Packing × ℤ)
  unfolding append_chunk add64 sub64
  first_packed p start =
      let delta = add64 (sub64 start (pos (length p.hashes))) (pos 1) in
      let appended =
        Option.map (λ (q : Packing). (q, sub64 delta (pos 1))) (append_chunk start p) in
      if not (start ==ℤ p.last_chunk) then appended else some (p, delta)

  unfoldable pub pack_chunks : Packing → ℤ → ℤ → Option (Packing × ℤ)
  unfolding first_packed append_chunks
  pack_chunks p start end = elim (first_packed p start) [
    | none ↦ none
    | some (q, delta) ↦
        Option.map (λ (r : Packing). (r, delta))
          (append_chunks (pos_part (end -ℤ start)) (add64 start (pos 1)) q)
  ]

  -- The chunks `start` and `end` in the new list, and relative to the file before.
  abbrev pub relative : Packing → Entry → ℤ → ℤ → Packing × Entry
  relative p entry start end = (
    record p { last_chunk = entry.end_chunk; last_end_chunk = end },
    record entry { start_chunk = sub64 start p.last_end_chunk; end_chunk = sub64 end start },
  )

  abbrev pub packed : Entry → Option (Packing × ℤ) → Option (Packing × Entry)
  packed entry none = none
  packed entry (some (p, delta)) =
      some (relative p entry (sub64 entry.start_chunk delta) (sub64 entry.end_chunk delta))

  -- `uploadEntryInfoFunc`; `none` is an index out of range.
  unfoldable pub pack_entry : Packing → Entry → Option (Packing × Entry)
  unfolding pack_chunks is_file
  pack_entry p entry =
      if is_file entry && ltb_ℤ (pos 0) entry.size
      then packed entry (pack_chunks p entry.start_chunk entry.end_chunk)
      else some (p, entry)

  abbrev pub and_then :
      Option (Packing × Entry)
      → (Packing → Option (Packing × List Entry))
      → Option (Packing × List Entry)
  and_then none rest = none
  and_then (some (p, entry)) rest =
      Option.map (λ (r : Packing × List Entry). (r.0, entry ∷ r.1)) (rest p)

  unfoldable pub pack_entries : List Entry → Packing → Option (Packing × List Entry)
  unfolding pack_entry
  pack_entries [] p = some (p, [])
  pack_entries (entry ∷ rest) p = and_then (pack_entry p entry) (λ q. pack_entries rest q)

-- The entry with its own chunks, from the one that was read, and `lastEndChunk` after it.
unfoldable pub absolute : ℤ → Entry → Entry × ℤ
unfolding is_file add64
absolute last entry =
    let start = add64 entry.start_chunk last in
    let end = add64 entry.end_chunk start in
    if is_file entry
    then (record entry { start_chunk = start; end_chunk = end }, end)
    else (entry, last)

-- What ListRemoteFiles hands to `entryOut`, and the error that ends it, if there is one.
pub record Listing : Type 0 where
  pub sent : List Entry
  pub error : Option Verdict

module _ (entry_out : Entry → Bool) (lengths : List ℤ) where
  abbrev pub send : Entry → Verdict → Listing → Listing
  send entry accepted more =
      if entry_out entry
      then record more { sent = entry ∷ more.sent }
      else record { sent = entry ∷ []; error = none }
  send entry panicked more = record { sent = []; error = some panicked }
  send entry (rejected e) more = record { sent = []; error = some (rejected e) }

  -- The loop over the entries that the msgpack decoder yields, for a snapshot of version 1; the
  -- decoder is the one of Entry/Codec.
  unfoldable pub list_remote_files : ℤ → List Entry → Listing
  unfolding absolute check
  list_remote_files last [] = record { sent = []; error = none }
  list_remote_files last (entry ∷ rest) =
      let (read, last') = absolute last entry in
      send read (check lengths read) (list_remote_files last' rest)
