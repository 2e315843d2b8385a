-- ===== src/EntryList/Fill.antt =====
-- fillAndSendEntry of src/duplicacy_entrylist.go: the place of a file in the uploaded chunks.
pub mod Tiling
pub mod Contiguous
use duplicacy.Prelude.{
  ℕ, zero, suc, ◌+◌, ◌-◌, ◌==◌, ltb, leb, length, get_elem?, drop, List, [], ◌∷◌, ◌++◌, Option,
  none, some, if◌then◌else◌, Bool, not, ◌&&◌, ◌||◌,
}
use duplicacy.Prelude.Bytes.{eq_text}
use duplicacy.Prelude.Int.{ℤ, pos, negsuc, ltb_ℤ}
use duplicacy.Prelude.Int64.{leb_ℤ, add64, sub64, ◌==ℤ◌}
use duplicacy.Entry.{Text, Entry, is_complete}
use duplicacy.Entry.Check.{Verdict, CheckError}
use duplicacy.EntryList.{EntryList, ModifiedEntry, check_entry}

-- `refused` stands for the error that `entryOut` returned.
pub data FillError : Type 0 where
  unexpected_index unexpected_path not_uploaded refused : FillError
  invalid : CheckError → FillError

-- `panicked` is an index out of range.
pub data FillResult : Type 0 where
  skipped panicked : FillResult
  sent : Entry → FillResult
  failed : FillError → FillResult

-- The variables of the loop over the uploaded chunks.
pub record Cursor : Type 0 where
  pub chunk_index : ℕ
  pub end_chunk : ℤ
  pub end_offset : ℤ

abbrev pub next_chunk : ℤ → Cursor → Cursor
next_chunk l c = record {
  chunk_index = c.chunk_index + 1;
  end_chunk = add64 c.end_chunk (pos 1);
  end_offset = sub64 c.end_offset l;
}

-- The loop, over the lengths from `uploadedChunkIndex` on.
unfoldable pub consume : List ℤ → Cursor → Cursor
consume [] c = c
consume (l ∷ rest) c = if ltb_ℤ l c.end_offset then consume rest (next_chunk l c) else c

-- The position after the file.
abbrev pub moved : Cursor → ℤ → EntryList → EntryList
moved c l list =
    if c.end_offset ==ℤ l
    then record list { uploaded_chunk_index = c.chunk_index + 1; uploaded_chunk_offset = pos 0 }
    else record list { uploaded_chunk_index = c.chunk_index; uploaded_chunk_offset = c.end_offset }

module _ (entry_out : Entry → Bool) where
  abbrev pub out : Verdict → Entry → FillResult
  out Verdict.accepted entry = if entry_out entry then sent entry else failed refused
  out Verdict.panicked entry = panicked
  out (Verdict.rejected e) entry = failed (invalid e)

  -- The part that follows the tests, for an entry with the size and hash of the modified one.
  unfoldable pub place : EntryList → Entry → EntryList × FillResult
  unfolding consume
  place list entry =
      let start_chunk = pos (list.uploaded_chunk_index + length list.preserved_chunk_hashes) in
      let c = consume (drop list.uploaded_chunk_index list.uploaded_chunk_lengths) (record {
        chunk_index = list.uploaded_chunk_index;
        end_chunk = start_chunk;
        end_offset = add64 list.uploaded_chunk_offset entry.size;
      }) in
      let placed = record entry {
        start_chunk = start_chunk;
        start_offset = list.uploaded_chunk_offset;
        end_chunk = c.end_chunk;
        end_offset = c.end_offset;
      } in
      elim (get_elem? list.uploaded_chunk_lengths c.chunk_index) [
        | none ↦ (record list { uploaded_chunk_index = c.chunk_index }, failed not_uploaded)
        | some l ↦ (moved c l list, out (check_entry (moved c l list) placed) placed)
      ]

  unfoldable pub fill_modified : EntryList → ModifiedEntry → Entry → EntryList × FillResult
  unfolding eq_text
  fill_modified list m entry =
      if not (eq_text m.path entry.path)
      then (list, failed unexpected_path)
      else if leb_ℤ m.size (pos 0)
      then (list, skipped)
      else place list (record entry { size = m.size; hash = m.hash })

  unfoldable pub fill_and_send : EntryList → Entry → EntryList × FillResult
  fill_and_send list entry =
      if is_complete entry
      then (list, out (check_entry list entry) entry)
      else elim (get_elem? list.modified_entries list.modified_entry_index) [
        | none ↦ (list, failed unexpected_index)
        | some m ↦
            fill_modified (record list { modified_entry_index = list.modified_entry_index + 1 }) m
              entry
      ]
