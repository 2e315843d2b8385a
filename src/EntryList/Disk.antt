-- ===== src/EntryList/Disk.antt =====
-- The two forms of an entry list of src/duplicacy_entrylist.go, in memory and on disk: AddEntry,
-- createOnDiskFile and ReadEntries, with EncodeWithHash and DecodeEntryWithHash of
-- src/duplicacy_entry.go. The file operations themselves are taken to succeed.
pub mod Contents
use duplicacy.Prelude.{
  ℕ, zero, suc, ◌+◌, ◌-◌, ◌==◌, ltb, length, ◌≡◌, List, [], ◌∷◌, ◌++◌, Option, none, some,
  if◌then◌else◌, Bool, not, ◌&&◌, ◌||◌,
}
use duplicacy.Prelude.Bytes.{eq_text}
use duplicacy.Prelude.Int.{ℤ, pos, negsuc, ltb_ℤ}
use duplicacy.Prelude.Int64.{leb_ℤ, add64}
use duplicacy.Entry.{Text, Entry, is_dir, is_link, is_complete}
use duplicacy.Entry.Codec.{Value, encode_msgpack, decode_msgpack}
use duplicacy.EntryList.{EntryList, ModifiedEntry, DiskFile}
use duplicacy.EntryList.Fill.{FillResult, FillError, fill_and_send}

-- The msgpack library and SHA-256: values are packed to bytes and unpacked again.
pub record Library : Type 0 where
  pub pack : List Value → Text
  pub unpack : Text → Option (List Value)
  pub unpack-pack : (values : List Value) → unpack (pack values) ≡ some values
  pub sha256 : Text → Text

pub data ReadError : Type 0 where
  no_token end_of_file corrupted malformed out_of_range : ReadError
  not_filled : FillError → ReadError

-- What ReadEntries leaves: the list, the entries that went out, and the error if there was one.
pub record Reading : Type 0 where
  pub list : EntryList
  pub sent : List Entry
  pub error : Option ReadError

module _ (lib : Library) where
  abbrev pub marshal : Entry → Text
  marshal entry = lib.pack (encode_msgpack entry)

  abbrev decoded : Option (Entry × List Value) → Option Entry
  decoded none = none
  decoded (some (entry, rest)) = some entry

  abbrev pub unmarshal : Text → Option Entry
  unmarshal bytes = elim (lib.unpack bytes) [
    | none ↦ none
    | some values ↦ decoded (decode_msgpack values)
  ]

  unfoldable pub encode_with_hash : Entry → DiskFile
  encode_with_hash entry = marshal entry ∷ lib.sha256 (marshal entry) ∷ []

  unfoldable pub encode_entries : List Entry → DiskFile
  unfolding encode_with_hash
  encode_entries [] = []
  encode_entries (entry ∷ rest) = encode_with_hash entry ++ encode_entries rest

  unfoldable pub create_on_disk_file : EntryList → EntryList
  unfolding encode_entries
  create_on_disk_file list = record list {
    on_disk_file = some (list.token ∷ encode_entries list.entries);
  }

  abbrev pub counted : Entry → EntryList → EntryList
  counted entry list =
      if not (is_dir entry) && not (is_link entry)
      then record list { number_of_entries = add64 list.number_of_entries (pos 1) }
      else list

  -- An incomplete directory or link gets a size of 0; any other incomplete entry is modified.
  abbrev pub completed : Entry → Entry
  completed entry =
      if not (is_complete entry) && (is_dir entry || is_link entry)
      then record entry { size = pos 0 }
      else entry

  abbrev pub noted : Entry → EntryList → EntryList
  noted entry list =
      if not (is_complete entry) && not (is_dir entry || is_link entry)
      then record list {
        modified_entries =
            list.modified_entries ++ record { path = entry.path; size = negsuc 0; hash = [] } ∷ [];
      }
      else list

  abbrev pub spills : ℕ → EntryList → Bool
  spills count list =
      leb_ℤ (pos 0) list.maximum_in_memory_entries
      && ltb_ℤ list.maximum_in_memory_entries (pos count)

  abbrev pub keep : Entry → EntryList → EntryList
  keep entry list = record list { entries = list.entries ++ entry ∷ [] }

  abbrev pub store_in : Entry → EntryList → Option DiskFile → EntryList
  store_in entry list (some file) = record list {
    on_disk_file = some (file ++ encode_with_hash entry);
  }
  store_in entry list none =
      if spills (length (list.entries ++ entry ∷ [])) list
      then create_on_disk_file (keep entry list)
      else keep entry list

  unfoldable pub store : Entry → EntryList → EntryList
  store entry list = store_in entry list list.on_disk_file

  unfoldable pub add_entry : Entry → EntryList → EntryList
  unfolding store
  add_entry entry list = store (completed entry) (noted entry (counted entry list))

  module _ (entry_out : Entry → Bool) where
    -- One round of the loops of ReadEntries.
    unfoldable pub after_fill : EntryList × FillResult → (EntryList → Reading) → Reading
    after_fill (list, FillResult.skipped) rest = rest list
    after_fill (list, FillResult.sent entry) rest =
        let more = rest list in record more { sent = entry ∷ more.sent }
    after_fill (list, FillResult.failed e) rest = record {
      list = list;
      sent = [];
      error = some (not_filled e);
    }
    after_fill (list, FillResult.panicked) rest = record {
      list = list;
      sent = [];
      error = some out_of_range;
    }

    unfoldable pub read_memory : EntryList → List Entry → Reading
    unfolding after_fill
    read_memory list [] = record { list = list; sent = []; error = none }
    read_memory list (entry ∷ entries) =
        after_fill (fill_and_send entry_out list entry) (λ after. read_memory after entries)

    abbrev pub stopped : EntryList → ReadError → Reading
    stopped list e = record { list = list; sent = []; error = some e }

    -- DecodeEntryWithHash takes two values: the entry's bytes, and their hash.
    unfoldable pub read_disk : EntryList → DiskFile → Reading
    unfolding after_fill
    read_disk list [] = record { list = list; sent = []; error = none }
    read_disk list (bytes ∷ []) = stopped list end_of_file
    read_disk list (bytes ∷ hash ∷ rest) =
        let decode : Reading = elim (unmarshal bytes) [
          | none ↦ stopped list malformed
          | some entry ↦
              after_fill (fill_and_send entry_out list entry) (λ after. read_disk after rest)
        ] in
        if eq_text (lib.sha256 bytes) hash then decode else stopped list corrupted

    abbrev pub reset : EntryList → EntryList
    reset list = record list {
      modified_entry_index = 0;
      uploaded_chunk_index = 0;
      uploaded_chunk_offset = pos 0;
    }

    abbrev pub read_file : EntryList → DiskFile → Reading
    read_file list [] = stopped list no_token
    read_file list (token ∷ frames) = read_disk list frames

    abbrev pub read_from : EntryList → Option DiskFile → Reading
    read_from list none = read_memory (reset list) list.entries
    read_from list (some file) = read_file (reset list) file

    unfoldable pub read_entries : EntryList → Reading
    unfolding read_memory read_disk
    read_entries list = read_from list list.on_disk_file
