-- ===== src/EntryList/Incomplete.antt =====
-- The incomplete snapshot of src/duplicacy_entrylist.go, which a backup that was cut off leaves for
-- the next one: SaveIncompleteSnapshot, loadIncompleteSnapshot, CalculateChecksum and CheckChunks.
-- The file operations themselves are taken to succeed.
pub mod Resumed
use duplicacy.Prelude.{
  ℕ, zero, suc, ◌/◌, ◌%◌, ltb, ◌+◌, take, ◌≡◌, List, [], ◌∷◌, ◌++◌, map, Option, none, some,
  if◌then◌else◌, Bool, true, false, ◌&&◌,
}
use duplicacy.Prelude.Bytes.{eq_text}
use duplicacy.Prelude.Int.{ℤ, pos}
use duplicacy.Prelude.Int64.{residue}
use duplicacy.Entry.{Text, Entry}
use duplicacy.EntryList.{EntryList, ModifiedEntry, DiskFile}
use duplicacy.EntryList.Disk.{Library, encode_entries, create_on_disk_file}

-- The exported fields, which msgpack writes of an EntryList; the snapshot id is left out.
pub record SavedList : Type 0 where
  pub token : Text
  pub modified_entries : List ModifiedEntry
  pub uploaded_chunk_hashes : List Text
  pub uploaded_chunk_lengths : List ℤ
  pub preserved_chunk_hashes : List Text
  pub preserved_chunk_lengths : List ℤ
  pub checksum : Text
  pub number_of_entries : ℤ

-- The msgpack library on that struct, for the type of what it writes.
pub record StructCodec (Encoded : Type 0) : Type 0 where
  pub encode : SavedList → Encoded
  pub decode : Encoded → Option SavedList
  pub decode-encode : (saved : SavedList) → decode (encode saved) ≡ some saved

-- The files `incomplete_snapshot` and `incomplete_chunks` of the cache directory.
pub record Cache (Encoded : Type 0) : Type 0 where
  pub incomplete_snapshot : Option DiskFile
  pub incomplete_chunks : Option Encoded

-- binary.LittleEndian.PutUint64, on as many bytes as are asked for.
unfoldable pub little_endian : ℕ → ℕ → Text
little_endian zero n = []
little_endian (suc bytes) n = n % 256 ∷ little_endian bytes (n / 256)

unfoldable pub put_uint64 : ℤ → Text
unfolding little_endian residue
put_uint64 n = little_endian 8 (residue n)

-- hex.EncodeToString.
unfoldable pub hex_digit : ℕ → ℕ
hex_digit n = if ltb n 10 then 48 + n else 87 + n

unfoldable pub hex_encode : Text → Text
unfolding hex_digit
hex_encode [] = []
hex_encode (byte ∷ rest) = hex_digit (byte / 16) ∷ hex_digit (byte % 16) ∷ hex_encode rest

unfoldable pub concat : List Text → Text
concat [] = []
concat (text ∷ rest) = text ++ concat rest

-- The index of the first empty hash: a chunk that was not uploaded.
unfoldable pub first_empty : List Text → Option ℕ
first_empty [] = none
first_empty ([] ∷ rest) = some 0
first_empty ((c ∷ cs) ∷ rest) = elim (first_empty rest) [ none ↦ none | some i ↦ some (suc i) ]

abbrev pub cut {ℓ} : {A : Type ℓ} → Option ℕ → List A → List A
cut none xs = xs
cut (some i) xs = take i xs

-- `CheckChunks`, for the ids that the hashes have and the ids that the storage holds.
unfoldable pub all_in : (Text → Bool) → List Text → Bool
all_in held [] = true
all_in held (hash ∷ rest) = if held hash then all_in held rest else false

unfoldable pub check_chunks : (Text → Text) → (Text → Bool) → EntryList → Bool
unfolding all_in
check_chunks chunk_id cached list =
    all_in (λ hash. cached (chunk_id hash)) list.uploaded_chunk_hashes
    && all_in (λ hash. cached (chunk_id hash)) list.preserved_chunk_hashes

module _ (lib : Library) where
  unfoldable pub calculate_checksum :
      List Text → List ℤ → List Text → List ℤ → List ModifiedEntry → Text
  unfolding concat hex_encode put_uint64
  calculate_checksum uploaded uploaded_lengths preserved preserved_lengths modified = hex_encode (
      lib.sha256 (
        concat uploaded
        ++ concat (map put_uint64 uploaded_lengths)
        ++ concat preserved
        ++ concat (map put_uint64 preserved_lengths)
        ++ concat (map (λ (m : ModifiedEntry). put_uint64 m.size ++ m.hash) modified)))

  abbrev pub checksum_of : SavedList → Text
  checksum_of saved =
      calculate_checksum saved.uploaded_chunk_hashes saved.uploaded_chunk_lengths
        saved.preserved_chunk_hashes saved.preserved_chunk_lengths saved.modified_entries

  abbrev pub saved_of : EntryList → SavedList
  saved_of list = record {
    token = list.token;
    modified_entries = list.modified_entries;
    uploaded_chunk_hashes = list.uploaded_chunk_hashes;
    uploaded_chunk_lengths = list.uploaded_chunk_lengths;
    preserved_chunk_hashes = list.preserved_chunk_hashes;
    preserved_chunk_lengths = list.preserved_chunk_lengths;
    checksum =
        calculate_checksum list.uploaded_chunk_hashes list.uploaded_chunk_lengths
          list.preserved_chunk_hashes list.preserved_chunk_lengths list.modified_entries;
    number_of_entries = list.number_of_entries;
  }

  abbrev pub written : List Entry → Option DiskFile → Option DiskFile
  written entries none = none
  written entries (some file) = some (file ++ encode_entries lib entries)

  -- A list in memory is written by createOnDiskFile, and its entries once more by the loop.
  abbrev pub flushed : EntryList → Option DiskFile → Option DiskFile
  flushed list (some file) = some file
  flushed list none =
      let created = create_on_disk_file lib list in written created.entries created.on_disk_file

  module _ {Encoded : Type 0} (codec : StructCodec Encoded) where
    unfoldable pub save_incomplete_snapshot : EntryList → Cache Encoded
    unfolding create_on_disk_file calculate_checksum
    save_incomplete_snapshot list = record {
      incomplete_snapshot = flushed list list.on_disk_file;
      incomplete_chunks = some (codec.encode (saved_of list));
    }

    abbrev pub loaded : SavedList → DiskFile → EntryList
    loaded saved file = record {
      on_disk_file = some file;
      entries = [];
      token = saved.token;
      modified_entries = saved.modified_entries;
      uploaded_chunk_hashes =
          cut (first_empty saved.uploaded_chunk_hashes) saved.uploaded_chunk_hashes;
      uploaded_chunk_lengths =
          cut (first_empty saved.uploaded_chunk_hashes) saved.uploaded_chunk_lengths;
      preserved_chunk_hashes = saved.preserved_chunk_hashes;
      preserved_chunk_lengths = saved.preserved_chunk_lengths;
      maximum_in_memory_entries = pos 0;
      number_of_entries = saved.number_of_entries;
      modified_entry_index = 0;
      uploaded_chunk_index = 0;
      uploaded_chunk_offset = pos 0;
    }

    abbrev pub load_file : SavedList → DiskFile → Option EntryList
    load_file saved [] = none
    load_file saved (token ∷ frames) =
        if eq_text token saved.token then some (loaded saved (token ∷ frames)) else none

    abbrev pub load_checked : DiskFile → Option SavedList → Option EntryList
    load_checked file none = none
    load_checked file (some saved) =
        if eq_text (checksum_of saved) saved.checksum then load_file saved file else none

    abbrev pub load_from : Option DiskFile → Option Encoded → Option EntryList
    load_from none chunks = none
    load_from (some file) none = none
    load_from (some file) (some chunks) = load_checked file (codec.decode chunks)

    unfoldable pub load_incomplete_snapshot : Cache Encoded → Option EntryList
    unfolding calculate_checksum first_empty
    load_incomplete_snapshot cache = load_from cache.incomplete_snapshot cache.incomplete_chunks
