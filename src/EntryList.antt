-- ===== src/EntryList.antt =====
-- src/duplicacy_entrylist.go: the entries of a backup in progress, and the chunks that hold them.
pub mod Uploads
pub mod Fill
pub mod Disk
pub mod Incomplete
use duplicacy.Prelude.{
  ℕ, zero, suc, ◌+◌, ◌-◌, ◌==◌, ltb, leb, length, get_elem?, set, List, [], ◌∷◌, ◌++◌, Option, none,
  some, if◌then◌else◌, Bool, not, ◌&&◌, ◌||◌,
}
use duplicacy.Prelude.Int.{ℤ, pos, negsuc, ltb_ℤ}
use duplicacy.Prelude.Int64.{leb_ℤ, add64}
use duplicacy.Entry.{Text, Entry, is_file, is_dir, is_link, is_complete}
use duplicacy.Entry.Check.{Verdict, check_with}

pub record ModifiedEntry : Type 0 where
  pub path : Text
  pub size : ℤ
  pub hash : Text

-- The on-disk file: its values, as the decoder reads them one by one.
abbrev pub DiskFile : Type 0
DiskFile = List Text

pub record EntryList : Type 0 where
  pub on_disk_file : Option DiskFile
  pub entries : List Entry
  pub token : Text
  pub modified_entries : List ModifiedEntry
  pub uploaded_chunk_hashes : List Text
  pub uploaded_chunk_lengths : List ℤ
  pub preserved_chunk_hashes : List Text
  pub preserved_chunk_lengths : List ℤ
  pub maximum_in_memory_entries : ℤ
  pub number_of_entries : ℤ
  pub modified_entry_index : ℕ
  pub uploaded_chunk_index : ℕ
  pub uploaded_chunk_offset : ℤ

-- The result of CreateEntryList, for the random token that was read.
abbrev pub create_entry_list : Text → ℤ → EntryList
create_entry_list token maximum = record {
  on_disk_file = none;
  entries = [];
  token = token;
  modified_entries = [];
  uploaded_chunk_hashes = [];
  uploaded_chunk_lengths = [];
  preserved_chunk_hashes = [];
  preserved_chunk_lengths = [];
  maximum_in_memory_entries = maximum;
  number_of_entries = pos 0;
  modified_entry_index = 0;
  uploaded_chunk_index = 0;
  uploaded_chunk_offset = pos 0;
}

unfoldable pub add_preserved_chunk : Text → ℤ → EntryList → EntryList
add_preserved_chunk hash size l = record l {
  preserved_chunk_hashes = l.preserved_chunk_hashes ++ hash ∷ [];
  preserved_chunk_lengths = l.preserved_chunk_lengths ++ size ∷ [];
}

-- `for len(list) <= index { list = append(list, blank) }`, for the rounds that this takes.
pad {ℓ} : {A : Type ℓ} → A → ℕ → List A → List A
pad blank zero xs = xs
pad blank (suc rounds) xs = pad blank rounds (xs ++ blank ∷ [])

unfoldable pub put_at {ℓ} : {A : Type ℓ} → A → ℕ → A → List A → List A
unfolding pad
put_at blank index v xs = set (pad blank (index + 1 - length xs) xs) index v

unfoldable pub add_uploaded_chunk : ℕ → Text → ℤ → EntryList → EntryList
add_uploaded_chunk index hash size l = record l {
  uploaded_chunk_hashes = put_at [] index hash l.uploaded_chunk_hashes;
  uploaded_chunk_lengths = put_at (pos 0) index size l.uploaded_chunk_lengths;
}

-- `none` is an index out of range.
unfoldable pub get_chunk_length : EntryList → ℕ → Option ℤ
get_chunk_length l index =
    let preserved = length l.preserved_chunk_lengths in
    if ltb index preserved
    then get_elem? l.preserved_chunk_lengths index
    else get_elem? l.uploaded_chunk_lengths (index - preserved)

unfoldable pub check_entry : EntryList → Entry → Verdict
unfolding check_with get_chunk_length
check_entry l entry =
    check_with (get_chunk_length l)
      (length l.preserved_chunk_lengths + length l.uploaded_chunk_lengths) entry
