-- ===== src/Samples.antt =====
-- Concrete entries, lists and snapshots, for the examples and tests of the modules below.
mod Entries
mod Lists
mod Pruning
mod Handling
mod Backups
mod Chunks
use duplicacy.Prelude.{
  ℕ, zero, suc, ◌≡◌, refl, ap, List, [], ◌∷◌, ◌++◌, Option, none, some, true, false, Bool, length,
}
use duplicacy.Prelude.Int.{ℤ, pos, negsuc}
use duplicacy.Entry.{Text, Entry}
use duplicacy.Entry.Codec.{Value, int, str}
use duplicacy.EntryList.{EntryList, create_entry_list, ModifiedEntry}
use duplicacy.EntryList.Disk.{Library}
use duplicacy.EntryList.Incomplete.{SavedList, StructCodec}
use duplicacy.Prune.{Snapshot}

-- A file of 5 bytes, from byte 2 of the first chunk to byte 3 of the second.
abbrev pub some_file : Entry
some_file = record {
  path = (b'd' ∷ b'/' ∷ b'a' ∷ []);
  size = pos 5;
  time = pos 100;
  mode = 420;
  link = [];
  hash = (b'h' ∷ []);
  uid = pos 0;
  gid = pos 0;
  start_chunk = pos 0;
  start_offset = pos 2;
  end_chunk = pos 1;
  end_offset = pos 3;
  attributes = some (((b'b' ∷ []), (b'1' ∷ [])) ∷ ((b'a' ∷ []), (b'2' ∷ [])) ∷ []);
}

abbrev pub modified_file : Entry
modified_file = record some_file { size = negsuc 0; attributes = none }

-- Two chunks are uploaded, and one file of 5 bytes is modified.
abbrev pub some_list : EntryList
some_list = record (create_entry_list (b't' ∷ []) (pos 10)) {
  entries = modified_file ∷ [];
  modified_entries =
      record { path = (b'd' ∷ b'/' ∷ b'a' ∷ []); size = pos 5; hash = (b'h' ∷ []) } ∷ [];
  uploaded_chunk_hashes = (b'x' ∷ []) ∷ (b'y' ∷ []) ∷ [];
  uploaded_chunk_lengths = pos 4 ∷ pos 4 ∷ [];
  uploaded_chunk_offset = pos 2;
}

-- A plain form of the values: a tag, then the number, or the bytes, each a step up, and a 0.
abbrev put_text : Text → Text → Text
put_text [] rest = 0 ∷ rest
put_text (c ∷ cs) rest = suc c ∷ put_text cs rest

abbrev put_values : List Value → Text
put_values [] = []
put_values (int (pos n) ∷ rest) = 0 ∷ n ∷ put_values rest
put_values (int (negsuc n) ∷ rest) = 1 ∷ n ∷ put_values rest
put_values (str s ∷ rest) = 2 ∷ put_text s (put_values rest)

abbrev prepend_value : Value → Option (List Value) → Option (List Value)
prepend_value v none = none
prepend_value v (some vs) = some (v ∷ vs)

abbrev prepend_byte : ℕ → Option (List Value) → Option (List Value)
prepend_byte c none = none
prepend_byte c (some []) = none
prepend_byte c (some (int n ∷ vs)) = none
prepend_byte c (some (str s ∷ vs)) = some (str (c ∷ s) ∷ vs)

-- `true` inside a text.
abbrev read_values : Bool → Text → Option (List Value)
read_values false [] = some []
read_values false (zero ∷ []) = none
read_values false (zero ∷ n ∷ rest) = prepend_value (int (pos n)) (read_values false rest)
read_values false (suc zero ∷ []) = none
read_values false (suc zero ∷ n ∷ rest) = prepend_value (int (negsuc n)) (read_values false rest)
read_values false (suc (suc k) ∷ rest) = read_values true rest
read_values true [] = none
read_values true (zero ∷ rest) = prepend_value (str []) (read_values false rest)
read_values true (suc c ∷ rest) = prepend_byte c (read_values true rest)

pub read_values-put_text :
    (s rest : Text) (vs : List Value)
    → read_values false rest ≡ some vs
    → read_values true (put_text s rest) ≡ some (str s ∷ vs)
read_values-put_text [] rest vs h = ap (prepend_value (str [])) h
read_values-put_text (c ∷ cs) rest vs h = ap (prepend_byte c) (read_values-put_text cs rest vs h)

pub read_values-put_values : (vs : List Value) → read_values false (put_values vs) ≡ some vs
read_values-put_values [] = refl
read_values-put_values (int (pos n) ∷ rest) =
    ap (prepend_value (int (pos n))) (read_values-put_values rest)
read_values-put_values (int (negsuc n) ∷ rest) =
    ap (prepend_value (int (negsuc n))) (read_values-put_values rest)
read_values-put_values (str s ∷ rest) =
    read_values-put_text s (put_values rest) rest (read_values-put_values rest)

-- The hash is the first byte.
abbrev first_byte : Text → Text
first_byte [] = []
first_byte (c ∷ cs) = c ∷ []

abbrev pub some_library : Library
some_library = record {
  pack = put_values;
  unpack = read_values false;
  unpack-pack = read_values-put_values;
  sha256 = first_byte;
}

abbrev pub some_codec : StructCodec SavedList
some_codec = record {
  encode = λ saved. saved;
  decode = λ saved. some saved;
  decode-encode = λ saved. refl;
}

abbrev pub snapshot : Text → ℤ → ℤ → List Text → Bool → Snapshot
snapshot id revision time hashes flag = record {
  id = id;
  revision = revision;
  tag = (b'd' ∷ b'a' ∷ b'y' ∷ []);
  start_time = time;
  end_time = time;
  file_sequence = (b'f' ∷ []) ∷ [];
  chunk_sequence = hashes;
  length_sequence = (b'l' ∷ []) ∷ [];
  chunk_hashes = [];
  flag = flag;
}

abbrev pub old_snapshot : Snapshot
old_snapshot =
    snapshot (b'r' ∷ b'@' ∷ b'h' ∷ []) (pos 1) (pos 1000) ((b'o' ∷ []) ∷ (b'm' ∷ []) ∷ []) true

abbrev pub new_snapshot : Snapshot
new_snapshot =
    snapshot (b'r' ∷ b'@' ∷ b'h' ∷ []) (pos 2) (pos 200000) ((b'm' ∷ []) ∷ (b'n' ∷ []) ∷ []) false
