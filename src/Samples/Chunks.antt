-- ===== src/Samples/Chunks.antt =====
-- The theorems on the chunk maker, at concrete files.
use duplicacy.Prelude.{
  ℕ, ◌%◌, leb, leb→le, length, take, drop, take-append-drop, length-take, replicate, ◌≡◌, refl,
  List, [], ◌∷◌, ◌++◌, Option, some, none, false, inl, inr, arith, Bool-cases, if◌then◌else◌,
}
use duplicacy.ChunkMaker.{Settings, ChunkMaker}
use duplicacy.ChunkMaker.Cuts.{IsSound, IsMaker, pending, flatten}
use duplicacy.ChunkMaker.AddData.{flush}
use duplicacy.ChunkMaker.Flush.{flush-AreChunks}
use duplicacy.ChunkMaker.Flushed.{AreChunks}
use duplicacy.ChunkMaker.Reader.{Answer, got, got_last, start_reading}
use duplicacy.ChunkMaker.Fixed.{add_data}
use duplicacy.ChunkMaker.Fixed.Sizes.{AddedFixed}
use duplicacy.ChunkMaker.Fixed.Chunks.{add_data-AddedFixed}
use duplicacy.ChunkMaker.Reads.{IsReader, gets, gets_last}
use duplicacy.ChunkMaker.Files.{AddedAll, add_data-AddedAll}
use duplicacy.ChunkMaker.Create.{Config, create_file_chunk_maker}
use duplicacy.ChunkMaker.Created.{Creation, create_file_chunk_maker-Creation}
use duplicacy.Backup.Upload.{Uploading, upload_files}
use duplicacy.Prelude.Int.{pos}
use duplicacy.Prelude.Bytes.{eq_text}
use mathlib.Core.List.{Perm}
use mathlib.Core.List.Perm
use duplicacy.EntryList.{EntryList, create_entry_list}
use duplicacy.EntryList.Uploads.{Upload, add_uploads}
use duplicacy.Backup.Upload.Cache.{Arrival, Sending, send_chunks, is_in_cache}
use duplicacy.Backup.Upload.Recorded.{
  send_chunks-table, hashes_of, lengths_of, AllAvailable, ids_of,
}
use duplicacy.Backup.Upload.Stored.{AreStored, upload_files-AreStored}

-- Chunks of 2 to 5 bytes.
abbrev small : Settings
small = record {
  maximum_chunk_size = 5;
  minimum_chunk_size = 2;
  buffer_capacity = 4;
  hash_mask = 3;
  random_table = λ byte. byte % 256;
}

small-IsSound : IsSound small
small-IsSound = record { some_minimum = omega arith; below_maximum = omega arith; twice = refl }

abbrev empty_maker : ChunkMaker
empty_maker = record {
  buffer = replicate 4 0;
  buffer_size = 0;
  buffer_start = 0;
  minimum_reached = false;
  hash_sum = 0;
  chunk = [];
}

empty_maker-IsMaker : IsMaker small empty_maker
empty_maker-IsMaker = record {
  is_buffer = record { room = refl; start_in = omega arith; size_in = omega arith };
  fresh = λ e. refl;
  enough = λ e. absurd (cc);
  not_full = λ e. absurd (cc);
}

-- A maker with three bytes in its buffer, which go round.
abbrev full_maker : ChunkMaker
full_maker = record empty_maker { buffer = 3 ∷ 0 ∷ 1 ∷ 2 ∷ []; buffer_size = 3; buffer_start = 2 }

full_maker-IsMaker : IsMaker small full_maker
full_maker-IsMaker = record {
  is_buffer = record { room = refl; start_in = omega arith; size_in = omega arith };
  fresh = λ e. refl;
  enough = λ e. absurd (cc);
  not_full = λ e. absurd (cc);
}

-- A reader of bytes that are in memory, as many of them as there is room for.
abbrev read_list : List ℕ → ℕ → Answer (List ℕ)
read_list bytes room =
    if leb (length bytes) room then got_last bytes [] else got (take room bytes) (drop room bytes)

abbrev all_of : List ℕ → List ℕ
all_of bytes = bytes

read_list-IsReader : IsReader read_list all_of
read_list-IsReader reader room some_room = elim (Bool-cases (leb (length reader) room)) [
  | inl e ↦ rw e (gets_last reader [] (leb→le _ _ e) refl)
  | inr e ↦ rw e (
      gets (take room reader) (drop room reader) (ground (arith, length-take room reader))
        (ground (arith, length-take room reader)) (take-append-drop room reader))
]

abbrev some_bytes : List ℕ
some_bytes = 1 ∷ 2 ∷ 3 ∷ 5 ∷ 7 ∷ 6 ∷ 9 ∷ 8 ∷ 4 ∷ []

-- A file, one that could not be opened, and another file.
abbrev some_files : List (Option (List ℕ))
some_files = some some_bytes ∷ none ∷ some (7 ∷ 6 ∷ []) ∷ []

flush-AreChunks_example :
    (after : ChunkMaker) × (sent : List (List ℕ)) × (flush small 4 full_maker ≡ some (after, sent))
    × (flatten sent ≡ pending full_maker)
    × AreChunks small sent
flush-AreChunks_example =
    flush-AreChunks small small-IsSound 4 full_maker full_maker-IsMaker (omega arith)

add_data-AddedAll_example :
    AddedAll small read_list all_of
      (start_reading some_bytes full_maker)
      (add_data small read_list 15 some_bytes full_maker)
add_data-AddedAll_example =
    add_data-AddedAll small read_list all_of 15 some_bytes full_maker small-IsSound
      read_list-IsReader full_maker-IsMaker (omega arith)

upload_files-AreStored_example :
    (uploading : Uploading) × (stored : List ℕ) × (upload_files small read_list 20 some_files
        empty_maker
      ≡ some uploading)
    × (flatten uploading.chunks ≡ pending empty_maker ++ stored)
    × AreStored read_list all_of some_files uploading.results stored
    × AreChunks small uploading.chunks
upload_files-AreStored_example =
    upload_files-AreStored read_list all_of small small-IsSound read_list-IsReader 20 some_files
      empty_maker empty_maker-IsMaker (omega arith)

-- The chunks of the files, by evaluation.
abbrev chunks_of : Option Uploading → List (List ℕ)
chunks_of none = []
chunks_of (some uploading) = uploading.chunks

upload_files_test :
    chunks_of (upload_files small read_list 20 some_files empty_maker)
    ≡ (1 ∷ 2 ∷ []) ∷ (3 ∷ 5 ∷ 7 ∷ 6 ∷ []) ∷ (9 ∷ 8 ∷ 4 ∷ []) ∷ (7 ∷ 6 ∷ []) ∷ []
unfolding upload_files
upload_files_test = refl

abbrev some_config : Config
some_config = record {
  average_chunk_size = 8;
  maximum_chunk_size = 20;
  minimum_chunk_size = 3;
  chunk_seed = b'a' ∷ [];
}

abbrev same_bytes : List ℕ → List ℕ
same_bytes bytes = bytes

create_file_chunk_maker-Creation_example :
    Creation 8 (create_file_chunk_maker same_bytes some_config)
create_file_chunk_maker-Creation_example =
    create_file_chunk_maker-Creation same_bytes some_config (omega arith) (omega arith)

-- Chunks of two bytes.
abbrev two_bytes : Settings
two_bytes = record small { maximum_chunk_size = 2 }

add_data-AddedFixed_example :
    AddedFixed two_bytes read_list all_of
      (start_reading some_bytes empty_maker)
      (add_data two_bytes read_list 12 some_bytes empty_maker)
add_data-AddedFixed_example =
    add_data-AddedFixed two_bytes read_list all_of (omega arith) 12 some_bytes empty_maker refl
      read_list-IsReader (omega arith) (omega arith)

-- Two chunks, of which the first is in the cache, and which are reported in the other order.
abbrev two_arrivals : List Arrival
two_arrivals =
    record { chunk = 1 ∷ 2 ∷ []; asked_at = pos 5; sent_at = pos 5 }
    ∷ record { chunk = 3 ∷ []; asked_at = pos 6; sent_at = pos 7 }
    ∷ []

abbrev some_sending : Sending
some_sending = record { cache = (1 ∷ 2 ∷ []) ∷ []; last_uploading_time = pos 4; next_index = 0 }

abbrev empty_list : EntryList
empty_list = create_entry_list (b't' ∷ []) (pos 10)

abbrev first_report : Upload
first_report = record { index = 0; hash = 1 ∷ 2 ∷ []; size = pos 2 }

abbrev second_report : Upload
second_report = record { index = 1; hash = 3 ∷ []; size = pos 1 }

reports_swapped :
    Perm
      (send_chunks same_bytes same_bytes (pos 1800) two_arrivals some_sending).reports
      (second_report ∷ first_report ∷ [])
unfolding send_chunks is_in_cache eq_text
reports_swapped = Perm.swap second_report first_report []

send_chunks-table_example :
    ((add_uploads (second_report ∷ first_report ∷ []) empty_list).uploaded_chunk_hashes
      ≡ hashes_of same_bytes two_arrivals)
    × ((add_uploads (second_report ∷ first_report ∷ []) empty_list).uploaded_chunk_lengths
        ≡ lengths_of two_arrivals)
    × AllAvailable same_bytes some_sending.cache
        (ids_of same_bytes
          (send_chunks same_bytes same_bytes (pos 1800) two_arrivals some_sending).uploaded)
        two_arrivals
send_chunks-table_example =
    send_chunks-table same_bytes same_bytes (pos 1800) two_arrivals some_sending empty_list
      (second_report ∷ first_report ∷ []) refl refl refl reports_swapped
