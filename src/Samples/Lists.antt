-- ===== src/Samples/Lists.antt =====
-- The theorems on entry lists, at concrete lists.
use duplicacy.Prelude.{
  ℕ, ◌≡◌, ◌↔◌, refl, [], ◌∷◌, ◌++◌, zero, suc, get_elem?, some, none, true, arith,
}
use mathlib.Core.List.{Pairwise-pair}
use mathlib.Core.List.Perm
use duplicacy.Prelude.Int.{ℤ, pos, ◌≤ℤ◌, ◌+ℤ◌}
use duplicacy.Prelude.Int64.{add64, sub64}
use duplicacy.Entry.Check.{check_place}
use duplicacy.Entry.{is_complete, is_file}
use duplicacy.EntryList.{EntryList, check_entry}
use duplicacy.EntryList.Uploads.{add_uploads, add_uploads_perm, Upload}
use duplicacy.EntryList.Fill.{fill_and_send, fill_modified, place}
use duplicacy.EntryList.Fill.Contiguous.{fill_and_send-FollowsOn, FollowsOn, IsReady}
use duplicacy.EntryList.Disk.{
  add_entry, completed, read_entries, read_memory, reset, encode_entries,
}
use duplicacy.EntryList.Disk.Contents.{
  Holds, add_entry-Holds, read_entries-Holds, in_memory, on_disk,
}
use duplicacy.EntryList.Incomplete.{
  loaded, saved_of, save_incomplete_snapshot, load_incomplete_snapshot, check_chunks,
}
use duplicacy.EntryList.Incomplete.Resumed.{
  load-save, AllPresent, AllHeld, check_chunks_iff, load-save_on_disk, load-save_in_memory,
  load-AllPresent,
}
use duplicacy.Samples.{some_file, modified_file, some_list, some_library, some_codec}

abbrev first_upload : Upload
first_upload = record { index = 1; hash = (b'x' ∷ []); size = pos 3 }

abbrev second_upload : Upload
second_upload = record { index = 0; hash = (b'y' ∷ []); size = pos 4 }

add_uploads_perm_example :
    add_uploads (first_upload ∷ second_upload ∷ []) some_list
    ≡ add_uploads (second_upload ∷ first_upload ∷ []) some_list
add_uploads_perm_example =
    add_uploads_perm (first_upload ∷ second_upload ∷ []) (second_upload ∷ first_upload ∷ [])
      some_list (Perm.swap second_upload first_upload [])
      ((Pairwise-pair (λ p q. hlevel)).1 (λ e. omega (arith, e)))

lengths_nonneg : (i : ℕ) (l : ℤ) → get_elem? (pos 4 ∷ pos 4 ∷ []) i ≡ some l → pos 0 ≤ℤ l
lengths_nonneg zero l h = ground arith
lengths_nonneg (suc zero) l h = ground arith
lengths_nonneg (suc (suc i)) l h = absurd (cc)

some_list-IsReady : IsReady some_list
some_list-IsReady = record {
  room = omega arith;
  nonneg = lengths_nonneg;
  offset_nonneg = omega arith;
}

fill_and_send-FollowsOn_example :
    FollowsOn
      (record some_list { modified_entry_index = 1 })
      (record some_list {
        modified_entry_index = 1;
        uploaded_chunk_index = 1;
        uploaded_chunk_offset = pos 3;
      })
      (record some_file { attributes = none })
unfolding fill_and_send is_complete ◌+ℤ◌ fill_modified place add64 sub64 check_entry is_file
    check_place
fill_and_send-FollowsOn_example =
    fill_and_send-FollowsOn (λ entry. true) some_list _
      (record { path = (b'd' ∷ b'/' ∷ b'a' ∷ []); size = pos 5; hash = (b'h' ∷ []) }) modified_file
      _ some_list-IsReady refl refl (omega arith, omega arith) refl

some_list-Holds : Holds some_library some_list (modified_file ∷ [])
some_list-Holds = in_memory refl refl

add_entry-Holds_example :
    Holds some_library
      (add_entry some_library some_file some_list)
      ((modified_file ∷ []) ++ completed some_library some_file ∷ [])
add_entry-Holds_example =
    add_entry-Holds some_library some_file some_list (modified_file ∷ []) some_list-Holds

abbrev stored_list : EntryList
stored_list = record some_list {
  on_disk_file = some ((b't' ∷ []) ∷ encode_entries some_library (modified_file ∷ []));
}

read_entries-Holds_example :
    read_entries some_library (λ entry. true) stored_list
    ≡ read_memory some_library
        (λ entry. true)
        (reset some_library (λ entry. true) stored_list)
        (modified_file ∷ [])
read_entries-Holds_example =
    read_entries-Holds some_library (λ entry. true) stored_list (modified_file ∷ []) (on_disk refl)
      ((omega arith, tt), tt) refl

load-save_on_disk_example :
    (l : EntryList) × (load_incomplete_snapshot some_library some_codec
        (save_incomplete_snapshot some_library some_codec stored_list)
      ≡ some l)
    × Holds some_library l (modified_file ∷ [])
    × (l.modified_entries ≡ stored_list.modified_entries)
    × (l.preserved_chunk_hashes ≡ stored_list.preserved_chunk_hashes)
load-save_on_disk_example =
    load-save_on_disk some_library some_codec stored_list (modified_file ∷ []) refl

load-save_in_memory_example :
    (l : EntryList) × (load_incomplete_snapshot some_library some_codec
        (save_incomplete_snapshot some_library some_codec some_list)
      ≡ some l)
    × Holds some_library l ((modified_file ∷ []) ++ (modified_file ∷ []))
load-save_in_memory_example = load-save_in_memory some_library some_codec some_list refl

abbrev loaded_list : EntryList
loaded_list =
    loaded some_library some_codec (saved_of some_library stored_list)
      ((b't' ∷ []) ∷ encode_entries some_library (modified_file ∷ []))

load-AllPresent_example : AllPresent loaded_list.uploaded_chunk_hashes
load-AllPresent_example =
    load-AllPresent some_library some_codec
      (save_incomplete_snapshot some_library some_codec stored_list) loaded_list
      (load-save some_library some_codec stored_list
        (encode_entries some_library (modified_file ∷ [])) refl)

check_chunks_iff_example :
    (check_chunks (λ hash. hash) (λ id. true) some_list ≡ true)
    ↔ (AllHeld (λ hash. true) ((b'x' ∷ []) ∷ (b'y' ∷ []) ∷ []) × AllHeld (λ hash. true) [])
check_chunks_iff_example = check_chunks_iff (λ hash. hash) (λ id. true) some_list
