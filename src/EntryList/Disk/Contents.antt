-- ===== src/EntryList/Disk/Contents.antt =====
-- An entry list that has spilled to disk holds, and hands out, what one in memory does.
use duplicacy.Prelude.{
  ◌^◌, ◌<◌, length, Bool, Bool-cases, inl, inr, ◌≡◌, refl, sym, ap, ◌∙◌, List, [], ◌∷◌, ◌++◌, map,
  none, some, arith,
}
use mathlib.Core.List.{append-nil}
use mathlib.Core.Path.{fun_ext, subst}
use duplicacy.Prelude.Bytes.{eq_text_self}
use duplicacy.Entry.{Entry}
use duplicacy.Entry.Codec.{encode_msgpack, decode_msgpack}
use duplicacy.Entry.Codec.RoundTrip.{AreDistinct, read_back, decode_msgpack-encode_msgpack}
use duplicacy.EntryList.{EntryList}
use duplicacy.EntryList.Fill.{fill_and_send}
use duplicacy.EntryList.Disk.{
  Library, marshal, unmarshal, encode_with_hash, encode_entries, create_on_disk_file, store,
  add_entry, completed, read_memory, read_disk, read_entries, reset, after_fill, spills, store_in,
  read_from, noted, counted,
}

-- What can be written: the mode fits 32 bits, and the attributes are a map.
abbrev pub IsWritable : Entry → Type 0
IsWritable entry = (entry.mode < 2 ^ 32) × AreDistinct entry.attributes

abbrev pub AllWritable : List Entry → Type 0
AllWritable [] = Unit
AllWritable (entry ∷ rest) = IsWritable entry × AllWritable rest

-- An entry after a trip to the disk and back.
abbrev pub as_read : Entry → Entry
as_read entry = record entry { attributes = read_back entry.attributes }

module _ (lib : Library) where
  decode-encode :
      (entry : Entry)
      → IsWritable entry
      → decode_msgpack (encode_msgpack entry) ≡ some (as_read entry, [])
  decode-encode entry (h, d) =
      rw (← append-nil (encode_msgpack entry)) (decode_msgpack-encode_msgpack entry [] h d)

  unmarshal-marshal :
      (entry : Entry) → IsWritable entry → unmarshal lib (marshal lib entry) ≡ some (as_read entry)
  unmarshal-marshal entry w =
      rw (lib.unpack-pack (encode_msgpack entry), unmarshal) (rw (decode-encode entry w))

  module _ (entry_out : Entry → Bool) where
    read_disk-encode_entries :
        (list : EntryList) (entries : List Entry)
        → AllWritable entries
        → read_disk lib entry_out list (encode_entries lib entries)
          ≡ read_memory lib entry_out list (map as_read entries)
    unfolding read_disk read_memory encode_entries
    read_disk-encode_entries list [] w = refl
    read_disk-encode_entries list (entry ∷ entries) (w, ws) =
        rw (eq_text_self, unmarshal-marshal entry w)
          (ap (after_fill lib entry_out (fill_and_send entry_out list (as_read entry)))
            (fun_ext λ after. read_disk-encode_entries after entries ws))

  pub encode_entries-append :
      (a b : List Entry)
      → encode_entries lib (a ++ b) ≡ encode_entries lib a ++ encode_entries lib b
  unfolding encode_entries
  encode_entries-append [] b = refl
  encode_entries-append (entry ∷ a) b =
      ap (λ t. marshal lib entry ∷ lib.sha256 (marshal lib entry) ∷ t) (encode_entries-append a b)

  -- The list stands for `entries`: they are in memory, or written to the file after the token.
  pub data Holds (list : EntryList) (entries : List Entry) : Type 0 where
    in_memory : list.on_disk_file ≡ none → list.entries ≡ entries → Holds list entries
    on_disk :
        list.on_disk_file ≡ some (list.token ∷ encode_entries lib entries) → Holds list entries

  Holds-store_in :
      (entry : Entry) (list : EntryList) (entries : List Entry)
      → list.on_disk_file ≡ none
      → list.entries ≡ entries
      → Holds (store_in lib entry list none) (entries ++ entry ∷ [])
  unfolding create_on_disk_file
  Holds-store_in entry list entries none_yet same =
      elim (Bool-cases (spills lib (length (list.entries ++ entry ∷ [])) list)) [
        | inl e ↦
            rw e (on_disk (ap (λ t. some (list.token ∷ encode_entries lib (t ++ entry ∷ []))) same))
        | inr e ↦ rw e (in_memory none_yet (ap (λ t. t ++ entry ∷ []) same))
      ]

  Holds-store :
      (entry : Entry) (list : EntryList) (entries : List Entry)
      → Holds list entries
      → Holds (store lib entry list) (entries ++ entry ∷ [])
  unfolding store encode_with_hash encode_entries
  Holds-store entry list entries (in_memory none_yet same) =
      subst (λ o. Holds (store_in lib entry list o) (entries ++ entry ∷ [])) (sym none_yet)
        (Holds-store_in entry list entries none_yet same)
  Holds-store entry list entries (on_disk file) =
      subst (λ o. Holds (store_in lib entry list o) (entries ++ entry ∷ [])) (sym file)
        (on_disk
          (ap (λ t. some (list.token ∷ t)) (sym (encode_entries-append entries (entry ∷ [])))))

  Holds-noted :
      (entry : Entry) (list : EntryList) (entries : List Entry)
      → Holds list entries
      → Holds (noted lib entry (counted lib entry list)) entries
  Holds-noted entry list entries (in_memory none_yet same) = in_memory (ground arith) (ground arith)
  Holds-noted entry list entries (on_disk file) = on_disk (ground arith)

  -- AddEntry appends the entry to the list that it stands for, in memory, on disk, and where the
  -- list moves from the one to the other; an incomplete directory or link gets a size of 0.
  pub add_entry-Holds :
      (entry : Entry) (list : EntryList) (entries : List Entry)
      → Holds list entries
      → Holds (add_entry lib entry list) (entries ++ completed lib entry ∷ [])
  unfolding add_entry
  add_entry-Holds entry list entries h =
      Holds-store (completed lib entry) (noted lib entry (counted lib entry list)) entries
        (Holds-noted entry list entries h)

  -- ReadEntries hands out the entries that the list stands for in the same way in memory and on
  -- disk: the entries sent, the error and the list left behind are those of a walk in memory. The
  -- entries can be written, and have their attributes in order.
  pub read_entries-Holds :
      (entry_out : Entry → Bool) (list : EntryList) (entries : List Entry)
      → Holds list entries
      → AllWritable entries
      → map as_read entries ≡ entries
      → read_entries lib entry_out list
        ≡ read_memory lib entry_out (reset lib entry_out list) entries
  unfolding read_entries
  read_entries-Holds entry_out list entries (in_memory none_yet same) w same_read =
      ap (read_from lib entry_out list) none_yet
      ∙ ap (read_memory lib entry_out (reset lib entry_out list)) same
  read_entries-Holds entry_out list entries (on_disk file) w same_read =
      ap (read_from lib entry_out list) file
      ∙ read_disk-encode_entries entry_out _ entries w
      ∙ ap (read_memory lib entry_out (reset lib entry_out list)) same_read
