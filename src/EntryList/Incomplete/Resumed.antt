-- ===== src/EntryList/Incomplete/Resumed.antt =====
-- What the next backup finds: the entries, the chunks that are kept, and the check of them.
use duplicacy.Prelude.{
  ◌≡◌, ◌≢◌, ◌↔◌, refl, sym, ap, ◌∙◌, List, [], ◌∷◌, ◌++◌, Option, none, some, Bool, true, inl, inr,
  arith, Option-cases, Bool-cases,
}
use mathlib.Core.Path.{subst}
use duplicacy.Prelude.Bytes.{eq_text_self}
use duplicacy.Entry.{Text, Entry}
use duplicacy.EntryList.{EntryList, DiskFile}
use duplicacy.EntryList.Disk.{Library, encode_entries, create_on_disk_file}
use duplicacy.EntryList.Disk.Contents.{Holds, on_disk, encode_entries-append}
use duplicacy.EntryList.Incomplete.{
  SavedList, StructCodec, Cache, first_empty, cut, all_in, check_chunks, saved_of, checksum_of,
  flushed, loaded, load_file, load_checked, load_from, save_incomplete_snapshot,
  load_incomplete_snapshot, eq_text,
}

-- Each chunk's hash is there.
abbrev pub AllPresent : List Text → Type 0
AllPresent [] = Unit
AllPresent (hash ∷ rest) = (hash ≢ []) × AllPresent rest

-- Each chunk is one that the storage holds.
abbrev pub AllHeld : (Text → Bool) → List Text → Type 0
AllHeld held [] = Unit
AllHeld held (hash ∷ rest) = (held hash ≡ true) × AllHeld held rest

cut-AllPresent : (hashes : List Text) → AllPresent (cut (first_empty hashes) hashes)
unfolding first_empty
cut-AllPresent [] = tt
cut-AllPresent ([] ∷ rest) = tt
cut-AllPresent ((c ∷ cs) ∷ rest) = elim (Option-cases (first_empty rest)) [
  | inl e ↦ rw e (λ q. cc, subst (λ o. AllPresent (cut o rest)) e (cut-AllPresent rest))
  | inr (i, e) ↦ rw e (λ q. cc, subst (λ o. AllPresent (cut o rest)) e (cut-AllPresent rest))
]

all_in_iff :
    (held : Text → Bool) (hashes : List Text) → (all_in held hashes ≡ true) ↔ AllHeld held hashes
unfolding all_in
all_in_iff held [] = ground arith
all_in_iff held (hash ∷ rest) = ground (arith, all_in_iff held rest)

-- CheckChunks passes exactly when the storage holds each uploaded and each preserved chunk.
pub check_chunks_iff :
    (chunk_id : Text → Text) (cached : Text → Bool) (list : EntryList)
    → (check_chunks chunk_id cached list ≡ true) ↔ (
        AllHeld (λ hash. cached (chunk_id hash)) list.uploaded_chunk_hashes
        × AllHeld (λ hash. cached (chunk_id hash)) list.preserved_chunk_hashes)
unfolding check_chunks
check_chunks_iff chunk_id cached list = ground (
  arith,
  all_in_iff (λ hash. cached (chunk_id hash)) list.uploaded_chunk_hashes,
  all_in_iff (λ hash. cached (chunk_id hash)) list.preserved_chunk_hashes,
)

module _ (lib : Library) {Encoded : Type 0} (codec : StructCodec Encoded) where
  pub load-save :
      (list : EntryList) (frames : DiskFile)
      → flushed lib list list.on_disk_file ≡ some (list.token ∷ frames)
      → load_incomplete_snapshot lib codec (save_incomplete_snapshot lib codec list)
        ≡ some (loaded lib codec (saved_of lib list) (list.token ∷ frames))
  unfolding load_incomplete_snapshot save_incomplete_snapshot
  load-save list frames h =
      ap (λ o. load_from lib codec o (some (codec.encode (saved_of lib list)))) h
      ∙ ap (load_checked lib codec (list.token ∷ frames)) (codec.decode-encode (saved_of lib list))
      ∙ rw (eq_text_self (checksum_of lib (saved_of lib list)), eq_text_self list.token) refl

  -- A list whose entries are on disk is loaded as it was saved: it stands for the same entries,
  -- with the modified entries and the preserved chunks of the list that was saved.
  pub load-save_on_disk :
      (list : EntryList) (entries : List Entry)
      → list.on_disk_file ≡ some (list.token ∷ encode_entries lib entries)
      → (l : EntryList) × (load_incomplete_snapshot lib codec
            (save_incomplete_snapshot lib codec list)
          ≡ some l)
        × Holds lib l entries
        × (l.modified_entries ≡ list.modified_entries)
        × (l.preserved_chunk_hashes ≡ list.preserved_chunk_hashes)
  load-save_on_disk list entries h = (
    loaded lib codec (saved_of lib list) (list.token ∷ encode_entries lib entries),
    load-save list (encode_entries lib entries) (ap (flushed lib list) h),
    on_disk refl,
    refl,
    refl,
  )

  -- A list in memory is loaded with each of its entries twice: createOnDiskFile writes the
  -- entries, and SaveIncompleteSnapshot writes them again.
  pub load-save_in_memory :
      (list : EntryList)
      → list.on_disk_file ≡ none
      → (l : EntryList) × (load_incomplete_snapshot lib codec
            (save_incomplete_snapshot lib codec list)
          ≡ some l)
        × Holds lib l (list.entries ++ list.entries)
  unfolding create_on_disk_file
  load-save_in_memory list h = (
    loaded lib codec (saved_of lib list)
        (list.token ∷ encode_entries lib list.entries ++ encode_entries lib list.entries),
    load-save list _ (ap (flushed lib list) h),
    on_disk (
        ap (λ t. some (list.token ∷ t))
          (sym (encode_entries-append lib list.entries list.entries))),
  )

  AllPresent-load_file :
      (saved : SavedList) (file : DiskFile) (l : EntryList)
      → load_file lib codec saved file ≡ some l
      → AllPresent l.uploaded_chunk_hashes
  AllPresent-load_file saved [] l h = absurd (cc)
  AllPresent-load_file saved (token ∷ frames) l h = elim (Bool-cases (eq_text token saved.token)) [
    | inl e ↦
        let same : loaded lib codec saved (token ∷ frames) ≡ l = ground arith in
        subst (λ (o : EntryList). AllPresent o.uploaded_chunk_hashes) same
          (cut-AllPresent saved.uploaded_chunk_hashes)
    | inr e ↦ absurd (ground arith)
  ]

  AllPresent-load_checked :
      (file : DiskFile) (saved : Option SavedList) (l : EntryList)
      → load_checked lib codec file saved ≡ some l
      → AllPresent l.uploaded_chunk_hashes
  AllPresent-load_checked file none l h = absurd (cc)
  AllPresent-load_checked file (some saved) l h =
      elim (Bool-cases (eq_text (checksum_of lib saved) saved.checksum)) [
        | inl e ↦ AllPresent-load_file saved file l (ground arith)
        | inr e ↦ absurd (ground arith)
      ]

  AllPresent-load_from :
      (snapshot : Option DiskFile) (chunks : Option Encoded) (l : EntryList)
      → load_from lib codec snapshot chunks ≡ some l
      → AllPresent l.uploaded_chunk_hashes
  AllPresent-load_from none chunks l h = absurd (cc)
  AllPresent-load_from (some file) none l h = absurd (cc)
  AllPresent-load_from (some file) (some chunks) l h =
      AllPresent-load_checked file (codec.decode chunks) l h

  -- In a list that was loaded the uploaded chunks stop before the first that was not uploaded:
  -- the hash of each one that is left is there.
  pub load-AllPresent :
      (cache : Cache Encoded) (l : EntryList)
      → load_incomplete_snapshot lib codec cache ≡ some l
      → AllPresent l.uploaded_chunk_hashes
  unfolding load_incomplete_snapshot
  load-AllPresent cache l h =
      AllPresent-load_from cache.incomplete_snapshot cache.incomplete_chunks l h
