-- ===== src/Backup/Upload/Stored.antt =====
-- The chunks of a backup are the files that it uploads, one after the other.
use mathlib.Core.List.{append_assoc, append-nil}
use mathlib.Core.Option
use duplicacy.Prelude.Slices.{append-cancel_right}
use duplicacy.Prelude.{
  ℕ, ◌+◌, ◌==◌, ◌<◌, length, false, ◌≡◌, sym, ap, ◌∙◌, List, [], ◌∷◌, ◌++◌, arith, Option, some,
  none, refl,
}
use duplicacy.ChunkMaker.{Settings, ChunkMaker}
use duplicacy.ChunkMaker.Cuts.{IsSound, IsMaker, pending, flatten, AllBounded}
use duplicacy.ChunkMaker.AddData.{flush}
use duplicacy.ChunkMaker.Fixed.{add_data, add_nothing}
use duplicacy.ChunkMaker.Flush.{flush-AreChunks}
use duplicacy.ChunkMaker.Flushed.{AreChunks, AreChunks-append, flatten-append}
use duplicacy.ChunkMaker.Reader.{Answer, Reading, Added, start_reading}
use duplicacy.ChunkMaker.Reads.{IsReader, unread, unread_of, ReadFailed}
use duplicacy.ChunkMaker.Files.{AddedAll, added_all, gave_up, add_data-AddedAll}
use duplicacy.Backup.Upload.{
  FileResult, not_opened, packed, denied, Uploading, with_file, with_added, last_chunks,
  upload_files,
}

module _ {R : Type 0} (read : R → ℕ → Answer R) (rest : R → List ℕ) where
  -- The bytes that the files leave in the chunks. A file is denied only where a read of it fails, and
  -- leaves what was read of it before.
  pub data AreStored : List (Option R) → List FileResult → List ℕ → Type 0 where
    no_files : AreStored [] [] []
    passed_over :
        (files : List (Option R)) (results : List FileResult) (bytes : List ℕ)
        → AreStored files results bytes
        → AreStored (none ∷ files) (not_opened ∷ results) bytes
    whole :
        (reader : R) (files : List (Option R)) (results : List FileResult) (bytes : List ℕ)
        → AreStored files results bytes
        → AreStored
            (some reader ∷ files)
            (packed (length (rest reader)) (rest reader) ∷ results)
            (rest reader ++ bytes)
    in_part :
        (reader : R) (to : Reading R) (part : List ℕ) (files : List (Option R))
        (results : List FileResult) (bytes : List ℕ)
        → ReadFailed read reader to
        → part ++ rest to.reader ≡ rest reader
        → AreStored files results bytes
        → AreStored (some reader ∷ files) (denied ∷ results) (part ++ bytes)

  abbrev pub total_length : List (Option R) → ℕ
  total_length [] = 0
  total_length (none ∷ files) = total_length files
  total_length (some reader ∷ files) = length (rest reader) + total_length files

  record Outcome (s : Settings) (maker : ChunkMaker) (files : List (Option R))
      (result : Option Uploading) : Type 0 where
    uploading : Uploading
    stored : List ℕ
    returned : result ≡ some uploading
    all_stored : flatten uploading.chunks ≡ pending maker ++ stored
    are_stored : AreStored files uploading.results stored
    are_chunks : AreChunks s uploading.chunks

  module _ (s : Settings) (sound : IsSound s) (law : IsReader read rest) where
    with_file-Outcome :
        (maker next : ChunkMaker) (sent : List (List ℕ)) (file : Option R) (files : List (Option R))
        (this : FileResult) (bytes : List ℕ) (result : Option Uploading)
        → flatten sent ++ pending next ≡ pending maker ++ bytes
        → AllBounded s sent
        → ((results : List FileResult) (more : List ℕ)
            → AreStored files results more
            → AreStored (file ∷ files) (this ∷ results) (bytes ++ more))
        → Outcome s next files result
        → Outcome s maker (file ∷ files) (with_file s read sent this result)
    with_file-Outcome maker next sent file files this bytes result e b add o = record {
      uploading = record o.uploading {
        chunks = sent ++ o.uploading.chunks;
        results = this ∷ o.uploading.results;
      };
      stored = bytes ++ o.stored;
      returned = ap (with_file s read sent this) o.returned;
      all_stored =
          flatten-append sent o.uploading.chunks
          ∙ ap (λ t. flatten sent ++ t) o.all_stored
          ∙ sym (append_assoc (flatten sent) (pending next) o.stored)
          ∙ ap (λ t. t ++ o.stored) e
          ∙ append_assoc (pending maker) bytes o.stored;
      are_stored = add o.uploading.results o.stored o.are_stored;
      are_chunks = AreChunks-append s sound sent o.uploading.chunks b o.are_chunks;
    }

    with_added-Outcome :
        (maker : ChunkMaker) (reader : R) (files : List (Option R)) (result : Option (Added R))
        (next : ChunkMaker → Option Uploading)
        → AddedAll s read rest (start_reading reader maker) result
        → ((after : ChunkMaker) → IsMaker s after → Outcome s after files (next after))
        → Outcome s maker (some reader ∷ files) (with_added s read next result)
    with_added-Outcome maker reader files result next (added_all to sent all hashed v b) ih =
        rw (v.counted, hashed)
          (with_file-Outcome maker to.maker sent (some reader) files
            (packed (length (rest reader)) (rest reader)) (rest reader) (next to.maker) all b
            (λ results more a. whole reader files results more a) (ih to.maker v.valid))
    with_added-Outcome maker reader files result next (gave_up to sent all hashed v b f) ih =
        with_file-Outcome maker to.maker sent (some reader) files denied to.hashed (next to.maker)
          (append-cancel_right (flatten sent ++ pending to.maker) (pending maker ++ to.hashed)
            (unread rest to)
            (append_assoc (flatten sent) (pending to.maker) (unread rest to)
              ∙ all
              ∙ ap (λ t. pending maker ++ t) (sym hashed)
              ∙ sym (append_assoc (pending maker) to.hashed (unread rest to))))
          b
          (λ results more a.
            in_part reader to to.hashed files results more f
              (ap (λ b. to.hashed ++ unread_of rest b to.reader) (sym f.open_end) ∙ hashed) a)
          (ih to.maker v.valid)

    add_nothing-flush :
        (fuel : ℕ) (maker : ChunkMaker) → add_nothing s fuel maker ≡ flush s fuel maker
    unfolding add_nothing
    add_nothing-flush fuel maker =
        let differ : (s.minimum_chunk_size == s.maximum_chunk_size) ≡ false =
          ground (arith, sound.below_maximum) in
        rw differ refl

    upload_files-Outcome :
        (fuel : ℕ) (files : List (Option R)) (maker : ChunkMaker)
        → IsMaker s maker
        → total_length files + s.buffer_capacity + 2 < fuel
        → Outcome s maker files (upload_files s read fuel files maker)
    unfolding upload_files
    upload_files-Outcome fuel [] maker v h =
        let f = flush-AreChunks s sound fuel maker v (omega (arith, v.is_buffer.size_in)) in
        record {
          uploading = last_chunks s read (f.0, f.1);
          stored = [];
          returned = ap (Option.map (last_chunks s read)) (add_nothing-flush fuel maker ∙ f.2);
          all_stored = f.3 ∙ sym (append-nil (pending maker));
          are_stored = no_files;
          are_chunks = f.4;
        }
    upload_files-Outcome fuel (none ∷ files) maker v h =
        with_file-Outcome maker maker [] none files not_opened []
          (upload_files s read fuel files maker) (sym (append-nil (pending maker))) tt
          (λ results more a. passed_over files results more a)
          (upload_files-Outcome fuel files maker v h)
    upload_files-Outcome fuel (some reader ∷ files) maker v h =
        with_added-Outcome maker reader files (add_data s read fuel reader maker)
          (upload_files s read fuel files)
          (add_data-AddedAll s read rest fuel reader maker sound law v
            (omega (arith, v.is_buffer.size_in)))
          (λ after w. upload_files-Outcome fuel files after w (omega arith))

    -- With chunks of variable sizes, a sound chunk maker, readers that keep the contract of io.Reader,
    -- and fuel for all the bytes, the upload ends. The chunks are, after what the maker had, the files
    -- one after the other: each file that was read to its end is there whole, and has its length and
    -- bytes as size and hash; one is denied only where a read of it fails before its end, and is there
    -- with what was read of it before; and one that was not opened is left out. No chunk is empty or
    -- too long, and only the last may be too short.
    pub upload_files-AreStored :
        (fuel : ℕ) (files : List (Option R)) (maker : ChunkMaker)
        → IsMaker s maker
        → total_length files + s.buffer_capacity + 2 < fuel
        → (uploading : Uploading) × (stored : List ℕ) × (upload_files s read fuel files maker
            ≡ some uploading)
          × (flatten uploading.chunks ≡ pending maker ++ stored)
          × AreStored files uploading.results stored
          × AreChunks s uploading.chunks
    upload_files-AreStored fuel files maker v h =
        let o = upload_files-Outcome fuel files maker v h in
        (o.uploading, o.stored, o.returned, o.all_stored, o.are_stored, o.are_chunks)
