-- ===== src/Backup/Upload/Cache.antt =====
-- Backup of src/duplicacy_backupmanager.go, uploadChunkFunc: what happens to each chunk that the chunk
-- maker sends. A chunk in the cache is reported at once, and the others when they are uploaded.
use duplicacy.Prelude.{ℕ, ◌+◌, length, List, [], ◌∷◌, Bool, true, false, not, ◌&&◌}
use duplicacy.Prelude.Int.{ℤ, pos, ltb_ℤ}
use duplicacy.Prelude.Int64.{sub64}
use duplicacy.Prelude.Tables.{contains}
use duplicacy.Entry.{Text}
use duplicacy.EntryList.Uploads.{Upload}

-- A chunk that is sent, with what the clock shows when the cache is asked and when the upload starts.
pub record Arrival : Type 0 where
  pub chunk : List ℕ
  pub asked_at : ℤ
  pub sent_at : ℤ

-- The variables of Backup that uploadChunkFunc changes. `next_index` is chunkIndex + 1, and the cache
-- is the keys of chunkCache.
pub record Sending : Type 0 where
  pub cache : List Text
  pub last_uploading_time : ℤ
  pub next_index : ℕ

-- The chunks that the chunk operator uploads, and the calls of AddUploadedChunk.
pub record Sent : Type 0 where
  pub uploaded : List (List ℕ)
  pub reports : List Upload

-- The id and the hash of a chunk, of its bytes.
module _ (id_of hash_of : List ℕ → Text) (keep_upload_alive : ℤ) where
  unfoldable pub is_in_cache : Arrival → Sending → Bool
  unfolding contains sub64
  is_in_cache arrival sending =
      contains (id_of arrival.chunk) sending.cache
      && not (ltb_ℤ keep_upload_alive (sub64 arrival.asked_at sending.last_uploading_time))

  abbrev pub after_chunk : Arrival → Sending → Bool → Sending
  after_chunk arrival sending true = record sending { next_index = sending.next_index + 1 }
  after_chunk arrival sending false = record {
    cache = id_of arrival.chunk ∷ sending.cache;
    last_uploading_time = arrival.sent_at;
    next_index = sending.next_index + 1;
  }

  abbrev pub report : Arrival → Sending → Upload
  report arrival sending = record {
    index = sending.next_index;
    hash = hash_of arrival.chunk;
    size = pos (length arrival.chunk);
  }

  abbrev pub with_chunk : List ℕ → Bool → List (List ℕ) → List (List ℕ)
  with_chunk chunk true uploaded = uploaded
  with_chunk chunk false uploaded = chunk ∷ uploaded

  -- The calls for all the chunks.
  unfoldable pub send_chunks : List Arrival → Sending → Sent
  unfolding is_in_cache
  send_chunks [] sending = record { uploaded = []; reports = [] }
  send_chunks (arrival ∷ rest) sending =
      let found = is_in_cache arrival sending in
      let more = send_chunks rest (after_chunk arrival sending found) in
      record {
        uploaded = with_chunk arrival.chunk found more.uploaded;
        reports = report arrival sending ∷ more.reports;
      }
