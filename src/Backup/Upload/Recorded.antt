-- ===== src/Backup/Upload/Recorded.antt =====
-- The table of the uploaded chunks is what the chunk maker sent, in whatever order the uploads finish.
use mathlib.Core.List.{Perm, Pairwise, Memᴰ, append_assoc, append-nil}
use mathlib.Core.Path.{subst}
use mathlib.Core.Logic.{∥∥₁_elim}
use duplicacy.Prelude.{
  ℕ, ◌+◌, ◌≤◌, length, length-append, List, [], ◌∷◌, ◌++◌, ◌≡◌, refl, sym, ap, ◌∙◌, Bool, true,
  false, ◌||◌, arith,
}
use duplicacy.Prelude.Int.{ℤ, pos}
use duplicacy.Prelude.Bytes.{eq_text_self}
use duplicacy.Prelude.Tables.{contains}
use duplicacy.Entry.{Text}
use duplicacy.EntryList.{EntryList, put_at, add_uploaded_chunk}
use duplicacy.EntryList.Uploads.{Upload, Differ, add_uploads, add_uploads_perm, put_at-append}
use duplicacy.Backup.Upload.Cache.{
  Arrival, Sending, is_in_cache, after_chunk, report, with_chunk, send_chunks,
}

-- The reports for chunks that have the indices from `n` on.
abbrev reports_from : (List ℕ → Text) → ℕ → List Arrival → List Upload
reports_from hash_of n [] = []
reports_from hash_of n (arrival ∷ rest) =
    record { index = n; hash = hash_of arrival.chunk; size = pos (length arrival.chunk) }
    ∷ reports_from hash_of (n + 1) rest

abbrev pub hashes_of : (List ℕ → Text) → List Arrival → List Text
hashes_of hash_of [] = []
hashes_of hash_of (arrival ∷ rest) = hash_of arrival.chunk ∷ hashes_of hash_of rest

abbrev pub lengths_of : List Arrival → List ℤ
lengths_of [] = []
lengths_of (arrival ∷ rest) = pos (length arrival.chunk) ∷ lengths_of rest

-- Each chunk was in the cache, or it is uploaded under its id.
abbrev pub AllAvailable : (List ℕ → Text) → List Text → List Text → List Arrival → Type 0
AllAvailable id_of cache uploaded [] = Unit
AllAvailable id_of cache uploaded (arrival ∷ rest) =
    (contains (id_of arrival.chunk) cache || contains (id_of arrival.chunk) uploaded ≡ true)
    × AllAvailable id_of cache uploaded rest

index-ge :
    (hash_of : List ℕ → Text) (n : ℕ) (arrivals : List Arrival) (u : Upload)
    → Memᴰ u (reports_from hash_of n arrivals)
    → n ≤ u.index
index-ge hash_of n [] u m = elim m [ ]
index-ge hash_of n (arrival ∷ rest) u (Memᴰ.head e) = omega (arith, ap (λ (u : Upload). u.index) e)
index-ge hash_of n (arrival ∷ rest) u (Memᴰ.tail m) =
    omega (arith, index-ge hash_of (n + 1) rest u m)

Differ-reports :
    (hash_of : List ℕ → Text) (n : ℕ) (arrivals : List Arrival)
    → Pairwise Differ (reports_from hash_of n arrivals)
Differ-reports hash_of n [] = Pairwise.nil
Differ-reports hash_of n (arrival ∷ rest) =
    Pairwise.cons
      (λ u m e. ∥∥₁_elim m (hlevel) (λ d. omega (arith, index-ge hash_of (n + 1) rest u d)))
      (Differ-reports hash_of (n + 1) rest)

module _ (n : ℕ) (hash : Text) (size : ℤ) (list : EntryList) where
  hashes-added :
      length list.uploaded_chunk_hashes ≡ n
      → (add_uploaded_chunk n hash size list).uploaded_chunk_hashes
        ≡ list.uploaded_chunk_hashes ++ hash ∷ []
  unfolding add_uploaded_chunk
  hashes-added e =
      ap (λ k. put_at [] k hash list.uploaded_chunk_hashes) (sym e)
      ∙ put_at-append [] hash list.uploaded_chunk_hashes

  lengths-added :
      length list.uploaded_chunk_lengths ≡ n
      → (add_uploaded_chunk n hash size list).uploaded_chunk_lengths
        ≡ list.uploaded_chunk_lengths ++ size ∷ []
  unfolding add_uploaded_chunk
  lengths-added e =
      ap (λ k. put_at (pos 0) k size list.uploaded_chunk_lengths) (sym e)
      ∙ put_at-append (pos 0) size list.uploaded_chunk_lengths

-- The chunks are appended to the table.
record Appended (hash_of : List ℕ → Text) (arrivals : List Arrival) (before after : EntryList)
    : Type 0 where
  new_hashes :
      after.uploaded_chunk_hashes ≡ before.uploaded_chunk_hashes ++ hashes_of hash_of arrivals
  new_lengths : after.uploaded_chunk_lengths ≡ before.uploaded_chunk_lengths ++ lengths_of arrivals

Appended-reports :
    (hash_of : List ℕ → Text) (n : ℕ) (arrivals : List Arrival) (list : EntryList)
    → length list.uploaded_chunk_hashes ≡ n
    → length list.uploaded_chunk_lengths ≡ n
    → Appended hash_of arrivals list (add_uploads (reports_from hash_of n arrivals) list)
unfolding add_uploads
Appended-reports hash_of n [] list e f = record {
  new_hashes = sym (append-nil list.uploaded_chunk_hashes);
  new_lengths = sym (append-nil list.uploaded_chunk_lengths);
}
Appended-reports hash_of n (arrival ∷ rest) list e f =
    let hash : Text = hash_of arrival.chunk in
    let size : ℤ = pos (length arrival.chunk) in
    let h = hashes-added n hash size list e in
    let l = lengths-added n hash size list f in
    let more : Appended hash_of rest (add_uploaded_chunk n hash size list)
        (add_uploads (reports_from hash_of (n + 1) rest) (add_uploaded_chunk n hash size list)) =
      Appended-reports hash_of (n + 1) rest (add_uploaded_chunk n hash size list)
        (omega (arith, ap length h, length-append list.uploaded_chunk_hashes (hash ∷ [])))
        (omega (arith, ap length l, length-append list.uploaded_chunk_lengths (size ∷ []))) in
    record {
      new_hashes =
          more.new_hashes
          ∙ ap (λ t. t ++ hashes_of hash_of rest) h
          ∙ append_assoc list.uploaded_chunk_hashes (hash ∷ []) (hashes_of hash_of rest);
      new_lengths =
          more.new_lengths
          ∙ ap (λ t. t ++ lengths_of rest) l
          ∙ append_assoc list.uploaded_chunk_lengths (size ∷ []) (lengths_of rest);
    }

abbrev pub ids_of : (List ℕ → Text) → List (List ℕ) → List Text
ids_of id_of [] = []
ids_of id_of (chunk ∷ rest) = id_of chunk ∷ ids_of id_of rest

module _ (id_of hash_of : List ℕ → Text) (keep_upload_alive : ℤ) where
  next_index-after_chunk :
      (arrival : Arrival) (sending : Sending) (found : Bool)
      → (after_chunk id_of hash_of keep_upload_alive arrival sending found).next_index
        ≡ sending.next_index + 1
  next_index-after_chunk arrival sending true = refl
  next_index-after_chunk arrival sending false = refl

  reports-send_chunks :
      (arrivals : List Arrival) (sending : Sending)
      → (send_chunks id_of hash_of keep_upload_alive arrivals sending).reports
        ≡ reports_from hash_of sending.next_index arrivals
  unfolding send_chunks
  reports-send_chunks [] sending = refl
  reports-send_chunks (arrival ∷ rest) sending =
      let found : Bool = is_in_cache id_of hash_of keep_upload_alive arrival sending in
      ap (λ t. report id_of hash_of keep_upload_alive arrival sending ∷ t)
        (reports-send_chunks rest
            (after_chunk id_of hash_of keep_upload_alive arrival sending found)
          ∙ ap (λ n. reports_from hash_of n rest) (next_index-after_chunk arrival sending found))

  -- The chunk whose id has gone to the cache is one that is uploaded.
  AllAvailable-move :
      (id : Text) (cache uploaded : List Text) (arrivals : List Arrival)
      → AllAvailable id_of (id ∷ cache) uploaded arrivals
      → AllAvailable id_of cache (id ∷ uploaded) arrivals
  unfolding contains
  AllAvailable-move id cache uploaded [] a = tt
  AllAvailable-move id cache uploaded (arrival ∷ rest) (h, a) =
      (ground (arith, h), AllAvailable-move id cache uploaded rest a)

  AllAvailable-with_chunk :
      (arrival : Arrival) (rest : List Arrival) (sending : Sending) (uploaded : List (List ℕ))
      (found : Bool)
      → is_in_cache id_of hash_of keep_upload_alive arrival sending ≡ found
      → AllAvailable id_of
          (after_chunk id_of hash_of keep_upload_alive arrival sending found).cache
          (ids_of id_of uploaded)
          rest
      → AllAvailable id_of sending.cache
          (ids_of id_of (with_chunk id_of hash_of keep_upload_alive arrival.chunk found uploaded))
          (arrival ∷ rest)
  unfolding is_in_cache contains
  AllAvailable-with_chunk arrival rest sending uploaded true e a = (ground (arith, e), a)
  AllAvailable-with_chunk arrival rest sending uploaded false e a = (
    ground (arith, eq_text_self (id_of arrival.chunk)),
    AllAvailable-move (id_of arrival.chunk) sending.cache (ids_of id_of uploaded) rest a,
  )

  AllAvailable-send_chunks :
      (arrivals : List Arrival) (sending : Sending)
      → AllAvailable id_of sending.cache
          (ids_of id_of (send_chunks id_of hash_of keep_upload_alive arrivals sending).uploaded)
          arrivals
  unfolding send_chunks
  AllAvailable-send_chunks [] sending = tt
  AllAvailable-send_chunks (arrival ∷ rest) sending =
      let found : Bool = is_in_cache id_of hash_of keep_upload_alive arrival sending in
      let next : Sending = after_chunk id_of hash_of keep_upload_alive arrival sending found in
      AllAvailable-with_chunk arrival rest sending
        (send_chunks id_of hash_of keep_upload_alive rest next).uploaded found refl
        (AllAvailable-send_chunks rest next)

  -- From an entry list with no uploaded chunks on, and in whatever order the chunks are reported, the
  -- table ends up with the hashes and the lengths of the chunks in the order in which the chunk maker
  -- sent them; and each of these chunks was in the cache or is uploaded.
  pub send_chunks-table :
      (arrivals : List Arrival) (sending : Sending) (list : EntryList) (reports : List Upload)
      → sending.next_index ≡ 0
      → list.uploaded_chunk_hashes ≡ []
      → list.uploaded_chunk_lengths ≡ []
      → Perm (send_chunks id_of hash_of keep_upload_alive arrivals sending).reports reports
      → ((add_uploads reports list).uploaded_chunk_hashes ≡ hashes_of hash_of arrivals)
        × ((add_uploads reports list).uploaded_chunk_lengths ≡ lengths_of arrivals)
        × AllAvailable id_of sending.cache
            (ids_of id_of (send_chunks id_of hash_of keep_upload_alive arrivals sending).uploaded)
            arrivals
  send_chunks-table arrivals sending list reports z e f p =
      let in_order : (send_chunks id_of hash_of keep_upload_alive arrivals sending).reports
          ≡ reports_from hash_of 0 arrivals =
        reports-send_chunks arrivals sending ∙ ap (λ n. reports_from hash_of n arrivals) z in
      let same : add_uploads (reports_from hash_of 0 arrivals) list ≡ add_uploads reports list =
        add_uploads_perm (reports_from hash_of 0 arrivals) reports list
          (subst (λ t. Perm t reports) in_order p) (Differ-reports hash_of 0 arrivals) in
      let a = Appended-reports hash_of 0 arrivals list (ap length e) (ap length f) in
      (
        ap (λ (l : EntryList). l.uploaded_chunk_hashes) (sym same)
            ∙ a.new_hashes
            ∙ ap (λ t. t ++ hashes_of hash_of arrivals) e,
        ap (λ (l : EntryList). l.uploaded_chunk_lengths) (sym same)
            ∙ a.new_lengths
            ∙ ap (λ t. t ++ lengths_of arrivals) f,
        AllAvailable-send_chunks arrivals sending,
      )
