-- ===== src/ChunkMaker/Flushed.antt =====
-- A round of a flush sends data, or ends with all of them sent.
use mathlib.Core.List.{append_assoc, append-nil}
use duplicacy.Prelude.{
  ℕ, ◌+◌, ◌-◌, ◌≤◌, ◌<◌, ltb, length, ◌≡◌, refl, sym, ap, ◌∙◌, List, [], ◌∷◌, ◌++◌, Bool,
  Bool-cases, inl, inr, arith, true, false, ltb→lt, is_empty, if◌then◌else◌,
}
use duplicacy.ChunkMaker.{
  Settings, ChunkMaker, Scan, fill, scan, start_new_chunk, first_sum, at_boundary,
}
use duplicacy.ChunkMaker.AddData.{Round, scanned, scan_buffer, too_little, cut}
use duplicacy.ChunkMaker.Window.{IsBuffer, IsBuffer-fill, size-fill}
use duplicacy.ChunkMaker.Cuts.{
  IsSound, IsMaker, Scanned, Cuts, Cuts-send, Cuts-rehash, IsBuffer-rehash, pending, pending-fill,
  flatten, AllBounded, length-chunk-fill,
}
use duplicacy.ChunkMaker.Rounds.{
  cut-little, cut-reached, cut-first, cut-onward, reached, rehashed, whole_buffer-Scanned,
  first_chunk-Cuts, reached-not_full,
}

-- Chunks of the right sizes, of which only the last may be short; none is empty.
abbrev pub AreChunks : Settings → List (List ℕ) → Type 0
AreChunks s [] = Unit
AreChunks s (chunk ∷ []) = (0 < length chunk) × (length chunk ≤ s.maximum_chunk_size)
AreChunks s (chunk ∷ next ∷ rest) =
    (s.minimum_chunk_size ≤ length chunk)
    × (length chunk ≤ s.maximum_chunk_size)
    × AreChunks s (next ∷ rest)

-- What a round of a flush does: there is less in the buffer for the next one, or it is the last.
pub data Flushed (s : Settings) (maker : ChunkMaker) (round : Round) : Type 0 where
  goes_on :
      round.finished ≡ false
      → Cuts s maker round
      → round.maker.buffer_size < maker.buffer_size
      → Flushed s maker round
  ends :
      round.finished ≡ true
      → flatten round.sent ≡ pending maker
      → AreChunks s round.sent
      → Flushed s maker round

pub flatten-append : (xs ys : List (List ℕ)) → flatten (xs ++ ys) ≡ flatten xs ++ flatten ys
flatten-append [] ys = refl
flatten-append (x ∷ xs) ys =
    ap (λ t. x ++ t) (flatten-append xs ys) ∙ sym (append_assoc x (flatten xs) (flatten ys))

module _ (s : Settings) (sound : IsSound s) where
  pub AreChunks-append :
      (xs ys : List (List ℕ)) → AllBounded s xs → AreChunks s ys → AreChunks s (xs ++ ys)
  AreChunks-append [] ys b c = c
  AreChunks-append (x ∷ []) [] (l, h, b) c = (omega (arith, sound.some_minimum), h)
  AreChunks-append (x ∷ []) (y ∷ ys) (l, h, b) c = (l, h, c)
  AreChunks-append (x ∷ x' ∷ xs) ys (l, h, b) c = (l, h, AreChunks-append (x' ∷ xs) ys b c)

  -- The rest of the data makes a chunk, which is not sent where it is empty.
  AreChunks-last :
      (chunk : List ℕ)
      → length chunk ≤ s.maximum_chunk_size
      → AreChunks s (if is_empty chunk then [] else chunk ∷ [])
  AreChunks-last [] h = tt
  AreChunks-last (x ∷ xs) h = (omega arith, h)

  flatten-last : (chunk : List ℕ) → flatten (if is_empty chunk then [] else chunk ∷ []) ≡ chunk
  flatten-last [] = refl
  flatten-last (x ∷ xs) = append-nil (x ∷ xs)

  -- A buffer whose bytes have all gone to the chunk.
  pending-empty :
      (maker : ChunkMaker) → IsBuffer s maker → maker.buffer_size ≡ 0 → maker.chunk ≡ pending maker
  pending-empty maker v e = sym (rw e (append-nil maker.chunk))

  all_filled :
      (maker : ChunkMaker) (count : ℕ)
      → IsBuffer s maker
      → count ≡ maker.buffer_size
      → (fill s count maker).chunk ≡ pending maker
  all_filled maker count v e =
      pending-empty (fill s count maker) (IsBuffer-fill s maker v count (omega arith))
        (omega (arith, size-fill s maker v count))
      ∙ pending-fill s maker count v (omega arith)

  too_little-Flushed :
      (maker : ChunkMaker)
      → IsMaker s maker
      → maker.buffer_size < s.minimum_chunk_size
      → Flushed s maker (too_little s false false maker)
  unfolding too_little
  too_little-Flushed maker v h =
      let last : ChunkMaker = fill s maker.buffer_size maker in
      ends refl (flatten-last last.chunk ∙ all_filled maker maker.buffer_size v.is_buffer refl) (
        AreChunks-last last.chunk (
          omega (
            arith,
            length-chunk-fill s maker maker.buffer_size v.is_buffer (omega arith),
            reached-not_full s sound maker v,
            h,
          )))

  -- A round that sends a chunk takes at least a byte from the buffer.
  pub sends_some :
      (maker : ChunkMaker) (count : ℕ)
      → IsBuffer s maker
      → 0 < count
      → count ≤ maker.buffer_size
      → (start_new_chunk (fill s count maker)).buffer_size < maker.buffer_size
  unfolding start_new_chunk
  sends_some maker count v h c = omega (arith, size-fill s maker v count)

  -- The last chunk, with all that is in the buffer.
  last-Flushed :
      (maker : ChunkMaker) (count : ℕ)
      → IsBuffer s maker
      → count + s.minimum_chunk_size ≡ maker.buffer_size
      → length maker.chunk + s.minimum_chunk_size + count < s.maximum_chunk_size
      → Flushed s maker (scanned s false false (fill s count maker) false)
  last-Flushed maker count v e h =
      let c : count ≤ maker.buffer_size = omega arith in
      let filled : ChunkMaker = fill s count maker in
      let w : IsBuffer s filled = IsBuffer-fill s maker v count c in
      let left : s.minimum_chunk_size ≡ filled.buffer_size =
        omega (arith, size-fill s maker v count) in
      ends refl
        (append-nil _
          ∙ all_filled filled s.minimum_chunk_size w left
          ∙ pending-fill s maker count v c)
        (
          omega (
            arith,
            length-chunk-fill s filled s.minimum_chunk_size w (omega arith),
            sound.some_minimum,
          ),
          omega (
            arith,
            length-chunk-fill s filled s.minimum_chunk_size w (omega arith),
            length-chunk-fill s maker count v c,
          ),
        )

  -- `maker` is the one that has the hash of the end of the scan.
  scanned-Flushed :
      (maker : ChunkMaker) (r : Scan) (eoc : Bool)
      → r.is_eoc ≡ eoc
      → IsBuffer s maker
      → Scanned s maker r
      → Flushed s maker (scanned s false false (fill s r.bytes maker) eoc)
  scanned-Flushed maker r true e v h =
      let off = h.cut_off e in
      goes_on refl (Cuts-send s sound maker r.bytes false v h.within (omega (arith, off.0)) (off.1))
        (sends_some maker r.bytes v (omega (arith, off.0)) h.within)
  scanned-Flushed maker r false e v h =
      last-Flushed maker r.bytes v ((h.all_of_it e).0) ((h.all_of_it e).1)

  -- The hash does not count for what a round does to the data.
  Flushed-rehash :
      (maker : ChunkMaker) (sum : ℕ) (was_reached : Bool) (round : Round)
      → Flushed s (record maker { hash_sum = sum; minimum_reached = was_reached }) round
      → Flushed s maker round
  Flushed-rehash maker sum was_reached round (goes_on f c h) =
      goes_on f (Cuts-rehash s sound maker sum was_reached round c) h
  Flushed-rehash maker sum was_reached round (ends f h c) = ends f h c

  scan_buffer-Flushed :
      (maker : ChunkMaker)
      → IsBuffer s maker
      → s.minimum_chunk_size ≤ maker.buffer_size
      → length maker.chunk + s.minimum_chunk_size < s.maximum_chunk_size
      → Flushed s maker (scan_buffer s false false maker)
  unfolding scan_buffer
  scan_buffer-Flushed maker v enough not_full =
      let r : Scan = scan s maker (maker.buffer_size - s.minimum_chunk_size) 0 maker.hash_sum in
      Flushed-rehash maker r.sum maker.minimum_reached _ (
        scanned-Flushed (record maker { hash_sum = r.sum }) r r.is_eoc refl
          (IsBuffer-rehash s sound maker r.sum maker.minimum_reached v)
          (whole_buffer-Scanned s sound maker v enough not_full maker.minimum_reached r.sum))

  pub cut-Flushed :
      (maker : ChunkMaker) → IsMaker s maker → Flushed s maker (cut s false false maker)
  cut-Flushed maker v = elim (Bool-cases (ltb maker.buffer_size s.minimum_chunk_size)) [
    | inl e ↦
        let h : maker.buffer_size < s.minimum_chunk_size = ltb→lt _ _ e in
        rw (cut-little s false false maker h) (too_little-Flushed maker v h)
    | inr e ↦
        let enough : s.minimum_chunk_size ≤ maker.buffer_size = ground arith in
        elim (Bool-cases maker.minimum_reached) [
          | inl f ↦
              rw (cut-reached s false false maker enough f)
                (scan_buffer-Flushed maker v.is_buffer enough (v.not_full f))
          | inr f ↦ elim (Bool-cases (at_boundary s (first_sum s maker))) [
            | inl b ↦ rw (cut-first s false false maker enough f b) (
                goes_on refl (first_chunk-Cuts s sound maker (first_sum s maker) v f enough) (
                  sends_some (rehashed s false false maker) s.minimum_chunk_size
                    (IsBuffer-rehash s sound maker (first_sum s maker) maker.minimum_reached
                      v.is_buffer)
                    sound.some_minimum enough))
            | inr b ↦ rw (cut-onward s false false maker enough f b) (
                Flushed-rehash maker (first_sum s maker) true _ (
                  scan_buffer-Flushed (reached s false false maker)
                    (IsBuffer-rehash s sound maker (first_sum s maker) true v.is_buffer) enough
                    (reached-not_full s sound maker v)))
          ]
        ]
  ]
