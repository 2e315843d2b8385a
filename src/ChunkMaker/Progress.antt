-- ===== src/ChunkMaker/Progress.antt =====
-- A round of AddData with a reader gets on.
use duplicacy.Prelude.{
  ℕ, ◌+◌, ◌-◌, ◌≤◌, ◌<◌, ltb, length, ◌≡◌, refl, Bool, inl, inr, arith, true, false, ltb→lt, ◌⊎◌,
  Bool-cases,
}
use duplicacy.ChunkMaker.{Settings, ChunkMaker, Scan, fill, scan, first_sum, at_boundary}
use duplicacy.ChunkMaker.AddData.{Round, scanned, scan_buffer, too_little, cut}
use duplicacy.ChunkMaker.Window.{IsBuffer, size-fill}
use duplicacy.ChunkMaker.Cuts.{IsSound, IsMaker, Scanned, IsBuffer-rehash}
use duplicacy.ChunkMaker.Rounds.{
  cut-little, cut-reached, cut-first, cut-onward, reached, rehashed, whole_buffer-Scanned,
  reached-not_full,
}
use duplicacy.ChunkMaker.Flushed.{sends_some}

-- A round returns only at the end of the file, and else takes some bytes from the buffer.
pub data Progress (s : Settings) (is_eof : Bool) (maker : ChunkMaker) (round : Round) : Type 0 where
  done : round.finished ≡ true → is_eof ≡ true → Progress s is_eof maker round
  shrinks :
      round.finished ≡ false
      → round.maker.buffer_size < maker.buffer_size
      → Progress s is_eof maker round

module _ (s : Settings) (sound : IsSound s) where
  scanned-Progress :
      (maker : ChunkMaker) (is_eof : Bool) (r : Scan) (eoc : Bool)
      → r.is_eoc ≡ eoc
      → IsBuffer s maker
      → Scanned s maker r
      → (is_eof ≡ true) ⊎ (s.buffer_capacity ≤ maker.buffer_size)
      → Progress s is_eof maker (scanned s true is_eof (fill s r.bytes maker) eoc)
  scanned-Progress maker true r true e v h stop = done refl refl
  scanned-Progress maker true r false e v h stop = done refl refl
  scanned-Progress maker false r true e v h stop =
      shrinks refl (sends_some s sound maker r.bytes v (omega (arith, (h.cut_off e).0)) h.within)
  scanned-Progress maker false r false e v h (inl t) = absurd (cc)
  scanned-Progress maker false r false e v h (inr full) = shrinks refl (
      omega
        (arith, size-fill s maker v r.bytes, (h.all_of_it e).0, sound.twice, sound.some_minimum))

  too_little-Progress :
      (maker : ChunkMaker) (is_eof : Bool)
      → maker.buffer_size < s.minimum_chunk_size
      → (is_eof ≡ true) ⊎ (s.buffer_capacity ≤ maker.buffer_size)
      → Progress s is_eof maker (too_little s true is_eof maker)
  unfolding too_little
  too_little-Progress maker true h stop = done refl refl
  too_little-Progress maker false h (inl t) = absurd (cc)
  too_little-Progress maker false h (inr full) = absurd (omega (arith, sound.twice))

  Progress-rehash :
      (maker : ChunkMaker) (is_eof : Bool) (sum : ℕ) (was_reached : Bool) (round : Round)
      → Progress s is_eof (record maker { hash_sum = sum; minimum_reached = was_reached }) round
      → Progress s is_eof maker round
  Progress-rehash maker is_eof sum was_reached round (done f e) = done f e
  Progress-rehash maker is_eof sum was_reached round (shrinks f h) = shrinks f h

  scan_buffer-Progress :
      (maker : ChunkMaker) (is_eof : Bool)
      → IsBuffer s maker
      → s.minimum_chunk_size ≤ maker.buffer_size
      → length maker.chunk + s.minimum_chunk_size < s.maximum_chunk_size
      → (is_eof ≡ true) ⊎ (s.buffer_capacity ≤ maker.buffer_size)
      → Progress s is_eof maker (scan_buffer s true is_eof maker)
  unfolding scan_buffer
  scan_buffer-Progress maker is_eof v enough not_full stop =
      let r : Scan = scan s maker (maker.buffer_size - s.minimum_chunk_size) 0 maker.hash_sum in
      Progress-rehash maker is_eof r.sum maker.minimum_reached _ (
        scanned-Progress (record maker { hash_sum = r.sum }) is_eof r r.is_eoc refl
          (IsBuffer-rehash s sound maker r.sum maker.minimum_reached v)
          (whole_buffer-Scanned s sound maker v enough not_full maker.minimum_reached r.sum) stop)

  pub cut-Progress :
      (maker : ChunkMaker) (is_eof : Bool)
      → IsMaker s maker
      → (is_eof ≡ true) ⊎ (s.buffer_capacity ≤ maker.buffer_size)
      → Progress s is_eof maker (cut s true is_eof maker)
  cut-Progress maker is_eof v stop =
      elim (Bool-cases (ltb maker.buffer_size s.minimum_chunk_size)) [
        | inl e ↦
            let h : maker.buffer_size < s.minimum_chunk_size = ltb→lt _ _ e in
            rw (cut-little s true is_eof maker h) (too_little-Progress maker is_eof h stop)
        | inr e ↦
            let enough : s.minimum_chunk_size ≤ maker.buffer_size = ground arith in
            elim (Bool-cases maker.minimum_reached) [
              | inl f ↦
                  rw (cut-reached s true is_eof maker enough f)
                    (scan_buffer-Progress maker is_eof v.is_buffer enough (v.not_full f) stop)
              | inr f ↦ elim (Bool-cases (at_boundary s (first_sum s maker))) [
                | inl b ↦ rw (cut-first s true is_eof maker enough f b) (
                    shrinks refl (
                      sends_some s sound (rehashed s true is_eof maker) s.minimum_chunk_size
                        (IsBuffer-rehash s sound maker (first_sum s maker) maker.minimum_reached
                          v.is_buffer)
                        sound.some_minimum enough))
                | inr b ↦ rw (cut-onward s true is_eof maker enough f b) (
                    Progress-rehash maker is_eof (first_sum s maker) true _ (
                      scan_buffer-Progress (reached s true is_eof maker) is_eof
                        (IsBuffer-rehash s sound maker (first_sum s maker) true v.is_buffer) enough
                        (reached-not_full s sound maker v) stop))
              ]
            ]
      ]
