-- ===== src/ChunkMaker/Rounds.antt =====
-- A round of AddData with a reader, whose data stay for the next file where they make no chunk.
use duplicacy.Prelude.{
  ℕ, ◌+◌, ◌-◌, ◌≤◌, ◌<◌, ltb, length, ◌≡◌, refl, ap, ◌∙◌, Bool, Bool-cases, inl, inr, arith, true,
  false, ltb→lt, lt→ltb, if◌then◌else◌,
}
use duplicacy.ChunkMaker.{Settings, ChunkMaker, Scan, fill, scan, first_sum, at_boundary}
use duplicacy.ChunkMaker.AddData.{Round, send_chunk, scan_buffer, too_little, cut}
use duplicacy.ChunkMaker.Window.{IsBuffer}
use duplicacy.ChunkMaker.Cuts.{
  IsSound, IsMaker, Scanned, scan-Scanned, Cuts, Cuts-send, Cuts-rehash, IsBuffer-rehash,
  scanned-Cuts,
}

-- The branches of a round.
module _ (s : Settings) (has_reader is_eof : Bool) (maker : ChunkMaker) where
  abbrev pub sum : ℕ
  sum = first_sum s maker

  abbrev pub reached : ChunkMaker
  reached = record maker { hash_sum = sum; minimum_reached = true }

  abbrev pub rehashed : ChunkMaker
  rehashed = record maker { hash_sum = sum }

  -- The round where the buffer has enough data, by whether the minimum was reached before.
  abbrev by_minimum : Bool → Round
  by_minimum was_reached =
      if was_reached
      then scan_buffer s has_reader is_eof maker
      else if at_boundary s sum
      then send_chunk s (fill s s.minimum_chunk_size rehashed) false
      else scan_buffer s has_reader is_eof reached

  pub cut-little :
      maker.buffer_size < s.minimum_chunk_size
      → cut s has_reader is_eof maker ≡ too_little s has_reader is_eof maker
  unfolding cut
  cut-little h = rw (lt→ltb _ _ h) refl

  module _ (enough : s.minimum_chunk_size ≤ maker.buffer_size) where
    not_little : ltb maker.buffer_size s.minimum_chunk_size ≡ false
    not_little = ground arith

    pub cut-reached :
        maker.minimum_reached ≡ true
        → cut s has_reader is_eof maker ≡ scan_buffer s has_reader is_eof maker
    unfolding cut
    cut-reached f = rw not_little (ap by_minimum f)

    module _ (f : maker.minimum_reached ≡ false) where
      pub cut-first :
          at_boundary s sum ≡ true
          → cut s has_reader is_eof maker
            ≡ send_chunk s (fill s s.minimum_chunk_size rehashed) false
      unfolding cut
      cut-first b = rw not_little (ap by_minimum f ∙ rw b refl)

      pub cut-onward :
          at_boundary s sum ≡ false
          → cut s has_reader is_eof maker ≡ scan_buffer s has_reader is_eof reached
      unfolding cut
      cut-onward b = rw not_little (ap by_minimum f ∙ rw b refl)

module _ (s : Settings) (sound : IsSound s) where
  module _ (maker : ChunkMaker) (v : IsBuffer s maker)
      (enough : s.minimum_chunk_size ≤ maker.buffer_size)
      (not_full : length maker.chunk + s.minimum_chunk_size < s.maximum_chunk_size) where
    pub whole_buffer-Scanned :
        (reached : Bool) (sum : ℕ)
        → Scanned s
            (record maker { hash_sum = sum; minimum_reached = reached })
            (scan s maker (maker.buffer_size - s.minimum_chunk_size) 0 maker.hash_sum)
    whole_buffer-Scanned reached sum =
        let h : Scanned s maker
            (scan s maker (maker.buffer_size - s.minimum_chunk_size) 0 maker.hash_sum) =
          scan-Scanned s maker (maker.buffer_size - s.minimum_chunk_size) 0 maker.hash_sum
            (omega arith) (omega arith) in
        record { within = h.within; cut_off = h.cut_off; all_of_it = h.all_of_it }

    scan_buffer-Cuts :
        (is_eof : Bool)
        → maker.minimum_reached ≡ true
        → Cuts s maker (scan_buffer s true is_eof maker)
    unfolding scan_buffer
    scan_buffer-Cuts is_eof reached =
        let r : Scan = scan s maker (maker.buffer_size - s.minimum_chunk_size) 0 maker.hash_sum in
        Cuts-rehash s sound maker r.sum maker.minimum_reached _ (
          scanned-Cuts s sound (record maker { hash_sum = r.sum }) is_eof r r.is_eoc refl
            (IsBuffer-rehash s sound maker r.sum maker.minimum_reached v) reached
            (whole_buffer-Scanned maker.minimum_reached r.sum))

  -- The first chunk's worth of data ends at a boundary.
  pub first_chunk-Cuts :
      (maker : ChunkMaker) (sum : ℕ)
      → IsMaker s maker
      → maker.minimum_reached ≡ false
      → s.minimum_chunk_size ≤ maker.buffer_size
      → Cuts s maker
          (send_chunk s (fill s s.minimum_chunk_size (record maker { hash_sum = sum })) false)
  first_chunk-Cuts maker sum v fresh enough =
      let empty : length maker.chunk ≡ 0 = ap length (v.fresh fresh) in
      Cuts-rehash s sound maker sum maker.minimum_reached _ (
        Cuts-send s sound (record maker { hash_sum = sum }) s.minimum_chunk_size false
          (IsBuffer-rehash s sound maker sum maker.minimum_reached v.is_buffer) enough (omega arith)
          (omega (arith, empty, sound.below_maximum)))

  -- Nothing is in the chunk before the minimum is reached.
  pub reached-not_full :
      (maker : ChunkMaker)
      → IsMaker s maker
      → length maker.chunk + s.minimum_chunk_size < s.maximum_chunk_size
  reached-not_full maker v = elim (Bool-cases maker.minimum_reached) [
    | inl e ↦ v.not_full e
    | inr e ↦
        let empty : length maker.chunk ≡ 0 = ap length (v.fresh e) in
        omega (arith, empty, sound.below_maximum)
  ]

  -- With a reader, a round loses no data, cuts chunks of the right sizes, and may be followed by another.
  pub cut-Cuts :
      (maker : ChunkMaker) (is_eof : Bool)
      → IsMaker s maker
      → Cuts s maker (cut s true is_eof maker)
  unfolding too_little
  cut-Cuts maker is_eof v = elim (Bool-cases (ltb maker.buffer_size s.minimum_chunk_size)) [
    | inl e ↦
        rw (cut-little s true is_eof maker (ltb→lt _ _ e))
          (record { conserved = refl; valid = v; bounded = tt; shrinks = omega arith })
    | inr e ↦
        let enough : s.minimum_chunk_size ≤ maker.buffer_size = ground arith in
        elim (Bool-cases maker.minimum_reached) [
          | inl f ↦
              rw (cut-reached s true is_eof maker enough f)
                (scan_buffer-Cuts maker v.is_buffer enough (v.not_full f) is_eof f)
          | inr f ↦ elim (Bool-cases (at_boundary s (first_sum s maker))) [
            | inl b ↦
                rw (cut-first s true is_eof maker enough f b)
                  (first_chunk-Cuts maker (first_sum s maker) v f enough)
            | inr b ↦ rw (cut-onward s true is_eof maker enough f b) (
                Cuts-rehash s sound maker (first_sum s maker) true _ (
                  scan_buffer-Cuts (reached s true is_eof maker)
                    (IsBuffer-rehash s sound maker (first_sum s maker) true v.is_buffer) enough
                    (reached-not_full maker v) is_eof refl))
          ]
        ]
  ]
