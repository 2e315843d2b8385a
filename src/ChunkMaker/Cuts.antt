-- ===== src/ChunkMaker/Cuts.antt =====
-- A round of AddData loses no data, and cuts chunks of the right sizes.
use mathlib.Core.List.{append_assoc, append-nil}
use duplicacy.Prelude.{
  ℕ, zero, suc, ◌+◌, ◌*◌, ◌≤◌, ◌<◌, length, take, length-append, length-take, take-append-drop, ◌≡◌,
  ◌≢◌, refl, ap, ◌∙◌, List, [], ◌∷◌, ◌++◌, Bool, Bool-cases, inl, inr, arith, true, false, ◌||◌,
}
use duplicacy.ChunkMaker.{
  Settings, ChunkMaker, Scan, fill, scan, start_new_chunk, at_boundary, at_maximum, shifted,
}
use duplicacy.ChunkMaker.AddData.{Round, send_chunk, scanned}
use duplicacy.ChunkMaker.Window.{
  contents, IsBuffer, chunk-fill, contents-fill, IsBuffer-fill, size-fill, length-contents,
}

-- The settings of the variable-sized algorithm.
pub record IsSound (s : Settings) : Type 0 where
  pub some_minimum : 0 < s.minimum_chunk_size
  pub below_maximum : s.minimum_chunk_size < s.maximum_chunk_size
  pub twice : s.buffer_capacity ≡ 2 * s.minimum_chunk_size

-- Between two rounds: a chunk has data only once the minimum is reached, and then a whole minimum is
-- in the buffer and does not make the chunk too long.
pub record IsMaker (s : Settings) (maker : ChunkMaker) : Type 0 where
  pub is_buffer : IsBuffer s maker
  pub fresh : maker.minimum_reached ≡ false → maker.chunk ≡ []
  pub enough : maker.minimum_reached ≡ true → s.minimum_chunk_size ≤ maker.buffer_size
  pub not_full :
      maker.minimum_reached ≡ true
      → length maker.chunk + s.minimum_chunk_size < s.maximum_chunk_size

-- The data that no chunk has taken away yet.
abbrev pub pending : ChunkMaker → List ℕ
pending maker = maker.chunk ++ contents maker

abbrev pub flatten : List (List ℕ) → List ℕ
flatten [] = []
flatten (chunk ∷ rest) = chunk ++ flatten rest

abbrev pub AllBounded : Settings → List (List ℕ) → Type 0
AllBounded s [] = Unit
AllBounded s (chunk ∷ rest) =
    (s.minimum_chunk_size ≤ length chunk)
    × (length chunk ≤ s.maximum_chunk_size)
    × AllBounded s rest

module _ (s : Settings) where
  pub pending-fill :
      (maker : ChunkMaker) (count : ℕ)
      → IsBuffer s maker
      → count ≤ maker.buffer_size
      → pending (fill s count maker) ≡ pending maker
  pending-fill maker count v c =
      rw (chunk-fill s maker v count c, contents-fill s maker v count c, append_assoc)
        (ap (λ t. maker.chunk ++ t) (take-append-drop count (contents maker)))

  pub length-chunk-fill :
      (maker : ChunkMaker) (count : ℕ)
      → IsBuffer s maker
      → count ≤ maker.buffer_size
      → length (fill s count maker).chunk ≡ length maker.chunk + count
  length-chunk-fill maker count v c = omega (
    arith,
    ap length (chunk-fill s maker v count c),
    length-append maker.chunk (take count (contents maker)),
    length-take count (contents maker),
    length-contents s maker v,
    c,
  )

  -- What the loop over the buffer stops at.
  pub record Scanned (maker : ChunkMaker) (r : Scan) : Type 0 where
    pub within : r.bytes ≤ maker.buffer_size
    pub cut_off :
        r.is_eoc ≡ true
        → (s.minimum_chunk_size < r.bytes) × (length maker.chunk + r.bytes ≤ s.maximum_chunk_size)
    pub all_of_it :
        r.is_eoc ≡ false
        → (r.bytes + s.minimum_chunk_size ≡ maker.buffer_size)
          × (length maker.chunk + s.minimum_chunk_size + r.bytes < s.maximum_chunk_size)

  pub scan-Scanned :
      (maker : ChunkMaker) (rounds i sum : ℕ)
      → i + rounds + s.minimum_chunk_size ≡ maker.buffer_size
      → length maker.chunk + s.minimum_chunk_size + i < s.maximum_chunk_size
      → Scanned maker (scan s maker rounds i sum)
  unfolding scan
  scan-Scanned maker zero i sum e h = record {
    within = omega arith;
    cut_off = λ eoc. absurd (cc);
    all_of_it = λ eoc. (omega arith, omega arith);
  }
  scan-Scanned maker (suc rounds) i sum e h =
      let next = shifted s maker sum i in
      elim (Bool-cases (at_boundary s next || at_maximum s maker i)) [
        | inl stop ↦ rw stop (record {
          within = omega arith;
          cut_off = λ eoc. (omega arith, omega arith);
          all_of_it = λ eoc. absurd (cc);
        })
        | inr go ↦ rw go (
            scan-Scanned maker rounds (i + 1) next (omega arith) (
              let free : i + 1 + s.minimum_chunk_size + length maker.chunk ≢ s.maximum_chunk_size =
                ground arith in
              omega arith))
      ]

-- What a round does to a maker, while there is a reader or more chunks to come.
pub record Cuts (s : Settings) (maker : ChunkMaker) (round : Round) : Type 0 where
  pub conserved : flatten round.sent ++ pending round.maker ≡ pending maker
  pub valid : IsMaker s round.maker
  pub bounded : AllBounded s round.sent
  pub shrinks : round.maker.buffer_size ≤ maker.buffer_size

module _ (s : Settings) (sound : IsSound s) where
  IsMaker-new : (maker : ChunkMaker) → IsBuffer s maker → IsMaker s (start_new_chunk maker)
  unfolding start_new_chunk
  IsMaker-new maker v = record {
    is_buffer = record { room = v.room; start_in = v.start_in; size_in = v.size_in };
    fresh = λ e. refl;
    enough = λ e. absurd (cc);
    not_full = λ e. absurd (cc);
  }

  -- A chunk of `count` more bytes is sent.
  pub Cuts-send :
      (maker : ChunkMaker) (count : ℕ) (finished : Bool)
      → IsBuffer s maker
      → count ≤ maker.buffer_size
      → s.minimum_chunk_size ≤ length maker.chunk + count
      → length maker.chunk + count ≤ s.maximum_chunk_size
      → Cuts s maker (send_chunk s (fill s count maker) finished)
  unfolding start_new_chunk
  Cuts-send maker count finished v c low high = record {
    conserved =
        ap (λ t. t ++ contents (fill s count maker)) (append-nil (fill s count maker).chunk)
        ∙ pending-fill s maker count v c;
    valid = IsMaker-new (fill s count maker) (IsBuffer-fill s maker v count c);
    bounded = (
      omega (arith, length-chunk-fill s maker count v c),
      omega (arith, length-chunk-fill s maker count v c),
      tt,
    );
    shrinks = omega (arith, size-fill s maker v count);
  }

  -- The data that a cut takes are those in the buffer and the chunk, whatever the hash is.
  pub Cuts-rehash :
      (maker : ChunkMaker) (sum : ℕ) (reached : Bool) (round : Round)
      → Cuts s (record maker { hash_sum = sum; minimum_reached = reached }) round
      → Cuts s maker round
  Cuts-rehash maker sum reached round c = record {
    conserved = c.conserved;
    valid = c.valid;
    bounded = c.bounded;
    shrinks = c.shrinks;
  }

  pub IsBuffer-rehash :
      (maker : ChunkMaker) (sum : ℕ) (reached : Bool)
      → IsBuffer s maker
      → IsBuffer s (record maker { hash_sum = sum; minimum_reached = reached })
  IsBuffer-rehash maker sum reached v = record {
    room = v.room;
    start_in = v.start_in;
    size_in = v.size_in;
  }

  -- The buffer was scanned to its end without a boundary.
  IsMaker-fill :
      (maker : ChunkMaker) (count : ℕ)
      → IsBuffer s maker
      → maker.minimum_reached ≡ true
      → count + s.minimum_chunk_size ≡ maker.buffer_size
      → length maker.chunk + s.minimum_chunk_size + count < s.maximum_chunk_size
      → IsMaker s (fill s count maker)
  unfolding fill
  IsMaker-fill maker count v reached e h = record {
    is_buffer = IsBuffer-fill s maker v count (omega arith);
    fresh = λ f. absurd (ground (arith, f, reached));
    enough = λ _. omega (arith, size-fill s maker v count);
    not_full = λ _. omega (arith, length-chunk-fill s maker count v (omega arith));
  }

  pub scanned-Cuts :
      (maker : ChunkMaker) (is_eof : Bool) (r : Scan) (eoc : Bool)
      → r.is_eoc ≡ eoc
      → IsBuffer s maker
      → maker.minimum_reached ≡ true
      → Scanned s maker r
      → Cuts s maker (scanned s true is_eof (fill s r.bytes maker) eoc)
  scanned-Cuts maker is_eof r true e v reached h =
      let off = h.cut_off e in
      Cuts-send maker r.bytes is_eof v h.within (omega (arith, off.0)) (off.1)
  scanned-Cuts maker is_eof r false e v reached h =
      let all = h.all_of_it e in
      record {
        conserved = pending-fill s maker r.bytes v h.within;
        valid = IsMaker-fill maker r.bytes v reached (all.0) (all.1);
        bounded = tt;
        shrinks = omega (arith, size-fill s maker v r.bytes);
      }
