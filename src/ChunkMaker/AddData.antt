-- ===== src/ChunkMaker/AddData.antt =====
-- AddData of src/duplicacy_chunkmaker.go: read into the buffer, and cut chunks off it.
use duplicacy.Prelude.{
  ℕ, zero, suc, ◌-◌, ltb, is_empty, List, [], ◌∷◌, ◌++◌, Option, none, some, Bool, true, false,
  if◌then◌else◌,
}
use duplicacy.ChunkMaker.{Settings, ChunkMaker, start_new_chunk, fill, first_sum, at_boundary, scan}

-- What a round leaves: the maker, the chunks that it sent, and whether AddData returns.
pub record Round : Type 0 where
  pub maker : ChunkMaker
  pub sent : List (List ℕ)
  pub finished : Bool

module _ (s : Settings) where
  abbrev pub send_chunk : ChunkMaker → Bool → Round
  send_chunk maker finished = record {
    maker = start_new_chunk maker;
    sent = maker.chunk ∷ [];
    finished = finished;
  }

  -- The end of a file without a chunk boundary, or more data needed for one.
  abbrev pub scanned : Bool → Bool → ChunkMaker → Bool → Round
  scanned has_reader is_eof maker true = send_chunk maker is_eof
  scanned true is_eof maker false = record { maker = maker; sent = []; finished = is_eof }
  scanned false is_eof maker false = send_chunk (fill s s.minimum_chunk_size maker) true

  -- From "Now check the buzhash of the data in the buffer" on.
  unfoldable pub scan_buffer : Bool → Bool → ChunkMaker → Round
  unfolding scan fill start_new_chunk
  scan_buffer has_reader is_eof maker =
      let r = scan s maker (maker.buffer_size - s.minimum_chunk_size) 0 maker.hash_sum in
      scanned has_reader is_eof (fill s r.bytes (record maker { hash_sum = r.sum })) r.is_eoc

  -- Less than a minimum chunk is there. The last chunk stays in the maker after it was sent.
  unfoldable pub too_little : Bool → Bool → ChunkMaker → Round
  unfolding fill
  too_little true is_eof maker = record { maker = maker; sent = []; finished = is_eof }
  too_little false is_eof maker =
      let last = fill s maker.buffer_size maker in
      record {
        maker = last;
        sent = if is_empty last.chunk then [] else last.chunk ∷ [];
        finished = true;
      }

  -- A round of the loop, after the reads.
  unfoldable pub cut : Bool → Bool → ChunkMaker → Round
  unfolding scan_buffer too_little first_sum fill start_new_chunk
  cut has_reader is_eof maker =
      let sum = first_sum s maker in
      let summed = record maker { hash_sum = sum } in
      let reached = record summed { minimum_reached = true } in
      if ltb maker.buffer_size s.minimum_chunk_size
      then too_little has_reader is_eof maker
      else if maker.minimum_reached
      then scan_buffer has_reader is_eof maker
      else if at_boundary s sum
      then send_chunk (fill s s.minimum_chunk_size summed) false
      else scan_buffer has_reader is_eof reached

  -- The chunks of this round come before those of the rest.
  abbrev pub before :
      List (List ℕ) → Option (ChunkMaker × List (List ℕ)) → Option (ChunkMaker × List (List ℕ))
  before sent none = none
  before sent (some (maker, more)) = some (maker, sent ++ more)

  -- AddData without a reader, which flushes the maker; `none` means that the fuel ran out.
  unfoldable pub flush : ℕ → ChunkMaker → Option (ChunkMaker × List (List ℕ))
  unfolding cut
  flush zero maker = none
  flush (suc fuel) maker =
      let round = cut false false maker in
      let rest = flush fuel round.maker in
      if round.finished then some (round.maker, round.sent) else before round.sent rest
