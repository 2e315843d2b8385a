-- ===== src/ChunkMaker/Fixed.antt =====
-- AddData of src/duplicacy_chunkmaker.go where the minimum and the maximum are the same, so that all
-- chunks but the last have that size, and AddData as a whole. The buffer does not go round here.
pub mod Filling
pub mod Sizes
pub mod Chunks
use duplicacy.Prelude.{
  ℕ, zero, suc, ◌+◌, ◌-◌, ltb, length, take, drop, List, [], ◌∷◌, ◌++◌, Option, none, some, Bool,
  true, false, not, ◌&&◌, ◌==◌, if◌then◌else◌,
}
use duplicacy.ChunkMaker.{Settings, ChunkMaker, start_new_chunk}
use duplicacy.ChunkMaker.Reader.{
  Answer, got, got_last, failed, Reading, Reads, read_on, read_failed, Added, returns, gives_up,
  after_sending, and_then, start_reading, add_variable,
}
use duplicacy.ChunkMaker.AddData.{flush}

module _ (s : Settings) {R : Type 0} (read : R → ℕ → Answer R) where
  -- The bytes that were read for the chunk.
  abbrev pub taken : Reading R → List ℕ
  taken reading = take reading.maker.buffer_start reading.maker.buffer

  unfoldable pub put_bytes : List ℕ → ChunkMaker → ChunkMaker
  put_bytes bytes maker =
      let start = maker.buffer_start in
      record maker {
        buffer = (take start maker.buffer ++ bytes) ++ drop (start + length bytes) maker.buffer;
        buffer_start = start + length bytes;
      }

  abbrev pub put_read : List ℕ → R → Bool → Reading R → Reading R
  put_read bytes reader is_eof reading = record reading {
    maker = put_bytes bytes reading.maker;
    reader = reader;
    is_eof = is_eof;
  }

  abbrev pub put_answer : Answer R → Reading R → Reads R
  put_answer (got bytes reader) reading = read_on (put_read bytes reader false reading)
  put_answer (got_last bytes reader) reading = read_on (put_read bytes reader true reading)
  put_answer failed reading = read_failed reading

  abbrev pub chunk_room : Reading R → ℕ
  chunk_room reading = s.minimum_chunk_size - reading.maker.buffer_start

  abbrev pub chunk_wants_more : Reading R → Bool
  chunk_wants_more reading =
      ltb reading.maker.buffer_start s.minimum_chunk_size && not reading.is_eof

  abbrev pub put_or_stop : (Reading R → Option (Reads R)) → Reading R → Bool → Option (Reads R)
  put_or_stop next reading true =
      and_then s read next (put_answer (read reading.reader (chunk_room reading)) reading)
  put_or_stop next reading false = some (read_on reading)

  -- The loop that reads the bytes of a chunk.
  unfoldable pub fill_chunk : ℕ → Reading R → Option (Reads R)
  unfolding put_bytes
  fill_chunk zero reading = none
  fill_chunk (suc fuel) reading = put_or_stop (fill_chunk fuel) reading (chunk_wants_more reading)

  -- The start of a round of the outer loop.
  abbrev pub begin_chunk : Reading R → Reading R
  begin_chunk reading = record reading {
    maker = record (start_new_chunk reading.maker) { buffer_start = 0 };
  }

  -- What was read is hashed and becomes the chunk, unless it is nothing.
  abbrev pub write_chunk : Reading R → Reading R
  write_chunk reading = record reading {
    maker = record reading.maker { chunk = reading.maker.chunk ++ taken reading };
    hashed = reading.hashed ++ taken reading;
    file_size = reading.file_size + reading.maker.buffer_start;
  }

  abbrev pub end_chunk :
      (Reading R → Option (Added R)) → Reading R → List (List ℕ) → Bool → Option (Added R)
  end_chunk add reading sent true = some (returns reading sent)
  end_chunk add reading sent false = after_sending s read sent (add reading)

  abbrev pub chunk_round : (Reading R → Option (Added R)) → Option (Reads R) → Option (Added R)
  chunk_round add none = none
  chunk_round add (some (read_failed reading)) = some (gives_up reading [])
  chunk_round add (some (read_on reading)) =
      if ltb 0 reading.maker.buffer_start
      then end_chunk add (write_chunk reading) ((write_chunk reading).maker.chunk ∷ [])
          reading.is_eof
      else end_chunk add reading [] reading.is_eof

  unfoldable pub add_fixed : ℕ → Reading R → Option (Added R)
  unfolding fill_chunk start_new_chunk
  add_fixed zero reading = none
  add_fixed (suc fuel) reading =
      chunk_round (add_fixed fuel) (fill_chunk fuel (begin_chunk reading))

  -- AddData with a reader.
  unfoldable pub add_data : ℕ → R → ChunkMaker → Option (Added R)
  unfolding add_fixed add_variable
  add_data fuel reader maker =
      if s.minimum_chunk_size == s.maximum_chunk_size
      then add_fixed fuel (start_reading reader maker)
      else add_variable s read fuel reader maker

-- AddData without a reader.
unfoldable pub add_nothing : Settings → ℕ → ChunkMaker → Option (ChunkMaker × List (List ℕ))
unfolding flush
add_nothing s fuel maker =
    if s.minimum_chunk_size == s.maximum_chunk_size then some (maker, []) else flush s fuel maker
