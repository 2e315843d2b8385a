-- ===== src/ChunkMaker/Reader.antt =====
-- AddData of src/duplicacy_chunkmaker.go with a reader: the reads that fill the buffer, and the loop.
use duplicacy.Prelude.{
  ℕ, zero, suc, ◌+◌, ◌-◌, ltb, length, take, drop, List, [], ◌++◌, Option, none, some, Bool, true,
  false, not, ◌&&◌, if◌then◌else◌,
}
use duplicacy.ChunkMaker.{Settings, ChunkMaker}
use duplicacy.ChunkMaker.AddData.{Round, cut}

-- What a call of Read answers: some bytes, some bytes and io.EOF, or another error. A reader is what
-- its next answers depend on.
pub data Answer (R : Type 0) : Type 0 where
  got : List ℕ → R → Answer R
  got_last : List ℕ → R → Answer R
  failed : Answer R

-- The variables of AddData; `hashed` are the bytes that were written to the file hasher.
pub record Reading (R : Type 0) : Type 0 where
  pub maker : ChunkMaker
  pub reader : R
  pub hashed : List ℕ
  pub file_size : ℕ
  pub is_eof : Bool

-- `read_failed` is the return of -1 with cloudFileFailure, or the panic of LOG_ERROR.
pub data Reads (R : Type 0) : Type 0 where
  read_on : Reading R → Reads R
  read_failed : Reading R → Reads R

-- What AddData returns, with the chunks that it sent; where it gives up, the maker keeps what was read.
pub data Added (R : Type 0) : Type 0 where
  returns : Reading R → List (List ℕ) → Added R
  gives_up : Reading R → List (List ℕ) → Added R

abbrev pub start_reading : {R : Type 0} → R → ChunkMaker → Reading R
start_reading reader maker = record {
  maker = maker;
  reader = reader;
  hashed = [];
  file_size = 0;
  is_eof = false;
}

module _ (s : Settings) where
  -- Where in the buffer the next bytes go, and how many there is room for.
  abbrev pub read_start : ChunkMaker → ℕ
  read_start maker =
      let start = maker.buffer_start + maker.buffer_size in
      if ltb start s.buffer_capacity then start else start - s.buffer_capacity

  abbrev pub read_room : ChunkMaker → ℕ
  read_room maker =
      let start = maker.buffer_start + maker.buffer_size in
      if ltb start s.buffer_capacity
      then s.buffer_capacity - start
      else maker.buffer_start - (start - s.buffer_capacity)

  -- The reader has written to the buffer.
  unfoldable pub store : List ℕ → ChunkMaker → ChunkMaker
  store bytes maker =
      let start = read_start maker in
      record maker {
        buffer = (take start maker.buffer ++ bytes) ++ drop (start + length bytes) maker.buffer;
        buffer_size = maker.buffer_size + length bytes;
      }

  module _ {R : Type 0} (read : R → ℕ → Answer R) where
    abbrev pub stored : List ℕ → R → Bool → Reading R → Reading R
    stored bytes reader is_eof reading = record {
      maker = store bytes reading.maker;
      reader = reader;
      hashed = reading.hashed ++ bytes;
      file_size = reading.file_size + length bytes;
      is_eof = is_eof;
    }

    abbrev pub answered : Answer R → Reading R → Reads R
    answered (got bytes reader) reading = read_on (stored bytes reader false reading)
    answered (got_last bytes reader) reading = read_on (stored bytes reader true reading)
    answered failed reading = read_failed reading

    abbrev pub read_once : Reading R → Reads R
    read_once reading = answered (read reading.reader (read_room reading.maker)) reading

    abbrev pub wants_more : Reading R → Bool
    wants_more reading = ltb reading.maker.buffer_size s.buffer_capacity && not reading.is_eof

    abbrev pub and_then : (Reading R → Option (Reads R)) → Reads R → Option (Reads R)
    and_then next (read_on reading) = next reading
    and_then next (read_failed reading) = some (read_failed reading)

    abbrev pub read_or_stop : (Reading R → Option (Reads R)) → Reading R → Bool → Option (Reads R)
    read_or_stop next reading true = and_then next (read_once reading)
    read_or_stop next reading false = some (read_on reading)

    -- The loop that reads, as long as there is room and no end; `none` means that the fuel ran out.
    unfoldable pub fill_buffer : ℕ → Reading R → Option (Reads R)
    unfolding store
    fill_buffer zero reading = none
    fill_buffer (suc fuel) reading = read_or_stop (fill_buffer fuel) reading (wants_more reading)

    abbrev pub after_sending : List (List ℕ) → Option (Added R) → Option (Added R)
    after_sending sent none = none
    after_sending sent (some (returns reading more)) = some (returns reading (sent ++ more))
    after_sending sent (some (gives_up reading more)) = some (gives_up reading (sent ++ more))

    -- The end of a round: it returns, or there is another.
    abbrev pub next_round :
        (Reading R → Option (Added R)) → Reading R → Round → Bool → Option (Added R)
    next_round add reading round true =
        some (returns (record reading { maker = round.maker }) round.sent)
    next_round add reading round false =
        after_sending round.sent (add (record reading { maker = round.maker }))

    unfoldable pub add_round : (Reading R → Option (Added R)) → Option (Reads R) → Option (Added R)
    unfolding cut
    add_round add none = none
    add_round add (some (read_failed reading)) = some (gives_up reading [])
    add_round add (some (read_on reading)) =
        let round = cut s true reading.is_eof reading.maker in
        next_round add reading round round.finished

    unfoldable pub add_reading : ℕ → Reading R → Option (Added R)
    unfolding fill_buffer add_round
    add_reading zero reading = none
    add_reading (suc fuel) reading = add_round (add_reading fuel) (fill_buffer fuel reading)

    -- AddData with a reader, where the minimum is not the maximum.
    unfoldable pub add_variable : ℕ → R → ChunkMaker → Option (Added R)
    unfolding add_reading
    add_variable fuel reader maker = add_reading fuel (start_reading reader maker)
