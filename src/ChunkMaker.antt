-- ===== src/ChunkMaker.antt =====
-- src/duplicacy_chunkmaker.go: a stream of bytes is cut into chunks where a rolling hash of the last
-- bytes has zeros, so that the same data gives the same chunks wherever it stands.
pub mod AddData
pub mod Window
pub mod Cuts
pub mod Rounds
pub mod Flush
pub mod Flushed
pub mod Progress
pub mod Reader
pub mod Store
pub mod Reads
pub mod Files
pub mod Fixed
pub mod Create
pub mod Created
use Prim.Native.Nat.{bit_and, bit_or, bit_xor}
use duplicacy.Prelude.{
  ℕ, zero, suc, ◌+◌, ◌-◌, ◌*◌, ◌/◌, ◌%◌, ◌^◌, ◌==◌, ltb, length, take, drop, get_or, List, [], ◌∷◌,
  ◌++◌, Bool, true, false, if◌then◌else◌, ◌||◌,
}

-- What does not change while data are added. `random_table` has a word for each byte, and
-- `buffer_capacity` is 2 * minimum_chunk_size.
pub record Settings : Type 0 where
  pub maximum_chunk_size : ℕ
  pub minimum_chunk_size : ℕ
  pub buffer_capacity : ℕ
  pub hash_mask : ℕ
  pub random_table : ℕ → ℕ

-- `buffer` goes round at its end; the chunk is the bytes written to it.
pub record ChunkMaker : Type 0 where
  pub buffer : List ℕ
  pub buffer_size : ℕ
  pub buffer_start : ℕ
  pub minimum_reached : Bool
  pub hash_sum : ℕ
  pub chunk : List ℕ

-- What the loop over the buffer ends with: `bytes` are for the chunk, which ends there if `is_eoc`.
pub record Scan : Type 0 where
  pub sum : ℕ
  pub bytes : ℕ
  pub is_eoc : Bool

-- Words of 64 bits.
unfoldable pub rotate_left : ℕ → ℕ → ℕ
rotate_left value bits = bit_or (value * 2 ^ (bits % 64) % 2 ^ 64) (value / 2 ^ (64 - bits % 64))

unfoldable pub rotate_left_by_one : ℕ → ℕ
rotate_left_by_one value = bit_or (value * 2 % 2 ^ 64) (value / 2 ^ 63)

unfoldable pub start_new_chunk : ChunkMaker → ChunkMaker
start_new_chunk maker = record maker { hash_sum = 0; minimum_reached = false; chunk = [] }

module _ (s : Settings) where
  unfoldable pub buzhash_sum : ℕ → List ℕ → ℕ
  unfolding rotate_left_by_one
  buzhash_sum sum [] = sum
  buzhash_sum sum (byte ∷ bytes) =
      buzhash_sum (bit_xor (rotate_left_by_one sum) (s.random_table byte)) bytes

  unfoldable pub buzhash_update : ℕ → ℕ → ℕ → ℕ → ℕ
  unfolding rotate_left_by_one rotate_left
  buzhash_update sum out into len =
      bit_xor (bit_xor (rotate_left_by_one sum) (rotate_left (s.random_table out) len))
        (s.random_table into)

  -- Moves data from the buffer to the chunk.
  unfoldable pub fill : ℕ → ChunkMaker → ChunkMaker
  fill count maker =
      let start = maker.buffer_start in
      let before_end = s.buffer_capacity - start in
      if ltb (start + count) s.buffer_capacity
      then record maker {
        chunk = maker.chunk ++ take count (drop start maker.buffer);
        buffer_start = start + count;
        buffer_size = maker.buffer_size - count;
      }
      else record maker {
        chunk = (maker.chunk ++ drop start maker.buffer) ++ take (count - before_end) maker.buffer;
        buffer_start = count - before_end;
        buffer_size = maker.buffer_size - count;
      }

  -- The hash of the first `minimum_chunk_size` bytes of the buffer.
  unfoldable pub first_sum : ChunkMaker → ℕ
  unfolding buzhash_sum
  first_sum maker =
      let bytes = s.minimum_chunk_size in
      let start = maker.buffer_start in
      if ltb (start + bytes) s.buffer_capacity
      then buzhash_sum 0 (take bytes (drop start maker.buffer))
      else buzhash_sum (buzhash_sum 0 (drop start maker.buffer))
          (take (bytes - (s.buffer_capacity - start)) maker.buffer)

  abbrev pub at_boundary : ℕ → Bool
  at_boundary sum = bit_and sum s.hash_mask == 0

  -- Where byte `i` of the data in the buffer stands.
  abbrev pub position : ChunkMaker → ℕ → ℕ
  position maker i =
      let p = maker.buffer_start + i in if ltb p s.buffer_capacity then p else p - s.buffer_capacity

  -- The hash after byte `i` has left the window.
  abbrev pub shifted : ChunkMaker → ℕ → ℕ → ℕ
  shifted maker sum i =
      buzhash_update sum (get_or maker.buffer (position maker i) 0)
        (get_or maker.buffer (position maker (i + s.minimum_chunk_size)) 0) s.minimum_chunk_size

  -- `i == maxSize-maker.minimumChunkSize-1`, without the subtractions, which may go below 0.
  abbrev pub at_maximum : ChunkMaker → ℕ → Bool
  at_maximum maker i = i + 1 + s.minimum_chunk_size + length maker.chunk == s.maximum_chunk_size

  -- The loop that shifts the hash by one byte at a time, from `i` on, for the rounds that are left.
  unfoldable pub scan : ChunkMaker → ℕ → ℕ → ℕ → Scan
  unfolding buzhash_update
  scan maker zero i sum = record { sum = sum; bytes = i; is_eoc = false }
  scan maker (suc rounds) i sum =
      let next = shifted maker sum i in
      let rest = scan maker rounds (i + 1) next in
      if at_boundary next || at_maximum maker i
      then record { sum = next; bytes = i + 1 + s.minimum_chunk_size; is_eoc = true }
      else rest
