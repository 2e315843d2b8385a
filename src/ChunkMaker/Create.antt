-- ===== src/ChunkMaker/Create.antt =====
-- CreateFileChunkMaker and CreateMetaDataChunkMaker of src/duplicacy_chunkmaker.go.
use duplicacy.Prelude.{
  ℕ, zero, suc, ◌+◌, ◌-◌, ◌*◌, ◌/◌, ◌==◌, leb, take, drop, get_or, replicate, List, [], ◌∷◌, ◌++◌,
  Option, none, some, Bool, false, if◌then◌else◌,
}
use duplicacy.ChunkMaker.{Settings, ChunkMaker, start_new_chunk}

-- What the chunk maker reads of the configuration; `chunk_seed` are bytes.
pub record Config : Type 0 where
  pub average_chunk_size : ℕ
  pub maximum_chunk_size : ℕ
  pub minimum_chunk_size : ℕ
  pub chunk_seed : List ℕ

-- The loop that doubles `size` as long as it is no more than `average`. It starts from 1, so that it
-- makes fewer rounds than `average`. The `int` of the source does not overflow for an average below
-- 2^62.
unfoldable pub double_up : ℕ → ℕ → ℕ → ℕ
double_up zero size average = size
double_up (suc fuel) size average =
    let rest = double_up fuel (size * 2) average in if leb (size * 2) average then rest else size

abbrev pub is_power_of_2 : ℕ → Bool
is_power_of_2 average = double_up average 1 average == average

-- A word of 64 bits, from its bytes, the lowest first.
abbrev pub word : List ℕ → ℕ
word [] = 0
word (byte ∷ bytes) = byte + 256 * word bytes

module _ (sha256 : List ℕ → List ℕ) where
  abbrev pub words : List ℕ → List ℕ
  words bytes =
      word (take 8 bytes)
      ∷ word (take 8 (drop 8 bytes))
      ∷ word (take 8 (drop 16 bytes))
      ∷ word (take 8 (drop 24 bytes))
      ∷ []

  -- Four words from each hash, and the hash of the hash for the next four.
  unfoldable pub random_words : ℕ → List ℕ → List ℕ
  random_words zero bytes = []
  random_words (suc rounds) bytes = words bytes ++ random_words rounds (sha256 bytes)

  abbrev pub settings_of : Config → Settings
  settings_of config = record {
    maximum_chunk_size = config.maximum_chunk_size;
    minimum_chunk_size = config.minimum_chunk_size;
    buffer_capacity = 2 * config.minimum_chunk_size;
    hash_mask = config.average_chunk_size - 1;
    random_table = λ byte. get_or (random_words 64 (sha256 config.chunk_seed)) byte 0;
  }

  abbrev pub maker_of : ℕ → ChunkMaker
  maker_of minimum = start_new_chunk (record {
    buffer = replicate (2 * minimum) 0;
    buffer_size = 0;
    buffer_start = 0;
    minimum_reached = false;
    hash_sum = 0;
    chunk = [];
  })

  -- `none` is LOG_FATAL.
  unfoldable pub create_file_chunk_maker : Config → Option (Settings × ChunkMaker)
  unfolding double_up random_words start_new_chunk
  create_file_chunk_maker config =
      if is_power_of_2 config.average_chunk_size
      then some (settings_of config, maker_of config.minimum_chunk_size)
      else none

  abbrev pub for_metadata : ℕ → Settings × ChunkMaker → Settings × ChunkMaker
  for_metadata chunk_size (s, maker) = (
    record s {
      hash_mask = chunk_size - 1;
      maximum_chunk_size = chunk_size * 4;
      minimum_chunk_size = chunk_size / 4;
      buffer_capacity = 2 * (chunk_size / 4);
    },
    record maker { buffer = replicate (2 * (chunk_size / 4)) 0 },
  )

  abbrev pub map_maker :
      (Settings × ChunkMaker → Settings × ChunkMaker)
      → Option (Settings × ChunkMaker)
      → Option (Settings × ChunkMaker)
  map_maker f none = none
  map_maker f (some made) = some (f made)

  unfoldable pub create_metadata_chunk_maker : Config → ℕ → Option (Settings × ChunkMaker)
  unfolding create_file_chunk_maker double_up
  create_metadata_chunk_maker config chunk_size =
      if is_power_of_2 chunk_size
      then map_maker (for_metadata chunk_size) (create_file_chunk_maker config)
      else none
