-- ===== src/Backup/Upload.antt =====
-- Backup of src/duplicacy_backupmanager.go, the upload: the new and modified files go one after the
-- other to one chunk maker, which is flushed behind the last of them.
pub mod Stored
pub mod Cache
pub mod Recorded
use mathlib.Core.Option
use duplicacy.Prelude.{ℕ, List, [], ◌∷◌, ◌++◌, Option, none, some}
use duplicacy.ChunkMaker.{Settings, ChunkMaker}
use duplicacy.ChunkMaker.Fixed.{add_data, add_nothing}
use duplicacy.ChunkMaker.Reader.{Answer, Reading, Added, returns, gives_up}

-- What becomes of an entry: `not_opened` keeps it, `packed` has its size and the bytes of its hash,
-- and `denied` is a size of -1 and no hash, for cloudFileFailure.
pub data FileResult : Type 0 where
  not_opened : FileResult
  packed : ℕ → List ℕ → FileResult
  denied : FileResult

pub record Uploading : Type 0 where
  pub maker : ChunkMaker
  pub chunks : List (List ℕ)
  pub results : List FileResult

module _ (s : Settings) {R : Type 0} (read : R → ℕ → Answer R) where
  -- What this file adds before the files that come after it.
  abbrev pub with_file : List (List ℕ) → FileResult → Option Uploading → Option Uploading
  with_file sent result none = none
  with_file sent result (some more) =
      some (record more { chunks = sent ++ more.chunks; results = result ∷ more.results })

  abbrev pub with_added : (ChunkMaker → Option Uploading) → Option (Added R) → Option Uploading
  with_added next none = none
  with_added next (some (returns to sent)) =
      with_file sent (packed to.file_size to.hashed) (next to.maker)
  with_added next (some (gives_up to sent)) = with_file sent denied (next to.maker)

  abbrev pub last_chunks : ChunkMaker × List (List ℕ) → Uploading
  last_chunks (maker, sent) = record { maker = maker; chunks = sent; results = [] }

  -- The loop over the modified entries, each with the file that could be opened, and the flush.
  unfoldable pub upload_files : ℕ → List (Option R) → ChunkMaker → Option Uploading
  unfolding add_data add_nothing
  upload_files fuel [] maker = Option.map last_chunks (add_nothing s fuel maker)
  upload_files fuel (none ∷ files) maker = with_file [] not_opened (upload_files fuel files maker)
  upload_files fuel (some reader ∷ files) maker =
      with_added (upload_files fuel files) (add_data s read fuel reader maker)
