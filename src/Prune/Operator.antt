-- ===== src/Prune/Operator.antt =====
-- The tasks of src/duplicacy_chunkoperator.go that move and remove the files of chunks, over the
-- set of files of a storage, and FindChunk of src/duplicacy_storage.go. DeleteFile and MoveFile are
-- those of src/duplicacy_filestorage.go: MoveFile fails where the file to move is missing, and where
-- the directory of the path to move it to is.
pub mod Moved
pub mod Available
use duplicacy.Prelude.{
  ℕ, zero, suc, ◌==◌, take, drop, List, [], ◌∷◌, ◌++◌, Option, none, some, if◌then◌else◌, Bool,
  true, false, is_empty, ◌&&◌, ◌||◌,
}
use duplicacy.Prelude.Bytes.{eq_text}
use duplicacy.Prelude.Tables.{contains}
use duplicacy.Entry.{Text}
use duplicacy.Prune.{Task, delete, fossilize, resurrect}
use duplicacy.Prune.Exhaustive.{chunk_dir, fsl_suffix}

-- The files of the storage, its directories that may hold no file, each with a final slash, and the
-- fossils that the operator has collected.
pub record Operator : Type 0 where
  pub files : List Text
  pub directories : List Text
  pub fossils : List Text

abbrev pub has_slash : Text → Bool
has_slash [] = false
has_slash (c ∷ cs) = c == b'/' || has_slash cs

-- A path up to its last slash.
unfoldable pub directory_of : Text → Text
directory_of [] = []
directory_of (c ∷ cs) = if has_slash (c ∷ cs) then c ∷ directory_of cs else []

abbrev pub is_below : Text → Text → Bool
is_below [] path = true
is_below (c ∷ cs) [] = false
is_below (c ∷ cs) (d ∷ path) = c == d && is_below cs path

abbrev pub is_any_below : Text → List Text → Bool
is_any_below dir [] = false
is_any_below dir (path ∷ paths) = is_below dir path || is_any_below dir paths

-- A directory is there with what is below it.
unfoldable pub has_directory : Text → Operator → Bool
has_directory dir operator =
    is_any_below dir operator.files || is_any_below dir operator.directories

-- The slices of the source are out of range for an id of less than two bytes for each level; the ids
-- of chunks are the hex digits of hashes.
unfoldable pub nest : ℕ → Text → Text
nest zero id = id
nest (suc level) id = take 2 id ++ b'/' ∷ nest level (drop 2 id)

unfoldable pub path_at : ℕ → Text → Bool → Text
unfolding nest
path_at level id true = chunk_dir ++ nest level id ++ fsl_suffix
path_at level id false = chunk_dir ++ nest level id

unfoldable pub delete_file : Text → List Text → List Text
unfolding eq_text
delete_file path [] = []
delete_file path (file ∷ files) =
    if eq_text path file then delete_file path files else file ∷ delete_file path files

-- The directory of a file outlives it.
unfoldable pub remove_file : Text → Operator → Operator
unfolding contains delete_file directory_of
remove_file path operator = record operator {
  files = delete_file path operator.files;
  directories =
      if contains path operator.files
      then directory_of path ∷ operator.directories
      else operator.directories;
}

-- `none` is an error.
unfoldable pub move_file : Text → Text → Operator → Option Operator
unfolding contains remove_file has_directory directory_of
move_file path to operator =
    if contains path operator.files && has_directory (directory_of to) operator
    then (let removed = remove_file path operator in
        some (record removed { files = to ∷ removed.files }))
    else none

-- `missing` has the path where the chunk would be written, and `invalid` is a write level that is
-- not among the read levels.
pub data Location : Type 0 where
  found missing : Text → Location
  invalid : Location

module _ (read_levels : List ℕ) (write_level : ℕ) where
  unfoldable pub write_path : List ℕ → Text → Bool → Location
  unfolding path_at
  write_path [] id is_fossil = invalid
  write_path (level ∷ levels) id is_fossil =
      if write_level == level
      then missing (path_at level id is_fossil)
      else write_path levels id is_fossil

  unfoldable pub find_at : List ℕ → Text → Bool → List Text → Location
  unfolding path_at contains write_path
  find_at [] id is_fossil files = write_path read_levels id is_fossil
  find_at (level ∷ levels) id is_fossil files =
      let path = path_at level id is_fossil in
      if contains path files then found path else find_at levels id is_fossil files

  abbrev pub find_chunk : Text → Bool → List Text → Location
  find_chunk id is_fossil files = find_at read_levels id is_fossil files

  abbrev pub with_fossil_at : Text → Operator → Operator
  with_fossil_at path operator = record operator { fossils = operator.fossils ++ path ∷ [] }

  -- A fossil that is there already is taken in place of the chunk; `none` is an error.
  abbrev pub collect_fossil : Text → Text → Location → Operator → Option Operator
  collect_fossil path to (found fossil) operator =
      some (with_fossil_at to (remove_file path operator))
  collect_fossil path to (missing fossil) operator = none
  collect_fossil path to invalid operator = none

  abbrev pub collect_found : Location → Operator → Option Operator
  collect_found (found fossil) operator = some (with_fossil_at fossil operator)
  collect_found (missing fossil) operator = none
  collect_found invalid operator = none

  unfoldable pub fossilize_file : Text → Text → Operator → Option Operator
  unfolding move_file remove_file find_at
  fossilize_file id path operator = elim (move_file path (path ++ fsl_suffix) operator) [
    | some moved ↦ some (with_fossil_at (path ++ fsl_suffix) moved)
    | none ↦ collect_fossil path (path ++ fsl_suffix) (find_chunk id true operator.files) operator
  ]

  abbrev pub fossilize_at : Text → Location → Operator → Option Operator
  fossilize_at id (found path) operator = fossilize_file id path operator
  fossilize_at id (missing path) operator =
      collect_found (find_chunk id true operator.files) operator
  fossilize_at id invalid operator = none

  abbrev pub delete_at : Location → Operator → Option Operator
  delete_at (found path) operator = some (remove_file path operator)
  delete_at (missing path) operator = some operator
  delete_at invalid operator = none

  abbrev pub resurrect_at : Text → Location → Operator → Option Operator
  resurrect_at fossil (found path) operator = some (remove_file fossil operator)
  resurrect_at fossil (missing path) operator = move_file fossil path operator
  resurrect_at fossil invalid operator = none

  -- The path of a task may be empty, and is then looked up.
  unfoldable pub run_task : Task → Operator → Option Operator
  unfolding fossilize_file find_at move_file remove_file
  run_task (delete id path) operator =
      if is_empty path
      then delete_at (find_chunk id false operator.files) operator
      else some (remove_file path operator)
  run_task (fossilize id path) operator =
      if is_empty path
      then fossilize_at id (find_chunk id false operator.files) operator
      else fossilize_file id path operator
  run_task (resurrect id path) operator =
      resurrect_at path (find_chunk id false operator.files) operator
