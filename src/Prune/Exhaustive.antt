-- ===== src/Prune/Exhaustive.antt =====
-- pruneSnapshotsExhaustive of src/duplicacy_snapshotmanager.go: the walk over every file below
-- chunks/ of the storage.
pub mod Left
pub mod Copies
pub mod Collected
use duplicacy.Prelude.{
  ℕ, ◌==◌, leb, List, [], ◌∷◌, ◌++◌, Option, none, some, if◌then◌else◌, Bool, true, false, not,
  ◌&&◌, ◌||◌,
}
use duplicacy.Prelude.Bytes.{eq_text}
use duplicacy.Prelude.Tables.{contains, lookup, put}
use duplicacy.Entry.{Text}
use duplicacy.Prune.{Snapshot, Snapshots, Task, delete, resurrect, fossilize_chunk}
use duplicacy.Prune.Unreferenced.{Targets, partition_snapshots, add_targets, concat_chunks}

-- strings.HasSuffix and strings.TrimSuffix, for a suffix that is not empty.
unfoldable pub has_suffix : Text → Text → Bool
unfolding eq_text
has_suffix suffix [] = false
has_suffix suffix (c ∷ cs) = eq_text (c ∷ cs) suffix || has_suffix suffix cs

unfoldable pub trim_suffix : Text → Text → Text
unfolding eq_text
trim_suffix suffix [] = []
trim_suffix suffix (c ∷ cs) = if eq_text (c ∷ cs) suffix then [] else c ∷ trim_suffix suffix cs

unfoldable pub chunk_id_from_listed_path : Text → Text
chunk_id_from_listed_path [] = []
chunk_id_from_listed_path (c ∷ cs) =
    let rest = chunk_id_from_listed_path cs in if c == b'/' then rest else c ∷ rest

abbrev is_hex_digit : ℕ → Bool
is_hex_digit c = leb b'0' c && leb c b'9' || leb b'a' c && leb c b'f'

-- The regular expression `^[0-9a-f]+$`, past its first byte.
abbrev are_hex_digits : Text → Bool
are_hex_digits [] = true
are_hex_digits (c ∷ cs) = is_hex_digit c && are_hex_digits cs

unfoldable pub is_chunk_id : Text → Bool
is_chunk_id [] = false
is_chunk_id (c ∷ cs) = is_hex_digit c && are_hex_digits cs

abbrev pub chunk_dir : Text
chunk_dir = b'c' ∷ b'h' ∷ b'u' ∷ b'n' ∷ b'k' ∷ b's' ∷ b'/' ∷ []

abbrev tmp_suffix : Text
tmp_suffix = b'.' ∷ b't' ∷ b'm' ∷ b'p' ∷ []

abbrev pub fsl_suffix : Text
fsl_suffix = b'.' ∷ b'f' ∷ b's' ∷ b'l' ∷ []

-- What a listed path is taken for.
pub data FileKind : Type 0 where
  directory temporary unknown : FileKind
  fossil chunk : Text → FileKind

abbrev is_directory : Text → Bool
is_directory [] = true
is_directory (c ∷ []) = c == b'/'
is_directory (c ∷ d ∷ cs) = is_directory (d ∷ cs)

unfoldable pub kind_of_file : Text → FileKind
unfolding has_suffix trim_suffix chunk_id_from_listed_path is_chunk_id
kind_of_file file =
    let id = chunk_id_from_listed_path file in
    if is_directory file
    then directory
    else if has_suffix tmp_suffix file
    then temporary
    else if has_suffix fsl_suffix file
    then fossil (trim_suffix fsl_suffix id)
    else if is_chunk_id id
    then chunk id
    else unknown

-- What the walk leaves: the tasks, and the additions to the collection.
pub record Sweep : Type 0 where
  pub tasks : List Task
  pub fossils : List Text
  pub temporaries : List Text

abbrev pub with_task : Bool → Task → Sweep → Sweep
with_task true task sweep = sweep
with_task false task sweep = record sweep { tasks = task ∷ sweep.tasks }

abbrev pub with_temporary : Text → Sweep → Sweep
with_temporary file sweep = record sweep { temporaries = file ∷ sweep.temporaries }

abbrev pub with_fossil : Text → Sweep → Sweep
with_fossil file sweep = record sweep { fossils = file ∷ sweep.fossils }

module _ (dry_run exclusive : Bool) (referenced_fossils : List Text) where
  abbrev pub sweep_temporary : Text → Sweep → Sweep
  sweep_temporary file rest =
      if dry_run
      then rest
      else if exclusive
      then with_task false (delete [] (chunk_dir ++ file)) rest
      else with_temporary file rest

  abbrev pub sweep_fossil : Text → Text → Option Bool → Sweep → Sweep
  sweep_fossil file id none rest =
      if dry_run
      then rest
      else if exclusive
      then with_task false (delete id (chunk_dir ++ file)) rest
      else with_fossil (chunk_dir ++ file) rest
  sweep_fossil file id (some value) rest = with_task dry_run (resurrect id (chunk_dir ++ file)) rest

  -- The first file of a chunk that is referenced is kept, the others are redundant.
  abbrev pub sweep_chunk : Text → Text → Option Bool → Targets → (Targets → Sweep) → Sweep
  sweep_chunk file id none targets rest =
      with_task dry_run (fossilize_chunk id (chunk_dir ++ file) exclusive) (rest targets)
  sweep_chunk file id (some true) targets rest =
      with_task dry_run (delete id (chunk_dir ++ file)) (rest targets)
  sweep_chunk file id (some false) targets rest = rest (put id true targets)

  abbrev pub sweep_file : FileKind → Text → Targets → (Targets → Sweep) → Sweep
  sweep_file directory file targets rest = rest targets
  sweep_file unknown file targets rest = rest targets
  sweep_file temporary file targets rest = sweep_temporary file (rest targets)
  sweep_file (fossil id) file targets rest =
      if contains file referenced_fossils
      then rest targets
      else sweep_fossil file id (lookup id targets) (rest targets)
  sweep_file (chunk id) file targets rest = sweep_chunk file id (lookup id targets) targets rest

  -- `seen` holds the files before, each of which is looked at once.
  unfoldable pub sweep_files : List Text → List Text → Targets → Sweep
  unfolding contains lookup put kind_of_file
  sweep_files seen [] targets = record { tasks = []; fossils = []; temporaries = [] }
  sweep_files seen (file ∷ files) targets =
      if contains file seen
      then sweep_files seen files targets
      else sweep_file (kind_of_file file) file targets
          (λ after. sweep_files (file ∷ seen) files after)

  -- For the files listed below chunks/; `none` is an error that ends the command.
  unfoldable pub prune_snapshots_exhaustive :
      (List Snapshot → Option (List (List Text))) → Snapshots → List Text → Option Sweep
  unfolding partition_snapshots add_targets concat_chunks sweep_files
  prune_snapshots_exhaustive expand_snapshots all_snapshots files =
      elim (partition_snapshots exclusive all_snapshots [] []) [
        | none ↦ none
        | some (deleted, kept) ↦ elim (expand_snapshots kept) [
          | none ↦ none
          | some chunks ↦ some (sweep_files [] files (add_targets (concat_chunks chunks) []))
        ]
      ]
