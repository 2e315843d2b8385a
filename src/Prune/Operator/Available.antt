-- ===== src/Prune/Operator/Available.antt =====
-- A chunk stays available while it is made a fossil, and comes back when it is resurrected.
use duplicacy.Prelude.{
  ℕ, ◌==◌, ==_iff, ◌≡◌, ◌≢◌, refl, sym, ap, ◌∙◌, ◌⊎◌, inl, inr, In, List, [], ◌∷◌, ◌++◌, some, Bool,
  true, false, Bool-cases, arith,
}
use mathlib.Core.Path.{subst}
use duplicacy.Prelude.Tables.{contains}
use duplicacy.Entry.{Text}
use duplicacy.Prune.{fossilize, resurrect}
use duplicacy.Prune.Exhaustive.{fsl_suffix}
use duplicacy.Prune.Operator.{
  Operator, directory_of, has_directory, remove_file, Location, found, missing, invalid, path_at,
  delete_file, write_path, find_at, find_chunk, with_fossil_at, fossilize_file, fossilize_at,
  collect_found, resurrect_at, run_task,
}
use duplicacy.Prune.Operator.Moved.{
  contains-cons_self, contains-cons_ne, contains-delete_ne, contains-delete_self,
  directory_of-fossil, has_directory-contains, move_file-there,
}

module _ (read_levels : List ℕ) (write_level : ℕ) where
  -- The file of the chunk, or of its fossil, is at one of the levels.
  abbrev pub IsStored : Text → Bool → List Text → Type 0
  IsStored id is_fossil files =
      (level : ℕ) × In level read_levels × (contains (path_at level id is_fossil) files ≡ true)

  -- FindChunk finds a file that is there, and else gives the path at the write level.
  abbrev IsLocated : Text → Bool → List Text → Location → Type 0
  IsLocated id is_fossil files (found path) =
      (level : ℕ) × In level read_levels
      × (path ≡ path_at level id is_fossil)
      × (contains path files ≡ true)
  IsLocated id is_fossil files (missing path) =
      (IsStored id is_fossil files → ⊥) × (path ≡ path_at write_level id is_fossil)
  IsLocated id is_fossil files invalid = ⊥

  write_path-missing :
      (levels : List ℕ) (id : Text) (is_fossil : Bool)
      → In write_level levels
      → write_path read_levels write_level levels id is_fossil
        ≡ missing (path_at write_level id is_fossil)
  unfolding write_path
  write_path-missing [] id is_fossil i = absurd i
  write_path-missing (level ∷ levels) id is_fossil (inl e) =
      rw (← e, (==_iff write_level write_level).1 refl) refl
  write_path-missing (level ∷ levels) id is_fossil (inr i) =
      elim (Bool-cases (write_level == level)) [
        | inl e ↦
            rw e (ap (λ l. missing (path_at l id is_fossil)) (sym ((==_iff write_level level).0 e)))
        | inr e ↦ rw e (write_path-missing levels id is_fossil i)
      ]

  find_at-IsLocated :
      (levels : List ℕ) (id : Text) (is_fossil : Bool) (files : List Text)
      → In write_level read_levels
      → ((level : ℕ) → In level levels → In level read_levels)
      → ((level : ℕ)
          → In level read_levels
          → contains (path_at level id is_fossil) files ≡ true
          → In level levels)
      → IsLocated id is_fossil files (find_at read_levels write_level levels id is_fossil files)
  unfolding find_at
  find_at-IsLocated [] id is_fossil files w sub left =
      rw (write_path-missing read_levels id is_fossil w) ((λ (level, i, c). left level i c), refl)
  find_at-IsLocated (level ∷ levels) id is_fossil files w sub left =
      elim (Bool-cases (contains (path_at level id is_fossil) files)) [
        | inl e ↦ rw e (level, sub level (inl refl), refl, e)
        | inr e ↦ rw e (
            find_at-IsLocated levels id is_fossil files w (λ l i. sub l (inr i))
              (λ l i c. elim (left l i c) [ inl same ↦ absurd (ground arith) | inr j ↦ j ]))
      ]

  find_chunk-IsLocated :
      (id : Text) (is_fossil : Bool) (files : List Text)
      → In write_level read_levels
      → IsLocated id is_fossil files (find_chunk read_levels write_level id is_fossil files)
  find_chunk-IsLocated id is_fossil files w =
      find_at-IsLocated read_levels id is_fossil files w (λ l i. i) (λ l i c. i)

  IsStored-of_IsLocated :
      (id path : Text) (is_fossil : Bool) (files : List Text)
      → IsLocated id is_fossil files (found path)
      → IsStored id is_fossil files
  IsStored-of_IsLocated id path is_fossil files (level, i, e, c) =
      (level, i, subst (λ p. contains p files ≡ true) e c)

  collect_found-IsStored :
      (id : Text) (location : Location) (operator : Operator)
      → IsLocated id true operator.files location
      → IsStored id true operator.files
      → (after : Operator) × (collect_found read_levels write_level location operator ≡ some after)
        × IsStored id true after.files
  collect_found-IsStored id (found path) operator l k =
      (with_fossil_at read_levels write_level path operator, refl, k)
  collect_found-IsStored id (missing path) operator (absent, e) k = absurd (absent k)
  collect_found-IsStored id invalid operator l k = absurd l

  fossilize_file-IsStored :
      (id path : Text) (operator : Operator) (level : ℕ)
      → In level read_levels
      → path ≡ path_at level id false
      → contains path operator.files ≡ true
      → (after : Operator) × (fossilize_file read_levels write_level id path operator ≡ some after)
        × IsStored id true after.files
  unfolding fossilize_file path_at
  fossilize_file-IsStored id path operator level i e c =
      let fossil = path ++ fsl_suffix in
      let (moved, done, files) = move_file-there path fossil operator c (
        ap (λ d. has_directory d operator) (directory_of-fossil path)
        ∙ has_directory-contains path operator c) in
      (
        with_fossil_at read_levels write_level fossil moved,
        rw (fossilize_file, done) refl,
        (
          level,
          i,
          rw files (
              contains-cons_self (path_at level id true) fossil (delete_file path operator.files)
                (sym (ap (λ t. t ++ fsl_suffix) e))),
        ),
      )

  fossilize_at-IsStored :
      (id : Text) (location : Location) (operator : Operator)
      → In write_level read_levels
      → IsLocated id false operator.files location
      → IsStored id false operator.files ⊎ IsStored id true operator.files
      → (after : Operator) × (fossilize_at read_levels write_level id location operator
          ≡ some after)
        × IsStored id true after.files
  fossilize_at-IsStored id (found path) operator w (level, i, e, c) k =
      fossilize_file-IsStored id path operator level i e c
  fossilize_at-IsStored id (missing path) operator w (absent, e) k =
      collect_found-IsStored id (find_chunk read_levels write_level id true operator.files) operator
        (find_chunk-IsLocated id true operator.files w)
        (elim k [ inl chunk ↦ absurd (absent chunk) | inr fossil ↦ fossil ])
  fossilize_at-IsStored id invalid operator w l k = absurd l

  -- Where the storage has a chunk, as a chunk or as a fossil, a task to make it a fossil succeeds,
  -- and leaves the fossil at one of the levels that are read. The write level is one of them.
  pub fossilize-IsStored :
      (id : Text) (operator : Operator)
      → In write_level read_levels
      → IsStored id false operator.files ⊎ IsStored id true operator.files
      → (after : Operator) × (run_task read_levels write_level (fossilize id []) operator
          ≡ some after)
        × IsStored id true after.files
  unfolding run_task
  fossilize-IsStored id operator w k =
      fossilize_at-IsStored id (find_chunk read_levels write_level id false operator.files) operator
        w (find_chunk-IsLocated id false operator.files w) k

  -- A place for the chunk: it is there already, or the directory is where it would be written.
  abbrev pub HasPlace : Text → Operator → Type 0
  HasPlace id operator =
      IsStored id false operator.files
      ⊎ (has_directory (directory_of (path_at write_level id false)) operator ≡ true)

  resurrect_at-IsStored :
      (id fossil : Text) (location : Location) (operator : Operator)
      → In write_level read_levels
      → IsLocated id false operator.files location
      → contains fossil operator.files ≡ true
      → HasPlace id operator
      → ((level : ℕ) → path_at level id false ≢ fossil)
      → (after : Operator) × (resurrect_at read_levels write_level fossil location operator
          ≡ some after)
        × IsStored id false after.files
        × (contains fossil after.files ≡ false)
  unfolding remove_file
  resurrect_at-IsStored id fossil (found path) operator w (level, i, e, c) there place other = (
    remove_file fossil operator,
    refl,
    (
      level,
      i,
      contains-delete_ne (path_at level id false) fossil operator.files (other level)
          (subst (λ p. contains p operator.files ≡ true) e c),
    ),
    contains-delete_self fossil operator.files,
  )
  resurrect_at-IsStored id fossil (missing path) operator w (absent, e) there place other =
      let (moved, done, files) = move_file-there fossil path operator there (elim place [
        | inl stored ↦ absurd (absent stored)
        | inr d ↦ ap (λ p. has_directory (directory_of p) operator) e ∙ d
      ]) in
      (
        moved,
        done,
        (
          write_level,
          w,
          rw files (
              contains-cons_self (path_at write_level id false) path
                (delete_file fossil operator.files) (sym e)),
        ),
        rw files (
            contains-cons_ne fossil path (delete_file fossil operator.files)
              (λ q. other write_level (sym e ∙ q))
            ∙ contains-delete_self fossil operator.files),
      )
  resurrect_at-IsStored id fossil invalid operator w l there place other = absurd l

  -- A task to resurrect a fossil that is there succeeds: the chunk is at one of the levels that
  -- are read, and the fossil is gone. The chunk is there already, or the directory of its path at
  -- the write level is. The write level is one of those read, and the fossil's path is no path of
  -- the chunk.
  pub resurrect-IsStored :
      (id fossil : Text) (operator : Operator)
      → In write_level read_levels
      → contains fossil operator.files ≡ true
      → HasPlace id operator
      → ((level : ℕ) → path_at level id false ≢ fossil)
      → (after : Operator) × (run_task read_levels write_level (resurrect id fossil) operator
          ≡ some after)
        × IsStored id false after.files
        × (contains fossil after.files ≡ false)
  unfolding run_task
  resurrect-IsStored id fossil operator w there place other =
      resurrect_at-IsStored id fossil (find_chunk read_levels write_level id false operator.files)
        operator w (find_chunk-IsLocated id false operator.files w) there place other
