-- ===== src/Prune/Exhaustive/Left.antt =====
-- What the walk of pruneSnapshotsExhaustive leaves of the files of a chunk, one file at a time.
use duplicacy.Prelude.{
  ◌&&◌, ◌||◌, ◌++◌, ℕ, ◌+◌, ◌-◌, ◌≡◌, refl, ap, ◌∙◌, List, [], ◌∷◌, Option, none, some,
  if◌then◌else◌, Bool, true, false, inl, inr, Bool-cases, arith,
}
use duplicacy.Prelude.Bytes.{eq_text, eq_text_self, eq_of_eq_text}
use duplicacy.Prelude.Tables.{contains, lookup, put, lookup-put}
use duplicacy.Entry.{Text}
use duplicacy.Prune.{Task, delete, fossilize, resurrect}
use duplicacy.Prune.Unreferenced.{Targets}
use duplicacy.Prune.Exhaustive.{
  chunk_dir, FileKind, directory, temporary, unknown, fossil, chunk, kind_of_file, Sweep,
  sweep_fossil, sweep_chunk, sweep_file,
}

abbrev is_copy : Text → FileKind → ℕ
is_copy id directory = 0
is_copy id temporary = 0
is_copy id unknown = 0
is_copy id (fossil c) = 0
is_copy id (chunk c) = if eq_text id c then 1 else 0

-- The files of the chunk, each counted once.
abbrev pub copies : Text → List Text → List Text → ℕ
copies id seen [] = 0
copies id seen (file ∷ files) =
    if contains file seen
    then copies id seen files
    else is_copy id (kind_of_file file) + copies id (file ∷ seen) files

pub eq_text-below : (f g : Text) → eq_text (chunk_dir ++ f) (chunk_dir ++ g) ≡ eq_text f g
unfolding eq_text
eq_text-below f g = refl

differs-of_seen :
    (f g : Text) (seen : List Text)
    → contains f seen ≡ false
    → contains g seen ≡ true
    → eq_text f g ≡ false
differs-of_seen f g seen new old = elim (Bool-cases (eq_text f g)) [
  | inl e ↦ absurd (ground (arith, eq_of_eq_text f g e))
  | inr e ↦ e
]

pub differs-of_new :
    (f g : Text) (seen : List Text)
    → contains g seen ≡ false
    → contains f seen ≡ true
    → eq_text f g ≡ false
differs-of_new f g seen new old = elim (Bool-cases (eq_text f g)) [
  | inl e ↦ absurd (ground (arith, eq_of_eq_text f g e))
  | inr e ↦ e
]

pub contains-head : (file : Text) (seen : List Text) → contains file (file ∷ seen) ≡ true
unfolding contains
contains-head file seen = rw (eq_text_self file) refl

-- The task is about the file.
abbrev IsAbout : Text → Task → Type 0
IsAbout file (delete c path) = path ≡ chunk_dir ++ file
IsAbout file (fossilize c path) = path ≡ chunk_dir ++ file
IsAbout file (resurrect c path) = path ≡ chunk_dir ++ file

-- `of_fossils` and `of_deletes` say which tasks count.
module _ (of_fossils of_deletes : Bool) where
  -- The tasks that take a file away, where they count: those that make it a fossil, and those that
  -- delete it. The path of a task is the file that Run moves or removes.
  abbrev removes : Text → Task → Bool
  removes path (delete c removed) = eq_text path removed && of_deletes
  removes path (fossilize c removed) = eq_text path removed && of_fossils
  removes path (resurrect c removed) = false

  abbrev pub is_removed : Text → List Task → Bool
  is_removed path [] = false
  is_removed path (task ∷ tasks) = removes path task || is_removed path tasks

  -- The files of the chunk that no such task takes away, each counted once. A file is listed by its path
  -- below chunks/.
  abbrev pub left : Text → List Text → List Text → List Task → ℕ
  left id seen [] tasks = 0
  left id seen (file ∷ files) tasks =
      if contains file seen
      then left id seen files tasks
      else (if is_removed (chunk_dir ++ file) tasks then 0 else is_copy id (kind_of_file file))
        + left id (file ∷ seen) files tasks

  -- What stays of `n` files, by whether the chunk is referenced and a file was kept already.
  abbrev pub remains : Option Bool → ℕ → ℕ
  remains none n = if of_fossils then 0 else n
  remains (some true) n = if of_deletes then 0 else n
  remains (some false) n = if of_deletes then n - (n - 1) else n

  removes-other :
      (f g : Text) (task : Task)
      → IsAbout g task
      → eq_text f g ≡ false
      → removes (chunk_dir ++ f) task ≡ false
  removes-other f g (delete c path) about h = rw (about, eq_text-below f g, h) refl
  removes-other f g (fossilize c path) about h = rw (about, eq_text-below f g, h) refl
  removes-other f g (resurrect c path) about h = refl

  -- A task about a file seen before changes nothing of what is left of the others.
  left-cons :
      (id file : Text) (seen files : List Text) (task : Task) (tasks : List Task)
      → contains file seen ≡ true
      → IsAbout file task
      → left id seen files (task ∷ tasks) ≡ left id seen files tasks
  left-cons id file seen [] task tasks h about = refl
  left-cons id file seen (f ∷ files) task tasks h about = elim (Bool-cases (contains f seen)) [
    | inl e ↦ rw e (left-cons id file seen files task tasks h about)
    | inr e ↦
        rw
          (
            e,
            removes-other f file task about (differs-of_seen f file seen e h),
            left-cons id file (f ∷ seen) files task tasks (unfold contains in ground (arith, h))
                about,
          )
          refl
  ]

  abbrev pub CountsOf : Text → Text → List Text → List Text → Targets → List Task → Type 0
  CountsOf id file seen files targets tasks =
      (is_removed (chunk_dir ++ file) tasks ≡ false)
      × (left id seen files tasks ≡ remains (lookup id targets) (copies id seen files))

  module _ (referenced_fossils : List Text) (id file : Text) (seen files : List Text) where
    -- What is left when `file` comes before `files`.
    abbrev left_with : FileKind → List Task → ℕ
    left_with kind tasks =
        (if is_removed (chunk_dir ++ file) tasks then 0 else is_copy id kind)
        + left id seen files tasks

    left_with-resurrect :
        (kind : FileKind) (c : Text) (tasks : List Task)
        → contains file seen ≡ true
        → left_with kind (resurrect c (chunk_dir ++ file) ∷ tasks) ≡ left_with kind tasks
    left_with-resurrect kind c tasks h =
        rw (left-cons id file seen files (resurrect c (chunk_dir ++ file)) tasks h refl) refl

    left_with-delete :
        (kind : FileKind) (c : Text) (tasks : List Task)
        → contains file seen ≡ true
        → left_with kind (delete c (chunk_dir ++ file) ∷ tasks)
          ≡ (if of_deletes then left id seen files tasks else left_with kind tasks)
    left_with-delete kind c tasks h =
        rw (left-cons id file seen files (delete c (chunk_dir ++ file)) tasks h refl)
          (ground (arith, eq_text_self (chunk_dir ++ file)))

    left_with-fossilize :
        (kind : FileKind) (c : Text) (tasks : List Task)
        → contains file seen ≡ true
        → left_with kind (fossilize c (chunk_dir ++ file) ∷ tasks)
          ≡ (if of_fossils then left id seen files tasks else left_with kind tasks)
    left_with-fossilize kind c tasks h =
        rw (left-cons id file seen files (fossilize c (chunk_dir ++ file)) tasks h refl)
          (ground (arith, eq_text_self (chunk_dir ++ file)))

    module _ (rest : Targets → Sweep) (old : contains file seen ≡ true)
        (h : (after : Targets) → CountsOf id file seen files after (rest after).tasks) where
      -- A file that is no chunk adds nothing, whether it is removed or not.
      left_with-other :
          (kind : FileKind) (targets : Targets)
          → is_copy id kind ≡ 0
          → left_with kind (rest targets).tasks
            ≡ remains (lookup id targets) (is_copy id kind + copies id seen files)
      left_with-other kind targets e =
          rw ((h targets).0, e)
            ((omega arith) ∙ (h targets).1 ∙ ap (remains (lookup id targets)) (omega arith))

      left-sweep_chunk :
          (c : Text) (targets : Targets) (o : Option Bool)
          → lookup c targets ≡ o
          → left_with
              (chunk c)
              (sweep_chunk false false referenced_fossils file c o targets rest).tasks
            ≡ remains (lookup id targets) (is_copy id (chunk c) + copies id seen files)
      left-sweep_chunk c targets none e =
          left_with-fossilize (chunk c) c (rest targets).tasks old
          ∙ ground (arith, (h targets).0, (h targets).1, eq_of_eq_text id c)
      left-sweep_chunk c targets (some true) e =
          left_with-delete (chunk c) c (rest targets).tasks old
          ∙ ground (arith, (h targets).0, (h targets).1, eq_of_eq_text id c)
      left-sweep_chunk c targets (some false) e = rw ((h (put c true targets)).0) (
          ground
            (arith, (h (put c true targets)).1, lookup-put id c true targets, eq_of_eq_text id c))

      left-sweep_fossil :
          (c : Text) (targets : Targets) (o : Option Bool)
          → left_with
              (fossil c)
              (sweep_fossil false false referenced_fossils file c o (rest targets)).tasks
            ≡ remains (lookup id targets) (is_copy id (fossil c) + copies id seen files)
      left-sweep_fossil c targets none = left_with-other (fossil c) targets refl
      left-sweep_fossil c targets (some value) =
          left_with-resurrect (fossil c) c (rest targets).tasks old
          ∙ left_with-other (fossil c) targets refl

      pub left-sweep_file :
          (kind : FileKind) (targets : Targets)
          → left_with kind (sweep_file false false referenced_fossils kind file targets rest).tasks
            ≡ remains (lookup id targets) (is_copy id kind + copies id seen files)
      left-sweep_file directory targets = left_with-other directory targets refl
      left-sweep_file temporary targets = left_with-other temporary targets refl
      left-sweep_file unknown targets = left_with-other unknown targets refl
      left-sweep_file (fossil c) targets = elim (Bool-cases (contains file referenced_fossils)) [
        | inl e ↦ rw e (left_with-other (fossil c) targets refl)
        | inr e ↦ rw e (left-sweep_fossil c targets (lookup c targets))
      ]
      left-sweep_file (chunk c) targets = left-sweep_chunk c targets (lookup c targets) refl
