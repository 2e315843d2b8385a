-- ===== src/Prune/Exhaustive/Collected.antt =====
-- The fossils of earlier collections, as the exhaustive mode looks them up.
use duplicacy.Prelude.{
  ◌≡◌, refl, ap, ◌∙◌, List, [], ◌∷◌, ◌++◌, Option, none, some, Bool, true, false, inl, inr,
  Bool-cases, Option-cases,
}
use duplicacy.Prelude.Bytes.{eq_text, eq_of_eq_text}
use duplicacy.Prelude.Tables.{contains, lookup, put}
use duplicacy.Entry.{Text}
use duplicacy.Prune.{Snapshot, Snapshots}
use duplicacy.Prune.Unreferenced.{Targets, partition_snapshots, add_targets, concat_chunks}
use duplicacy.Prune.Exhaustive.{
  FileKind, directory, temporary, unknown, fossil, chunk, kind_of_file, Sweep, sweep_fossil,
  sweep_chunk, sweep_file, sweep_files, sweep_temporary, prune_snapshots_exhaustive, chunk_dir,
}

-- A path below chunks/, as AddFossil gets it.
abbrev pub InChunkDir : Text → Type 0
InChunkDir path = (file : Text) × (path ≡ chunk_dir ++ file)

abbrev pub AllInChunkDir : List Text → Type 0
AllInChunkDir [] = Unit
AllInChunkDir (path ∷ rest) = InChunkDir path × AllInChunkDir rest

abbrev pub NoneInChunkDir : List Text → Type 0
NoneInChunkDir [] = Unit
NoneInChunkDir (file ∷ rest) = (InChunkDir file → ⊥) × NoneInChunkDir rest

not_contained :
    (file : Text) (paths : List Text)
    → AllInChunkDir paths
    → (InChunkDir file → ⊥)
    → contains file paths ≡ false
unfolding contains
not_contained file [] h k = refl
not_contained file (path ∷ rest) ((f, e), hs) k = elim (Bool-cases (eq_text file path)) [
  | inl q ↦ absurd (k (f, eq_of_eq_text file path q ∙ e))
  | inr q ↦ rw q (not_contained file rest hs k)
]

module _ (dry_run exclusive : Bool) where
  sweep_fossil-forgets :
      (known : List Text) (id file : Text) (o : Option Bool) (rest : Sweep)
      → sweep_fossil dry_run exclusive known file id o rest
        ≡ sweep_fossil dry_run exclusive [] file id o rest
  sweep_fossil-forgets known id file none rest = refl
  sweep_fossil-forgets known id file (some value) rest = refl

  sweep_chunk-forgets :
      (known : List Text) (id file : Text) (targets : Targets) (o : Option Bool)
      (rest again : Targets → Sweep)
      → ((after : Targets) → rest after ≡ again after)
      → sweep_chunk dry_run exclusive known file id o targets rest
        ≡ sweep_chunk dry_run exclusive [] file id o targets again
  sweep_chunk-forgets known id file targets none rest again h =
      ap (λ s. sweep_chunk dry_run exclusive [] file id none targets (λ after. s)) (h targets)
  sweep_chunk-forgets known id file targets (some true) rest again h =
      ap (λ s. sweep_chunk dry_run exclusive [] file id (some true) targets (λ after. s))
        (h targets)
  sweep_chunk-forgets known id file targets (some false) rest again h = h (put id true targets)

  sweep_file-forgets :
      (known : List Text) (kind : FileKind) (file : Text) (targets : Targets)
      (rest again : Targets → Sweep)
      → contains file known ≡ false
      → ((after : Targets) → rest after ≡ again after)
      → sweep_file dry_run exclusive known kind file targets rest
        ≡ sweep_file dry_run exclusive [] kind file targets again
  unfolding contains
  sweep_file-forgets known (fossil id) file targets rest again e h =
      rw (e, h targets) (sweep_fossil-forgets known id file (lookup id targets) (again targets))
  sweep_file-forgets known directory file targets rest again e h = h targets
  sweep_file-forgets known unknown file targets rest again e h = h targets
  sweep_file-forgets known temporary file targets rest again e h =
      ap (sweep_temporary dry_run exclusive known file) (h targets)
  sweep_file-forgets known (chunk id) file targets rest again e h =
      sweep_chunk-forgets known id file targets (lookup id targets) rest again h

  sweep_files-forgets :
      (known seen files : List Text) (targets : Targets)
      → AllInChunkDir known
      → NoneInChunkDir files
      → sweep_files dry_run exclusive known seen files targets
        ≡ sweep_files dry_run exclusive [] seen files targets
  unfolding sweep_files
  sweep_files-forgets known seen [] targets k f = refl
  sweep_files-forgets known seen (file ∷ files) targets k (f, fs) =
      elim (Bool-cases (contains file seen)) [
        | inl e ↦ rw e (sweep_files-forgets known seen files targets k fs)
        | inr e ↦ rw e (
            sweep_file-forgets known (kind_of_file file) file targets
              (λ after. sweep_files dry_run exclusive known (file ∷ seen) files after)
              (λ after. sweep_files dry_run exclusive [] (file ∷ seen) files after)
              (not_contained file known k f)
              (λ after. sweep_files-forgets known (file ∷ seen) files after k fs))
      ]

  -- The fossils of earlier collections make no difference to the exhaustive mode: they are stored
  -- with chunks/ before them, and looked up without it. No file is listed below a chunks/ of its
  -- own.
  pub prune_snapshots_exhaustive-forgets :
      (known : List Text) (expand : List Snapshot → Option (List (List Text)))
      (all_snapshots : Snapshots) (files : List Text)
      → AllInChunkDir known
      → NoneInChunkDir files
      → prune_snapshots_exhaustive dry_run exclusive known expand all_snapshots files
        ≡ prune_snapshots_exhaustive dry_run exclusive [] expand all_snapshots files
  unfolding prune_snapshots_exhaustive
  prune_snapshots_exhaustive-forgets known expand all_snapshots files k f =
      elim (Option-cases (partition_snapshots exclusive all_snapshots [] [])) [
        | inl e ↦ rw (e, prune_snapshots_exhaustive) refl
        | inr ((deleted, kept), e) ↦ elim (Option-cases (expand kept)) [
          | inl g ↦ rw (e, g, prune_snapshots_exhaustive) refl
          | inr (chunks, g) ↦
              rw (e, g, prune_snapshots_exhaustive)
                (ap some
                  (sweep_files-forgets known [] files (add_targets (concat_chunks chunks) []) k f))
        ]
      ]
