-- ===== src/Prune/Exhaustive/Copies.antt =====
-- The exhaustive mode leaves one file of each chunk that is referenced, and none of the others.
use duplicacy.Prelude.{
  ◌++◌, ◌-◌, ◌≡◌, refl, List, [], ◌∷◌, map, Option, none, some, if◌then◌else◌, Bool, true, false,
  inl, inr, Bool-cases, arith,
}
use duplicacy.Prelude.Bytes.{eq_text}
use duplicacy.Prelude.Tables.{contains, lookup, put}
use duplicacy.Entry.{Text}
use duplicacy.Prune.{Snapshot, Snapshots}
use duplicacy.Prune.Unreferenced.{Targets, add_targets, concat_chunks}
use duplicacy.Prune.Unreferenced.Exact.{
  is_permitted, is_referenced, unflagged_in, partition_snapshots_lem, lookup-add_targets,
}
use duplicacy.Prune.Exhaustive.{
  chunk_dir, FileKind, directory, temporary, unknown, fossil, chunk, kind_of_file, Sweep,
  sweep_fossil, sweep_chunk, sweep_file, sweep_files, prune_snapshots_exhaustive,
}
use duplicacy.Prune.Exhaustive.Left.{
  copies, left, is_removed, remains, eq_text-below, differs-of_new, contains-head, left-sweep_file,
}

module _ (referenced_fossils : List Text) (of_fossils of_deletes : Bool) where
  is_removed-sweep_chunk :
      (f file c : Text) (o : Option Bool) (targets : Targets) (rest : Targets → Sweep)
      → eq_text f file ≡ false
      → ((after : Targets)
          → is_removed of_fossils of_deletes (chunk_dir ++ f) (rest after).tasks ≡ false)
      → is_removed of_fossils of_deletes
          (chunk_dir ++ f)
          (sweep_chunk false false referenced_fossils file c o targets rest).tasks
        ≡ false
  is_removed-sweep_chunk f file c none targets rest e h = rw (eq_text-below f file, e) (h targets)
  is_removed-sweep_chunk f file c (some true) targets rest e h =
      rw (eq_text-below f file, e) (h targets)
  is_removed-sweep_chunk f file c (some false) targets rest e h = h (put c true targets)

  is_removed-sweep_fossil :
      (f file c : Text) (o : Option Bool) (rest : Sweep)
      → is_removed of_fossils of_deletes (chunk_dir ++ f) rest.tasks ≡ false
      → is_removed of_fossils of_deletes
          (chunk_dir ++ f)
          (sweep_fossil false false referenced_fossils file c o rest).tasks
        ≡ false
  is_removed-sweep_fossil f file c none rest h = h
  is_removed-sweep_fossil f file c (some value) rest h = h

  is_removed-sweep_file :
      (f file : Text) (kind : FileKind) (targets : Targets) (rest : Targets → Sweep)
      → eq_text f file ≡ false
      → ((after : Targets)
          → is_removed of_fossils of_deletes (chunk_dir ++ f) (rest after).tasks ≡ false)
      → is_removed of_fossils of_deletes
          (chunk_dir ++ f)
          (sweep_file false false referenced_fossils kind file targets rest).tasks
        ≡ false
  is_removed-sweep_file f file directory targets rest e h = h targets
  is_removed-sweep_file f file temporary targets rest e h = h targets
  is_removed-sweep_file f file unknown targets rest e h = h targets
  is_removed-sweep_file f file (fossil c) targets rest e h =
      elim (Bool-cases (contains file referenced_fossils)) [
        | inl d ↦ rw d (h targets)
        | inr d ↦
            rw d (is_removed-sweep_fossil f file c (lookup c targets) (rest targets) (h targets))
      ]
  is_removed-sweep_file f file (chunk c) targets rest e h =
      is_removed-sweep_chunk f file c (lookup c targets) targets rest e h

  -- The walk over the files that follow takes none away that was seen before.
  is_removed-sweep_files :
      (f : Text) (seen files : List Text) (targets : Targets)
      → contains f seen ≡ true
      → is_removed of_fossils of_deletes
          (chunk_dir ++ f)
          (sweep_files false false referenced_fossils seen files targets).tasks
        ≡ false
  unfolding sweep_files
  is_removed-sweep_files f seen [] targets h = refl
  is_removed-sweep_files f seen (file ∷ files) targets h = elim (Bool-cases (contains file seen)) [
    | inl e ↦ rw e (is_removed-sweep_files f seen files targets h)
    | inr e ↦ rw e (
        is_removed-sweep_file f file (kind_of_file file) targets
          (λ after. sweep_files false false referenced_fossils (file ∷ seen) files after)
          (differs-of_new f file seen e h)
          (λ after.
            is_removed-sweep_files f (file ∷ seen) files after
              (unfold contains in ground (arith, h))))
  ]

  left-sweep_files :
      (id : Text) (seen files : List Text) (targets : Targets)
      → left of_fossils of_deletes id seen files
          (sweep_files false false referenced_fossils seen files targets).tasks
        ≡ remains of_fossils of_deletes (lookup id targets) (copies id seen files)
  unfolding sweep_files
  left-sweep_files id seen [] targets = ground arith
  left-sweep_files id seen (file ∷ files) targets = elim (Bool-cases (contains file seen)) [
    | inl e ↦ rw e (left-sweep_files id seen files targets)
    | inr e ↦ rw e (
        left-sweep_file of_fossils of_deletes referenced_fossils id file (file ∷ seen) files
          (λ after. sweep_files false false referenced_fossils (file ∷ seen) files after)
          (contains-head file seen)
          (λ after. (
            is_removed-sweep_files file (file ∷ seen) files after (contains-head file seen),
            left-sweep_files id (file ∷ seen) files after,
          ))
          (kind_of_file file) targets)
  ]

module _ (referenced_fossils : List Text) where
  -- A run in exhaustive mode that is not exclusive and deletes no latest snapshot succeeds. Of the
  -- files listed for a chunk, each counted once, and by their paths in the storage: if a snapshot
  -- that is kept references the chunk, exactly one is left (`n - (n - 1)` of `n`, so none where none
  -- is listed), each of the others is deleted, and none is made a fossil; if none does, each is made
  -- a fossil and none is deleted. `left` counts those that no task to fossilize them takes away, if
  -- `of_fossils`, and no task to delete them, if `of_deletes`. It is no dry run, and each snapshot's
  -- chunks can be listed.
  pub prune_snapshots_exhaustive-copies :
      (chunks_of : Snapshot → List Text) (expand : List Snapshot → Option (List (List Text)))
      → ((snapshots : List Snapshot) → expand snapshots ≡ some (map chunks_of snapshots))
      → (all_snapshots : Snapshots) (files : List Text) → is_permitted false all_snapshots ≡ true
      → (sweep : Sweep) × (prune_snapshots_exhaustive false false referenced_fossils expand
            all_snapshots files
          ≡ some sweep)
        × ((of_fossils of_deletes : Bool) (id : Text)
            → left of_fossils of_deletes id [] files sweep.tasks ≡ (
                if is_referenced chunks_of id (unflagged_in all_snapshots)
                then (if of_deletes
                    then copies id [] files - (copies id [] files - 1)
                    else copies id [] files)
                else (if of_fossils then 0 else copies id [] files)))
  unfolding is_referenced lookup prune_snapshots_exhaustive sweep_files
  prune_snapshots_exhaustive-copies chunks_of expand expands all_snapshots files h =
      let targets = add_targets (concat_chunks (map chunks_of (unflagged_in all_snapshots))) [] in
      (
        sweep_files false false referenced_fossils [] files targets,
        rw
            (
              partition_snapshots_lem false all_snapshots [] [] h,
              prune_snapshots_exhaustive,
              expands (unflagged_in all_snapshots),
            )
            refl,
        λ of_fossils of_deletes id. ground (
          arith,
          left-sweep_files referenced_fossils of_fossils of_deletes id [] files targets,
          lookup-add_targets id (concat_chunks (map chunks_of (unflagged_in all_snapshots))) [],
        ),
      )
