-- ===== src/Prune/Collections/Handled.antt =====
-- The files that go for good when a collection is handled, and the fossils that come back.
use mathlib.Core.Path.{ap₂}
use duplicacy.Prelude.{
  ◌≡◌, refl, ap, ◌∙◌, inl, inr, List, [], ◌∷◌, ◌++◌, map, Bool, true, false, not, ◌&&◌, ◌||◌,
  Bool-cases, arith,
}
use duplicacy.Prelude.Int.{ℤ}
use duplicacy.Prelude.Bytes.{eq_text, eq_of_eq_text, eq_text_self}
use duplicacy.Prelude.Tables.{contains}
use duplicacy.Entry.{Text}
use duplicacy.Prune.{Snapshot, Snapshots, Task}
use duplicacy.Prune.Unreferenced.{concat_chunks}
use duplicacy.Prune.Unreferenced.Exact.{is_referenced}
use duplicacy.Prune.Collection.{FossilCollection, is_deletable}
use duplicacy.Prune.Collections.{
  handle_by, Handling, has_ghost, fossil_chunk, fossil_tasks, temporary_tasks, handle_collection,
  handled,
}

-- Some task removes the file at the path for good, and some task brings back the chunk of the id
-- from there.
unfoldable pub is_deleted : Text → List Task → Bool
unfolding eq_text
is_deleted path (Task.delete c file ∷ rest) = eq_text path file || is_deleted path rest
is_deleted path (Task.resurrect c file ∷ rest) = is_deleted path rest
is_deleted path (Task.fossilize c file ∷ rest) = is_deleted path rest
is_deleted path [] = false

unfoldable pub is_resurrected : Text → Text → List Task → Bool
unfolding eq_text
is_resurrected id path (Task.resurrect c file ∷ rest) =
    eq_text id c && eq_text path file || is_resurrected id path rest
is_resurrected id path (Task.delete c file ∷ rest) = is_resurrected id path rest
is_resurrected id path (Task.fossilize c file ∷ rest) = is_resurrected id path rest
is_resurrected id path [] = false

is_deleted-append :
    (path : Text) (tasks more : List Task)
    → is_deleted path (tasks ++ more) ≡ is_deleted path tasks || is_deleted path more
unfolding is_deleted
is_deleted-append path [] more = refl
is_deleted-append path (Task.delete c file ∷ tasks) more =
    ground (arith, is_deleted-append path tasks more)
is_deleted-append path (Task.resurrect c file ∷ tasks) more = is_deleted-append path tasks more
is_deleted-append path (Task.fossilize c file ∷ tasks) more = is_deleted-append path tasks more

is_resurrected-append :
    (id path : Text) (tasks more : List Task)
    → is_resurrected id path (tasks ++ more)
      ≡ is_resurrected id path tasks || is_resurrected id path more
unfolding is_resurrected
is_resurrected-append id path [] more = refl
is_resurrected-append id path (Task.resurrect c file ∷ tasks) more =
    ground (arith, is_resurrected-append id path tasks more)
is_resurrected-append id path (Task.delete c file ∷ tasks) more =
    is_resurrected-append id path tasks more
is_resurrected-append id path (Task.fossilize c file ∷ tasks) more =
    is_resurrected-append id path tasks more

is_deleted-temporary_tasks :
    (path : Text) (temporaries : List Text)
    → is_deleted path (temporary_tasks temporaries) ≡ contains path temporaries
unfolding is_deleted temporary_tasks contains
is_deleted-temporary_tasks path [] = refl
is_deleted-temporary_tasks path (file ∷ rest) =
    ap (λ b. eq_text path file || b) (is_deleted-temporary_tasks path rest)

is_resurrected-temporary_tasks :
    (id path : Text) (temporaries : List Text)
    → is_resurrected id path (temporary_tasks temporaries) ≡ false
unfolding is_resurrected temporary_tasks
is_resurrected-temporary_tasks id path [] = refl
is_resurrected-temporary_tasks id path (file ∷ rest) = is_resurrected-temporary_tasks id path rest

is_deleted-fossil_tasks :
    (path : Text) (new_chunks fossils : List Text)
    → is_deleted path (fossil_tasks new_chunks fossils)
      ≡ contains path fossils && not (contains (fossil_chunk path) new_chunks)
unfolding is_deleted fossil_tasks contains
is_deleted-fossil_tasks path new_chunks [] = refl
is_deleted-fossil_tasks path new_chunks (fossil ∷ rest) =
    elim (Bool-cases (contains (fossil_chunk fossil) new_chunks)) [
      | inl e ↦
          rw e (
            ground (arith, is_deleted-fossil_tasks path new_chunks rest, eq_of_eq_text path fossil))
      | inr e ↦
          rw e (
            ground (arith, is_deleted-fossil_tasks path new_chunks rest, eq_of_eq_text path fossil))
    ]

is_resurrected-fossil_tasks :
    (path : Text) (new_chunks fossils : List Text)
    → is_resurrected (fossil_chunk path) path (fossil_tasks new_chunks fossils)
      ≡ contains path fossils && contains (fossil_chunk path) new_chunks
unfolding is_resurrected fossil_tasks contains
is_resurrected-fossil_tasks path new_chunks [] = refl
is_resurrected-fossil_tasks path new_chunks (fossil ∷ rest) =
    elim (Bool-cases (contains (fossil_chunk fossil) new_chunks)) [
      | inl e ↦ rw e (
          ground (
            arith,
            is_resurrected-fossil_tasks path new_chunks rest,
            eq_of_eq_text path fossil,
            eq_text_self (fossil_chunk path),
          ))
      | inr e ↦ rw e (
          ground
            (arith, is_resurrected-fossil_tasks path new_chunks rest, eq_of_eq_text path fossil))
    ]

is_deletable_not :
    (collection : FossilCollection) (now : ℤ) (is_strong_consistent : Bool)
    (ignored_ids : List Text) (all_snapshots : Snapshots)
    → (is_deletable collection now is_strong_consistent ignored_ids all_snapshots).0 ≡ false
    → is_deletable collection now is_strong_consistent ignored_ids all_snapshots ≡ (false, [])
unfolding is_deletable
is_deletable_not collection now is_strong_consistent ignored_ids all_snapshots d = ground arith

-- Which of the files that a collection names are removed, and which fossils come back.
module _ (chunks_of : Snapshot → List Text) (exclusive : Bool) (collection : FossilCollection)
    (new_snapshots : List Snapshot) (path : Text) where
  abbrev new_chunks : List Text
  new_chunks = concat_chunks (map chunks_of new_snapshots)

  abbrev tasks : List Task
  tasks = (handled chunks_of false exclusive collection new_snapshots).tasks

  is_deleted-handled :
      is_deleted path tasks
      ≡ contains path collection.fossils && not (contains (fossil_chunk path) new_chunks)
        || contains path collection.temporaries
  is_deleted-handled =
      is_deleted-append path (fossil_tasks new_chunks collection.fossils)
        (temporary_tasks collection.temporaries)
      ∙ ap₂ ◌||◌ (is_deleted-fossil_tasks path new_chunks collection.fossils)
          (is_deleted-temporary_tasks path collection.temporaries)

  is_resurrected-handled :
      is_resurrected (fossil_chunk path) path tasks
      ≡ contains path collection.fossils && contains (fossil_chunk path) new_chunks
  is_resurrected-handled =
      is_resurrected-append (fossil_chunk path) path (fossil_tasks new_chunks collection.fossils)
        (temporary_tasks collection.temporaries)
      ∙ ap₂ ◌||◌ (is_resurrected-fossil_tasks path new_chunks collection.fossils)
          (is_resurrected-temporary_tasks (fossil_chunk path) path collection.temporaries)
      ∙ ground arith

module _ (chunks_of : Snapshot → List Text) (exclusive : Bool) (collection : FossilCollection)
    (now : ℤ) (is_strong_consistent : Bool) (ignored_ids : List Text)
    (all_snapshots : Snapshots) where
  abbrev handling : Handling
  handling =
      handle_collection chunks_of false exclusive collection now is_strong_consistent ignored_ids
        all_snapshots

  -- Once a collection can go, the tasks remove exactly the paths of its fossils whose chunks none of
  -- the new snapshots that IsDeletable named references, and those of its temporary files; and the
  -- paths of its other fossils are exactly those that the chunk of the fossil is brought back from.
  -- The collection has no ghosts, and the run is no dry run.
  pub handle_collection-is_deleted :
      has_ghost collection.deleted_revisions all_snapshots ≡ false
      → (new_snapshots : List Snapshot)
      → is_deletable collection now is_strong_consistent ignored_ids all_snapshots
        ≡ (true, new_snapshots)
      → (path : Text)
      → (is_deleted path handling.tasks
          ≡ contains path collection.fossils
              && not (is_referenced chunks_of (fossil_chunk path) new_snapshots)
            || contains path collection.temporaries)
        × (is_resurrected (fossil_chunk path) path handling.tasks
            ≡ contains path collection.fossils
              && is_referenced chunks_of (fossil_chunk path) new_snapshots)
  unfolding handle_collection is_referenced
  handle_collection-is_deleted g new_snapshots d path = rw g (
    ap (λ p. is_deleted path (handle_by chunks_of false exclusive collection p).tasks) d
        ∙ is_deleted-handled chunks_of exclusive collection new_snapshots path,
    ap
          (λ p.
            is_resurrected (fossil_chunk path) path
              (handle_by chunks_of false exclusive collection p).tasks)
          d
        ∙ is_resurrected-handled chunks_of exclusive collection new_snapshots path,
  )

  -- In an exclusive run a collection that cannot go yet is handled as if there were no new
  -- snapshots: the paths of all its fossils, of referenced chunks or not, and of its temporary files
  -- are removed, and no others. The collection has no ghosts, and the run is no dry run.
  pub handle_collection-exclusive :
      exclusive ≡ true
      → has_ghost collection.deleted_revisions all_snapshots ≡ false
      → (is_deletable collection now is_strong_consistent ignored_ids all_snapshots).0 ≡ false
      → (path : Text)
      → is_deleted path handling.tasks
        ≡ contains path collection.fossils || contains path collection.temporaries
  unfolding handle_collection contains concat_chunks
  handle_collection-exclusive x g d path = rw g (
      ap (λ p. is_deleted path (handle_by chunks_of false exclusive collection p).tasks)
        (is_deletable_not collection now is_strong_consistent ignored_ids all_snapshots d)
      ∙ rw x (is_deleted-handled chunks_of true collection [] path ∙ ground arith))
