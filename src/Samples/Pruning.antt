-- ===== src/Samples/Pruning.antt =====
-- The theorems on prune, at concrete snapshots.
use duplicacy.Prelude.{
  ℕ, zero, suc, drop, ◌-◌, if◌then◌else◌, ap, ◌≢◌, ◌≡◌, ◌⊎◌, inl, inr, refl, List, [], ◌∷◌, ◌++◌,
  map, some, none, true, false, not, ◌&&◌, arith, Bool,
}
use duplicacy.Prelude.Int.{pos, ltb_ℤ}
use duplicacy.Prelude.Int64.{sub64, add64}
use duplicacy.Prelude.Bytes.{eq_text}
use duplicacy.Prelude.Tables.{contains}
use duplicacy.Entry.{Text}
use duplicacy.Prune.{Snapshot, Snapshots, Task, fossilize, resurrect, chunk_of}
use duplicacy.Prune.Expand.{traverse, expand_snapshots, get_snapshot_chunks}
use duplicacy.Prune.Expand.Shared.{expand_snapshots-eq-get_snapshot_chunks}
use duplicacy.Prune.Expand.SequenceKey.{sequence_key-injective}
use duplicacy.Prune.Unreferenced.{prune_snapshots_non_exhaustive}
use duplicacy.Prune.Unreferenced.Exact.{
  is_permitted, is_referenced, flagged_in, unflagged_in, prune_snapshots_non_exhaustive-exact,
  prune_snapshots_non_exhaustive-refused,
}
use duplicacy.Prune.Retention.{RetentionPolicy, select_by_retention, select_snapshots}
use duplicacy.Prune.Retention.Due.{AreDue, select_by_retention-AreDue}
use duplicacy.Prune.Retention.Latest.{is_permitted-select_snapshots}
use duplicacy.Prune.Collection.{FossilCollection, is_deletable, limit_of}
use duplicacy.Prune.Collection.Safe.{HostHasNew, is_deletable-safe}
use duplicacy.Entry.Order.{head_byte}
use duplicacy.Prune.Exhaustive.{Sweep, prune_snapshots_exhaustive, chunk_dir}
use duplicacy.Prune.Exhaustive.Left.{copies, left}
use duplicacy.Prune.Exhaustive.Copies.{prune_snapshots_exhaustive-copies}
use duplicacy.Prune.Exhaustive.Collected.{InChunkDir, prune_snapshots_exhaustive-forgets}
use duplicacy.Prune.Operator.{Operator, run_task, path_at, nest, has_directory, directory_of}
use duplicacy.Prune.Operator.Available.{IsStored, fossilize-IsStored, resurrect-IsStored}
use duplicacy.Samples.{old_snapshot, new_snapshot}

abbrev some_snapshots : Snapshots
some_snapshots = ((b'r' ∷ b'@' ∷ b'h' ∷ []), old_snapshot ∷ new_snapshot ∷ []) ∷ []

abbrev chunks_of : Snapshot → List Text
chunks_of s = s.file_sequence ++ s.chunk_sequence

prune_snapshots_non_exhaustive-exact_example :
    (tasks : List Task) × (prune_snapshots_non_exhaustive
        (λ snapshots. some (map chunks_of snapshots))
        false
        false
        some_snapshots
      ≡ some tasks)
    × ((chunk : Text)
        → contains chunk (map chunk_of tasks)
          ≡ is_referenced chunks_of chunk (flagged_in some_snapshots)
            && not (is_referenced chunks_of chunk (unflagged_in some_snapshots)))
unfolding is_permitted
prune_snapshots_non_exhaustive-exact_example =
    prune_snapshots_non_exhaustive-exact chunks_of (λ snapshots. some (map chunks_of snapshots))
      (λ snapshots. refl) false some_snapshots refl

prune_snapshots_non_exhaustive-refused_example :
    prune_snapshots_non_exhaustive
      (λ snapshots. some (map chunks_of snapshots))
      false
      false
      (((b'r' ∷ b'@' ∷ b'h' ∷ []), old_snapshot ∷ []) ∷ [])
    ≡ none
unfolding is_permitted
prune_snapshots_non_exhaustive-refused_example =
    prune_snapshots_non_exhaustive-refused (λ snapshots. some (map chunks_of snapshots)) false false
      (((b'r' ∷ b'@' ∷ b'h' ∷ []), old_snapshot ∷ []) ∷ []) refl

expand_snapshots-eq-get_snapshot_chunks_example :
    expand_snapshots
      (λ hash. hash)
      (λ sequence. some sequence)
      (old_snapshot ∷ old_snapshot ∷ new_snapshot ∷ [])
    ≡ traverse
        (get_snapshot_chunks (λ hash. hash) (λ sequence. some sequence))
        (old_snapshot ∷ old_snapshot ∷ new_snapshot ∷ [])
expand_snapshots-eq-get_snapshot_chunks_example =
    expand_snapshots-eq-get_snapshot_chunks (λ sequence. some sequence) (λ sequence. sequence)
      (λ hash. hash) (old_snapshot ∷ old_snapshot ∷ new_snapshot ∷ [])
      ((refl, inl refl), ((refl, inl refl), ((refl, inl refl), tt)))

sequence_key-injective_example : old_snapshot.chunk_sequence ≡ (b'o' ∷ []) ∷ (b'm' ∷ []) ∷ []
sequence_key-injective_example =
    sequence_key-injective old_snapshot.chunk_sequence ((b'o' ∷ []) ∷ (b'm' ∷ []) ∷ []) refl

abbrev weekly : RetentionPolicy
weekly = record { age = pos 30; interval = pos 7 }

abbrev kept_snapshot : Snapshot
kept_snapshot = record old_snapshot { flag = false }

select_by_retention-AreDue_example :
    AreDue
      (λ start end. end)
      (pos 100)
      ((b'd' ∷ b'a' ∷ b'y' ∷ []) ∷ [])
      (weekly ∷ [])
      []
      (kept_snapshot ∷ kept_snapshot ∷ new_snapshot ∷ [])
      (select_by_retention
        (λ start end. end)
        (pos 100)
        false
        ((b'd' ∷ b'a' ∷ b'y' ∷ []) ∷ [])
        (weekly ∷ [])
        (kept_snapshot ∷ kept_snapshot ∷ new_snapshot ∷ []))
select_by_retention-AreDue_example =
    select_by_retention-AreDue (λ start end. end) (pos 100) ((b'd' ∷ b'a' ∷ b'y' ∷ []) ∷ [])
      (weekly ∷ []) false (kept_snapshot ∷ kept_snapshot ∷ new_snapshot ∷ [])

abbrev unflagged_snapshots : Snapshots
unflagged_snapshots = ((b'r' ∷ b'@' ∷ b'h' ∷ []), kept_snapshot ∷ new_snapshot ∷ []) ∷ []

is_permitted-select_snapshots_example :
    is_permitted false (
      select_snapshots
        (λ start end. end)
        (pos 100)
        false
        []
        []
        []
        (weekly ∷ [])
        unflagged_snapshots)
    ≡ true
unfolding is_permitted
is_permitted-select_snapshots_example =
    is_permitted-select_snapshots (λ start end. end) (pos 100) [] [] (weekly ∷ [])
      unflagged_snapshots refl refl

-- A collection that ended long after the first snapshot and long before the second.
abbrev some_collection : FossilCollection
some_collection = record {
  end_time = pos 100000;
  last_revisions = ((b'r' ∷ b'@' ∷ b'h' ∷ []), pos 1) ∷ [];
  deleted_revisions = [];
  fossils = (b'o' ∷ []) ∷ [];
  temporaries = [];
}

is_deletable-safe_example :
    HostHasNew some_collection (limit_of false some_collection) [] some_snapshots (b'h' ∷ [])
    ⊎ (ltb_ℤ (pos 200000) (sub64 (pos 300000) (pos 604800)) ≡ true)
unfolding is_deletable eq_text add64
is_deletable-safe_example =
    is_deletable-safe some_collection (pos 300000) false [] some_snapshots refl
      (b'r' ∷ b'@' ∷ b'h' ∷ []) old_snapshot (new_snapshot ∷ []) (inl refl) refl

-- One chunk stands in the storage twice, and another is referenced by no snapshot.
abbrev listed_files : List Text
listed_files = (b'a' ∷ b'b' ∷ []) ∷ (b'a' ∷ b'/' ∷ b'b' ∷ []) ∷ (b'c' ∷ b'd' ∷ []) ∷ []

prune_snapshots_exhaustive-copies_example :
    (sweep : Sweep) × (prune_snapshots_exhaustive false false []
        (λ snapshots. some (map (λ s. (b'a' ∷ b'b' ∷ []) ∷ []) snapshots))
        some_snapshots
        listed_files
      ≡ some sweep)
    × ((of_fossils of_deletes : Bool) (id : Text)
        → left of_fossils of_deletes id [] listed_files sweep.tasks ≡ (
            if is_referenced (λ s. (b'a' ∷ b'b' ∷ []) ∷ []) id (unflagged_in some_snapshots)
            then (if of_deletes
                then copies id [] listed_files - (copies id [] listed_files - 1)
                else copies id [] listed_files)
            else (if of_fossils then 0 else copies id [] listed_files)))
unfolding is_permitted
prune_snapshots_exhaustive-copies_example =
    prune_snapshots_exhaustive-copies [] (λ s. (b'a' ∷ b'b' ∷ []) ∷ [])
      (λ snapshots. some (map (λ s. (b'a' ∷ b'b' ∷ []) ∷ []) snapshots)) (λ snapshots. refl)
      some_snapshots listed_files refl

not_below : (file : Text) → head_byte file ≢ b'c' → InChunkDir file → ⊥
not_below file ne (rest, e) = ne (ap head_byte e)

prune_snapshots_exhaustive-forgets_example :
    prune_snapshots_exhaustive false false
      ((chunk_dir ++ (b'a' ∷ b'b' ∷ b'.' ∷ b'f' ∷ b's' ∷ b'l' ∷ [])) ∷ [])
      (λ snapshots. some (map chunks_of snapshots))
      some_snapshots
      ((b'a' ∷ b'b' ∷ b'.' ∷ b'f' ∷ b's' ∷ b'l' ∷ []) ∷ [])
    ≡ prune_snapshots_exhaustive false false []
        (λ snapshots. some (map chunks_of snapshots))
        some_snapshots
        ((b'a' ∷ b'b' ∷ b'.' ∷ b'f' ∷ b's' ∷ b'l' ∷ []) ∷ [])
prune_snapshots_exhaustive-forgets_example =
    prune_snapshots_exhaustive-forgets false false
      ((chunk_dir ++ (b'a' ∷ b'b' ∷ b'.' ∷ b'f' ∷ b's' ∷ b'l' ∷ [])) ∷ [])
      (λ snapshots. some (map chunks_of snapshots)) some_snapshots
      ((b'a' ∷ b'b' ∷ b'.' ∷ b'f' ∷ b's' ∷ b'l' ∷ []) ∷ [])
      (((b'a' ∷ b'b' ∷ b'.' ∷ b'f' ∷ b's' ∷ b'l' ∷ []), refl), tt)
      (not_below (b'a' ∷ b'b' ∷ b'.' ∷ b'f' ∷ b's' ∷ b'l' ∷ []) (λ e. omega (arith, e)), tt)

-- The chunk is one level deep, as FindChunk reads it at levels 0 and 1.
abbrev some_operator : Operator
some_operator = record {
  files = (chunk_dir ++ (b'a' ∷ b'b' ∷ b'/' ∷ b'c' ∷ b'd' ∷ [])) ∷ [];
  directories = [];
  fossils = [];
}

fossilize-IsStored_example :
    (after : Operator) × (run_task
        (0 ∷ 1 ∷ [])
        1
        (fossilize (b'a' ∷ b'b' ∷ b'c' ∷ b'd' ∷ []) [])
        some_operator
      ≡ some after)
    × IsStored (0 ∷ 1 ∷ []) 1 (b'a' ∷ b'b' ∷ b'c' ∷ b'd' ∷ []) true after.files
unfolding contains path_at eq_text
fossilize-IsStored_example =
    fossilize-IsStored (0 ∷ 1 ∷ []) 1 (b'a' ∷ b'b' ∷ b'c' ∷ b'd' ∷ []) some_operator
      (inr (inl refl)) (inl (1, inr (inl refl), refl))

abbrev some_fossil : Text
some_fossil = chunk_dir ++ (b'x' ∷ b'.' ∷ b'f' ∷ b's' ∷ b'l' ∷ [])

abbrev fossil_operator : Operator
fossil_operator = record { files = some_fossil ∷ []; directories = []; fossils = [] }

abbrev byte_8 : Text → ℕ
byte_8 s = head_byte (drop 8 s)

not_fossil : (level : ℕ) → path_at level (b'x' ∷ []) false ≢ some_fossil
unfolding path_at nest
not_fossil zero e = omega (arith, ap byte_8 e)
not_fossil (suc level) e = omega (arith, ap byte_8 e)

resurrect-IsStored_example :
    (after : Operator) × (run_task (0 ∷ []) 0 (resurrect (b'x' ∷ []) some_fossil) fossil_operator
      ≡ some after)
    × IsStored (0 ∷ []) 0 (b'x' ∷ []) false after.files
    × (contains some_fossil after.files ≡ false)
unfolding contains eq_text has_directory directory_of path_at nest
resurrect-IsStored_example =
    resurrect-IsStored (0 ∷ []) 0 (b'x' ∷ []) some_fossil fossil_operator (inl refl) refl (inr refl)
      not_fossil
