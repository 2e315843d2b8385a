-- ===== src/Samples/Handling.antt =====
-- The theorems on the collections that a prune finds, at a concrete collection.
use duplicacy.Prelude.{some, In, ◌≡◌, refl, List, [], ◌∷◌, ◌++◌, not, ◌&&◌, ◌||◌, true, false}
use duplicacy.Prelude.Int.{pos}
use duplicacy.Prelude.Int64.{add64, sub64}
use duplicacy.Prelude.Bytes.{eq_text}
use duplicacy.Prelude.Tables.{contains, lookup}
use duplicacy.Entry.{Text}
use duplicacy.Prune.{Snapshot, Snapshots}
use duplicacy.Prune.Unreferenced.Exact.{is_referenced}
use duplicacy.Prune.Collection.{FossilCollection, is_deletable, latest, create_fossil_collection}
use duplicacy.Prune.Collection.Created.{create_fossil_collection-latest}
use duplicacy.Prune.Collections.{handle_collection, fossil_chunk, has_ghost}
use duplicacy.Prune.Collections.Handled.{
  is_deleted, is_resurrected, handle_collection-is_deleted, handle_collection-exclusive,
}
use duplicacy.Prune.Exhaustive.{chunk_dir}
use duplicacy.Samples.{old_snapshot, new_snapshot}

abbrev snapshots : Snapshots
snapshots = ((b'r' ∷ b'@' ∷ b'h' ∷ []), old_snapshot ∷ new_snapshot ∷ []) ∷ []

abbrev chunks_of : Snapshot → List Text
chunks_of s = s.file_sequence ++ s.chunk_sequence

-- Chunk `o` is referenced by the old snapshot alone, and `n` by the new one.
abbrev collection : FossilCollection
collection = record {
  end_time = pos 100000;
  last_revisions = ((b'r' ∷ b'@' ∷ b'h' ∷ []), pos 1) ∷ [];
  deleted_revisions = [];
  fossils =
      (chunk_dir ++ (b'o' ∷ b'.' ∷ b'f' ∷ b's' ∷ b'l' ∷ []))
      ∷ (chunk_dir ++ (b'n' ∷ b'.' ∷ b'f' ∷ b's' ∷ b'l' ∷ []))
      ∷ [];
  temporaries = (b't' ∷ []) ∷ [];
}

abbrev old_fossil : Text
old_fossil = chunk_dir ++ (b'o' ∷ b'.' ∷ b'f' ∷ b's' ∷ b'l' ∷ [])

handle_collection-is_deleted_example :
    (is_deleted old_fossil
        (handle_collection chunks_of false false collection (pos 300000) false [] snapshots).tasks
      ≡ contains old_fossil collection.fossils
          && not (is_referenced chunks_of (fossil_chunk old_fossil) (new_snapshot ∷ []))
        || contains old_fossil collection.temporaries)
    × (is_resurrected
          (fossil_chunk old_fossil)
          old_fossil
          (handle_collection chunks_of false false collection (pos 300000) false [] snapshots).tasks
        ≡ contains old_fossil collection.fossils
          && is_referenced chunks_of (fossil_chunk old_fossil) (new_snapshot ∷ []))
unfolding is_deletable eq_text add64 has_ghost
handle_collection-is_deleted_example =
    handle_collection-is_deleted chunks_of false collection (pos 300000) false [] snapshots refl
      (new_snapshot ∷ []) refl old_fossil

-- A collection that ended after the new snapshot did.
abbrev late_collection : FossilCollection
late_collection = record collection { end_time = pos 250000 }

abbrev new_fossil : Text
new_fossil = chunk_dir ++ (b'n' ∷ b'.' ∷ b'f' ∷ b's' ∷ b'l' ∷ [])

handle_collection-exclusive_example :
    is_deleted new_fossil
      (handle_collection chunks_of false true late_collection (pos 300000) false [] snapshots).tasks
    ≡ contains new_fossil late_collection.fossils || contains new_fossil late_collection.temporaries
unfolding is_deletable eq_text add64 sub64 has_ghost
handle_collection-exclusive_example =
    handle_collection-exclusive chunks_of true late_collection (pos 300000) false [] snapshots refl
      refl refl new_fossil

create_fossil_collection-latest_example :
    (made : FossilCollection) × (create_fossil_collection snapshots ≡ some made)
    × ((id : Text) (s : Snapshot) (rest : List Snapshot)
        → In (id, s ∷ rest) snapshots
        → lookup id made.last_revisions ≡ some (latest s rest).revision)
unfolding lookup
create_fossil_collection-latest_example =
    create_fossil_collection-latest snapshots (refl, tt) (refl, tt)
