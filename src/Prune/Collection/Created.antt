-- ===== src/Prune/Collection/Created.antt =====
-- What CreateFossilCollection records of the snapshots that are there.
use duplicacy.Prelude.{
  ◌≡◌, refl, sym, ap, ◌∙◌, inl, inr, In, List, [], ◌∷◌, Option, none, some, false, is_empty, arith,
}
use mathlib.Core.Path.{subst}
use duplicacy.Prelude.Bytes.{eq_text_self}
use duplicacy.Prelude.Tables.{lookup, put, lookup-put, HasDistinctKeys}
use duplicacy.Prelude.Int.{ℤ, pos}
use duplicacy.Entry.{Text}
use duplicacy.Prune.{Snapshot, Snapshots}
use duplicacy.Prune.Collection.{
  FossilCollection, latest, last_revisions_of, collection_with, create_fossil_collection,
}

-- Each id has a snapshot.
abbrev pub NoneEmpty : Snapshots → Type 0
NoneEmpty [] = Unit
NoneEmpty ((id, snapshots) ∷ rest) = (is_empty snapshots ≡ false) × NoneEmpty rest

-- The table keeps the ids that are not among the snapshots, and has the latest revisions of those
-- that are.
abbrev IsRecorded : Snapshots → List (Text × ℤ) → List (Text × ℤ) → Type 0
IsRecorded all_snapshots table after =
    ((id : Text) → lookup id all_snapshots ≡ none → lookup id after ≡ lookup id table)
    × ((id : Text) (s : Snapshot) (rest : List Snapshot)
        → In (id, s ∷ rest) all_snapshots
        → lookup id after ≡ some (latest s rest).revision)

abbrev revision_of : List Snapshot → Option ℤ
revision_of [] = none
revision_of (s ∷ rest) = some (latest s rest).revision

-- What holds of the first id holds of a pair that is the first.
at_first :
    {id key : Text} {snapshots others : List Snapshot} (table : List (Text × ℤ))
    → ◌≡◌ {A = Text × List Snapshot} (id, snapshots) (key, others)
    → lookup key table ≡ revision_of others
    → lookup id table ≡ revision_of snapshots
at_first table same h =
    subst (λ (p : Text × List Snapshot). lookup p.0 table ≡ revision_of p.1) (sym same) h

last_revisions_of-IsRecorded :
    (all_snapshots : Snapshots) (table : List (Text × ℤ))
    → NoneEmpty all_snapshots
    → HasDistinctKeys all_snapshots
    → (after : List (Text × ℤ)) × (last_revisions_of all_snapshots table ≡ some after)
      × IsRecorded all_snapshots table after
unfolding last_revisions_of lookup
last_revisions_of-IsRecorded [] table n d = (table, refl, (λ id e. refl, λ id s rest i. absurd i))
last_revisions_of-IsRecorded ((key, []) ∷ more) table (n, ns) d = absurd (cc)
last_revisions_of-IsRecorded ((key, t ∷ others) ∷ more) table (n, ns) (d, ds) =
    let revision = (latest t others).revision in
    let (after, done, (keeps, has)) =
      last_revisions_of-IsRecorded more (put key revision table) ns ds in
    (
      after,
      done,
      (
        λ id e. ground (arith, keeps id, lookup-put id key revision table),
        λ id s rest i. elim i [
          | inl same ↦
              at_first {others = t ∷ others} after same
                (keeps key d ∙ lookup-put key key revision table ∙ rw (eq_text_self key) refl)
          | inr j ↦ has id s rest j
        ],
      ),
    )

-- Where each id stands once and has a snapshot, CreateFossilCollection does not panic, and the
-- collection that it returns has, for each id, the revision of the last snapshot in its list.
pub create_fossil_collection-latest :
    (all_snapshots : Snapshots)
    → NoneEmpty all_snapshots
    → HasDistinctKeys all_snapshots
    → (collection : FossilCollection) × (create_fossil_collection all_snapshots ≡ some collection)
      × ((id : Text) (s : Snapshot) (rest : List Snapshot)
          → In (id, s ∷ rest) all_snapshots
          → lookup id collection.last_revisions ≡ some (latest s rest).revision)
unfolding create_fossil_collection
create_fossil_collection-latest all_snapshots n d =
    let (after, done, (keeps, has)) = last_revisions_of-IsRecorded all_snapshots [] n d in
    (
      record {
        end_time = pos 0;
        last_revisions = after;
        deleted_revisions = [];
        fossils = [];
        temporaries = [];
      },
      ap collection_with done,
      has,
    )
