-- ===== src/Prune/Collection.antt =====
-- FossilCollection of src/duplicacy_snapshotmanager.go: the fossils that a prune leaves, and when
-- they can be removed for good.
pub mod Safe
pub mod Hosts
pub mod Created
use duplicacy.Prelude.{
  ℕ, ◌==◌, List, [], ◌∷◌, ◌++◌, Option, none, some, if◌then◌else◌, Bool, true, false, not, ◌&&◌,
  ◌||◌, is_empty,
}
use duplicacy.Prelude.Int.{ℤ, pos, ltb_ℤ}
use duplicacy.Prelude.Int64.{add64, sub64, leb_ℤ}
use duplicacy.Prelude.Tables.{contains, lookup, put}
use duplicacy.Entry.{Text}
use duplicacy.Prune.{Snapshot, Snapshots}

pub record FossilCollection : Type 0 where
  pub end_time : ℤ
  pub last_revisions : List (Text × ℤ)
  pub deleted_revisions : List (Text × List ℤ)
  pub fossils : List Text
  pub temporaries : List Text

abbrev pub latest : Snapshot → List Snapshot → Snapshot
latest s [] = s
latest s (t ∷ rest) = latest t rest

-- `none` is the panic on an id without snapshots.
unfoldable pub last_revisions_of : Snapshots → List (Text × ℤ) → Option (List (Text × ℤ))
unfolding put
last_revisions_of [] table = some table
last_revisions_of ((id, []) ∷ rest) table = none
last_revisions_of ((id, s ∷ more) ∷ rest) table =
    last_revisions_of rest (put id ((latest s more).revision) table)

abbrev pub collection_with : Option (List (Text × ℤ)) → Option FossilCollection
collection_with none = none
collection_with (some table) = some (record {
  end_time = pos 0;
  last_revisions = table;
  deleted_revisions = [];
  fossils = [];
  temporaries = [];
})

unfoldable pub create_fossil_collection : Snapshots → Option FossilCollection
unfolding last_revisions_of
create_fossil_collection all_snapshots = collection_with (last_revisions_of all_snapshots [])

unfoldable pub add_fossil : Text → FossilCollection → FossilCollection
add_fossil hash collection = record collection { fossils = collection.fossils ++ hash ∷ [] }

unfoldable pub add_temporary : Text → FossilCollection → FossilCollection
add_temporary temporary collection = record collection {
  temporaries = collection.temporaries ++ temporary ∷ [];
}

unfoldable pub is_collection_empty : FossilCollection → Bool
is_collection_empty collection = is_empty collection.fossils && is_empty collection.temporaries

-- What follows the first '@', which is 64.
abbrev after_at : Text → Option Text
after_at [] = none
after_at (c ∷ cs) = if c == 64 then some cs else after_at cs

abbrev pub host_of : Text → Text
host_of id = elim (after_at id) [ none ↦ id | some host ↦ host ]

-- A missing key reads as 0.
abbrev pub or_zero : Option ℤ → ℤ
or_zero none = pos 0
or_zero (some n) = n

-- The maps `hasNewSnapshot` and `lastSnapshotTime`, and the list `newSnapshots`.
pub record HostScan : Type 0 where
  pub has_new_snapshot : List (Text × Bool)
  pub last_snapshot_time : List (Text × ℤ)
  pub new_snapshots : List Snapshot

-- The new snapshots of an id, up to the first that ends after `limit`, and whether there is one.
unfoldable pub scan_revisions : ℤ → ℤ → List Snapshot → List Snapshot × Bool
scan_revisions last_revision limit [] = ([], false)
scan_revisions last_revision limit (s ∷ rest) =
    let (more, found) = scan_revisions last_revision limit rest in
    if leb_ℤ s.revision last_revision
    then (more, found)
    else if ltb_ℤ limit s.end_time
    then (s ∷ [], true)
    else (s ∷ more, found)

-- 43200 is half a day of seconds, and 604800 is seven days.
abbrev pub limit_of : Bool → FossilCollection → ℤ
limit_of is_strong_consistent collection =
    add64 collection.end_time (if is_strong_consistent then pos 0 else pos 43200)

unfoldable pub is_inactive : ℤ → ℤ → Bool
is_inactive now time = ltb_ℤ (pos 0) time && ltb_ℤ time (sub64 now (pos 604800))

abbrev pub first_seen : Text → HostScan → Option Bool → HostScan
first_seen host scan none = record scan {
  has_new_snapshot = put host false scan.has_new_snapshot;
  last_snapshot_time = put host (pos 0) scan.last_snapshot_time;
}
first_seen host scan (some value) = scan

abbrev pub note_new : Text → List Snapshot → Bool → HostScan → HostScan
note_new host new found scan = record scan {
  has_new_snapshot = if found then put host true scan.has_new_snapshot else scan.has_new_snapshot;
  new_snapshots = scan.new_snapshots ++ new;
}

abbrev pub note_time : Text → ℤ → HostScan → HostScan
note_time host time scan = record scan {
  last_snapshot_time =
      if ltb_ℤ (or_zero (lookup host scan.last_snapshot_time)) time
      then put host time scan.last_snapshot_time
      else scan.last_snapshot_time;
}

module _ (collection : FossilCollection) (limit : ℤ) (ignored_ids : List Text) where
  unfoldable pub scan_id : Text → List Snapshot → HostScan → HostScan
  unfolding lookup put contains scan_revisions
  scan_id id [] scan = scan
  scan_id id (s ∷ rest) scan =
      let host = host_of id in
      let (new, found) =
        scan_revisions (or_zero (lookup id collection.last_revisions)) limit (s ∷ rest) in
      if contains id ignored_ids
      then scan
      else note_time host (latest s rest).end_time
          (note_new host new found (first_seen host scan (lookup host scan.has_new_snapshot)))

  unfoldable pub scan_ids : Snapshots → HostScan → HostScan
  unfolding scan_id
  scan_ids [] scan = scan
  scan_ids ((id, snapshots) ∷ rest) scan = scan_ids rest (scan_id id snapshots scan)

-- Each host has a new snapshot, or none at all for seven days.
unfoldable pub all_safe : ℤ → List (Text × ℤ) → List (Text × Bool) → Bool
unfolding lookup is_inactive
all_safe now times [] = true
all_safe now times ((host, value) ∷ rest) =
    let more = all_safe now times rest in
    if value then more else if is_inactive now (or_zero (lookup host times)) then more else false

unfoldable pub is_deletable :
    FossilCollection → ℤ → Bool → List Text → Snapshots → Bool × List Snapshot
unfolding scan_ids all_safe
is_deletable collection now is_strong_consistent ignored_ids all_snapshots =
    let scan =
      scan_ids collection (limit_of is_strong_consistent collection) ignored_ids all_snapshots
        (record { has_new_snapshot = []; last_snapshot_time = []; new_snapshots = [] }) in
    if all_safe now scan.last_snapshot_time scan.has_new_snapshot
    then (true, scan.new_snapshots)
    else (false, [])
