-- ===== src/Prune/Collection/Safe.antt =====
-- IsDeletable answers yes only where each id that counts has a new snapshot on its host, or is
-- inactive.
use duplicacy.Prelude.{
  ◌≡◌, refl, ap, ◌∙◌, ◌⊎◌, inl, inr, In, List, [], ◌∷◌, some, Bool, true, false, Bool-cases, arith,
}
use mathlib.Core.Path.{subst}
use duplicacy.Prelude.Bytes.{eq_text, eq_of_eq_text}
use duplicacy.Prelude.Tables.{lookup, contains}
use duplicacy.Prelude.Int.{ℤ, pos, ltb_ℤ}
use duplicacy.Prelude.Int64.{leb_ℤ, sub64}
use duplicacy.Entry.{Text}
use duplicacy.Prune.{Snapshot, Snapshots}
use duplicacy.Prune.Collection.{
  FossilCollection, HostScan, latest, host_of, or_zero, scan_revisions, limit_of, is_inactive,
  first_seen, note_new, scan_id, scan_ids, all_safe, is_deletable,
}
use duplicacy.Prune.Collection.Hosts.{
  Covers, Covers-first_seen, Covers-note_new, Covers-note_time, Covers-note_time_self,
  lookup-first_seen, first_seen-known, note_new-known, lookup-note_new,
}

-- A new snapshot of the list that ends after `limit`.
abbrev pub HasNew : ℤ → ℤ → List Snapshot → Type 0
HasNew last_revision limit snapshots =
    (s : Snapshot) × In s snapshots
    × (leb_ℤ s.revision last_revision ≡ false)
    × (ltb_ℤ limit s.end_time ≡ true)

scan_revisions-HasNew :
    (last_revision limit : ℤ) (snapshots : List Snapshot)
    → (scan_revisions last_revision limit snapshots).1 ≡ true
    → HasNew last_revision limit snapshots
unfolding scan_revisions
scan_revisions-HasNew last_revision limit [] h = absurd (cc)
scan_revisions-HasNew last_revision limit (s ∷ rest) h =
    elim (Bool-cases (leb_ℤ s.revision last_revision)) [
      | inl a ↦
          let (t, i, p, q) = scan_revisions-HasNew last_revision limit rest (ground arith) in
          (t, inr i, p, q)
      | inr a ↦ elim (Bool-cases (ltb_ℤ limit s.end_time)) [
        | inl b ↦ (s, inl refl, a, b)
        | inr b ↦
            let (t, i, p, q) = scan_revisions-HasNew last_revision limit rest (ground arith) in
            (t, inr i, p, q)
      ]
    ]

module _ (collection : FossilCollection) (limit : ℤ) (ignored_ids : List Text) where
  Covers-scan_id :
      (id : Text) (snapshots : List Snapshot) (scan : HostScan) (h : Text) (time : ℤ)
      → Covers scan h time
      → Covers (scan_id collection limit ignored_ids id snapshots scan) h time
  unfolding scan_id
  Covers-scan_id id [] scan h time k = k
  Covers-scan_id id (s ∷ rest) scan h time k = elim (Bool-cases (contains id ignored_ids)) [
    | inl e ↦ rw e k
    | inr e ↦
        let host = host_of id in
        let (new, found) =
          scan_revisions (or_zero (lookup id collection.last_revisions)) limit (s ∷ rest) in
        let seen = first_seen host scan (lookup host scan.has_new_snapshot) in
        let noted = note_new host new found seen in
        rw e (
          Covers-note_time noted host h time (latest s rest).end_time (
            Covers-note_new seen host h time new found
              (Covers-first_seen scan host h time (lookup host scan.has_new_snapshot) refl k)))
  ]

  Covers-scan_id_self :
      (id : Text) (s : Snapshot) (rest : List Snapshot) (scan : HostScan)
      → contains id ignored_ids ≡ false
      → Covers
          (scan_id collection limit ignored_ids id (s ∷ rest) scan)
          (host_of id)
          (latest s rest).end_time
  unfolding scan_id
  Covers-scan_id_self id s rest scan e =
      let host = host_of id in
      let (new, found) =
        scan_revisions (or_zero (lookup id collection.last_revisions)) limit (s ∷ rest) in
      let seen = first_seen host scan (lookup host scan.has_new_snapshot) in
      let noted = note_new host new found seen in
      rw e (
        Covers-note_time_self noted host (latest s rest).end_time (
          note_new-known seen host new found
            (first_seen-known scan host (lookup host scan.has_new_snapshot) refl)))

  Covers-scan_ids :
      (all_snapshots : Snapshots) (scan : HostScan) (h : Text) (time : ℤ)
      → Covers scan h time
      → Covers (scan_ids collection limit ignored_ids all_snapshots scan) h time
  unfolding scan_ids
  Covers-scan_ids [] scan h time k = k
  Covers-scan_ids ((id, snapshots) ∷ rest) scan h time k =
      Covers-scan_ids rest _ h time (Covers-scan_id id snapshots scan h time k)

  Covers-scan_ids_self :
      (all_snapshots : Snapshots) (scan : HostScan) (id : Text) (s : Snapshot)
      (rest : List Snapshot)
      → In (id, s ∷ rest) all_snapshots
      → contains id ignored_ids ≡ false
      → Covers
          (scan_ids collection limit ignored_ids all_snapshots scan)
          (host_of id)
          (latest s rest).end_time
  unfolding scan_ids
  Covers-scan_ids_self [] scan id s rest i e = absurd i
  Covers-scan_ids_self ((j, snapshots) ∷ more) scan id s rest (inl same) e =
      subst
        (λ (p : Text × List Snapshot).
          Covers
            (scan_ids collection limit ignored_ids more
              (scan_id collection limit ignored_ids p.0 p.1 scan))
            (host_of id) (latest s rest).end_time)
        same
        (Covers-scan_ids more _ (host_of id) (latest s rest).end_time
          (Covers-scan_id_self id s rest scan e))
  Covers-scan_ids_self ((j, snapshots) ∷ more) scan id s rest (inr i) e =
      Covers-scan_ids_self more _ id s rest i e

  -- Some id of the host has a new snapshot.
  abbrev pub HostHasNew : Snapshots → Text → Type 0
  HostHasNew all_snapshots host =
      (id : Text) × (snapshots : List Snapshot) × In (id, snapshots) all_snapshots
      × (contains id ignored_ids ≡ false)
      × (host_of id ≡ host)
      × HasNew (or_zero (lookup id collection.last_revisions)) limit snapshots

  scan_id-HostHasNew :
      (all_snapshots : Snapshots) (id : Text) (snapshots : List Snapshot) (scan : HostScan)
      (h : Text)
      → In (id, snapshots) all_snapshots
      → lookup h (scan_id collection limit ignored_ids id snapshots scan).has_new_snapshot
        ≡ some true
      → (lookup h scan.has_new_snapshot ≡ some true) ⊎ HostHasNew all_snapshots h
  unfolding scan_id
  scan_id-HostHasNew all_snapshots id [] scan h i e = inl e
  scan_id-HostHasNew all_snapshots id (s ∷ rest) scan h i e =
      let host = host_of id in
      let (new, found) =
        scan_revisions (or_zero (lookup id collection.last_revisions)) limit (s ∷ rest) in
      let seen = first_seen host scan (lookup host scan.has_new_snapshot) in
      let noted = note_new host new found seen in
      elim (Bool-cases (contains id ignored_ids)) [
        | inl b ↦ inl (ground arith)
        | inr b ↦ elim (lookup-note_new seen host h new found (ground arith)) [
          | inl k ↦ inl (lookup-first_seen scan host h (lookup host scan.has_new_snapshot) k)
          | inr (f, same) ↦
              inr (id, s ∷ rest, i, b, same, scan_revisions-HasNew _ limit (s ∷ rest) f)
        ]
      ]

  scan_ids-HostHasNew :
      (all_snapshots pending : Snapshots) (scan : HostScan) (h : Text)
      → ((p : Text × List Snapshot) → In p pending → In p all_snapshots)
      → lookup h (scan_ids collection limit ignored_ids pending scan).has_new_snapshot ≡ some true
      → (lookup h scan.has_new_snapshot ≡ some true) ⊎ HostHasNew all_snapshots h
  unfolding scan_ids
  scan_ids-HostHasNew all_snapshots [] scan h sub e = inl e
  scan_ids-HostHasNew all_snapshots ((id, snapshots) ∷ rest) scan h sub e =
      let found =
        scan_ids-HostHasNew all_snapshots rest
          (scan_id collection limit ignored_ids id snapshots scan) h (λ p i. sub p (inr i)) e in
      elim found [
        | inl k ↦
            scan_id-HostHasNew all_snapshots id snapshots scan h (sub (id, snapshots) (inl refl)) k
        | inr k ↦ inr k
      ]

all_safe-lookup :
    (now : ℤ) (times : List (Text × ℤ)) (table : List (Text × Bool)) (h : Text) (v : Bool)
    → all_safe now times table ≡ true
    → lookup h table ≡ some v
    → (v ≡ true) ⊎ (is_inactive now (or_zero (lookup h times)) ≡ true)
unfolding all_safe lookup
all_safe-lookup now times [] h v a e = absurd (cc)
all_safe-lookup now times ((host, true) ∷ rest) h v a e = elim (Bool-cases (eq_text h host)) [
  | inl q ↦ inl (ground arith)
  | inr q ↦ all_safe-lookup now times rest h v a (ground arith)
]
all_safe-lookup now times ((host, false) ∷ rest) h v a e = elim (Bool-cases (eq_text h host)) [
  | inl q ↦ inr (ground (arith, eq_of_eq_text h host q))
  | inr q ↦ all_safe-lookup now times rest h v (ground arith) (ground arith)
]

-- Where IsDeletable lets the fossils go, every id that has snapshots and is not ignored is safe:
-- some id of its host, not ignored either, has a new snapshot, made after those that the collection knows, that ended
-- after the collection, half a day later where the storage is not strongly consistent; or the
-- latest snapshot of the id ended more than seven days ago.
pub is_deletable-safe :
    (collection : FossilCollection) (now : ℤ) (is_strong_consistent : Bool)
    (ignored_ids : List Text) (all_snapshots : Snapshots)
    → (is_deletable collection now is_strong_consistent ignored_ids all_snapshots).0 ≡ true
    → (id : Text) (s : Snapshot) (rest : List Snapshot) → In (id, s ∷ rest) all_snapshots
    → contains id ignored_ids ≡ false
    → HostHasNew collection
        (limit_of is_strong_consistent collection)
        ignored_ids
        all_snapshots
        (host_of id)
      ⊎ (ltb_ℤ (latest s rest).end_time (sub64 now (pos 604800)) ≡ true)
unfolding is_deletable is_inactive
is_deletable-safe collection now is_strong_consistent ignored_ids all_snapshots d id s rest i e =
    let limit = limit_of is_strong_consistent collection in
    let start : HostScan = record {
      has_new_snapshot = [];
      last_snapshot_time = [];
      new_snapshots = [];
    } in
    let scan = scan_ids collection limit ignored_ids all_snapshots start in
    let ((v, known), time) =
      Covers-scan_ids_self collection limit ignored_ids all_snapshots start id s rest i e in
    let safe =
      all_safe-lookup now scan.last_snapshot_time scan.has_new_snapshot (host_of id) v
        (ground arith) known in
    elim safe [
      | inl new ↦
          elim (scan_ids-HostHasNew collection limit ignored_ids all_snapshots all_snapshots start
            (host_of id) (λ p j. j) (known ∙ ap some new)) [
              | inl none_yet ↦ absurd (cc)
              | inr evidence ↦ inl evidence
            ]
      | inr old ↦ inr (ground arith)
    ]
