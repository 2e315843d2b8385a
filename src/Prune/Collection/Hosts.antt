-- ===== src/Prune/Collection/Hosts.antt =====
-- What the maps of IsDeletable hold for a host, as the scan goes on.
use duplicacy.Prelude.{
  ◌≡◌, refl, sym, ◌⊎◌, inl, inr, List, Option, none, some, Bool, true, false, Bool-cases, arith,
}
use duplicacy.Prelude.Bytes.{eq_text, eq_text_self, eq_of_eq_text}
use duplicacy.Prelude.Tables.{lookup, lookup-put}
use duplicacy.Prelude.Int.{ℤ, pos, ltb_ℤ}
use duplicacy.Entry.{Text}
use duplicacy.Prune.{Snapshot}
use duplicacy.Prune.Collection.{HostScan, or_zero, first_seen, note_new, note_time}

-- The host has an entry, and its time is not before `time`.
abbrev pub Covers : HostScan → Text → ℤ → Type 0
Covers scan host time =
    ((v : Bool) × (lookup host scan.has_new_snapshot ≡ some v))
    × (ltb_ℤ (or_zero (lookup host scan.last_snapshot_time)) time ≡ false)

pub Covers-first_seen :
    (scan : HostScan) (host h : Text) (time : ℤ) (o : Option Bool)
    → lookup host scan.has_new_snapshot ≡ o
    → Covers scan h time
    → Covers (first_seen host scan o) h time
Covers-first_seen scan host h time none e ((v, k), l) = (
  elim (Bool-cases (eq_text h host)) [
    | inl q ↦ absurd (ground (arith, eq_of_eq_text h host))
    | inr q ↦ (v, rw (lookup-put h host false scan.has_new_snapshot, q) k)
  ],
  ground (arith, lookup-put h host (pos 0) scan.last_snapshot_time, eq_of_eq_text h host),
)
Covers-first_seen scan host h time (some value) e k = k

pub Covers-note_new :
    (scan : HostScan) (host h : Text) (time : ℤ) (new : List Snapshot) (found : Bool)
    → Covers scan h time
    → Covers (note_new host new found scan) h time
Covers-note_new scan host h time new false k = k
Covers-note_new scan host h time new true ((v, k), l) = elim (Bool-cases (eq_text h host)) [
  | inl e ↦ ((true, rw (lookup-put h host true scan.has_new_snapshot, e) refl), l)
  | inr e ↦ ((v, rw (lookup-put h host true scan.has_new_snapshot, e) k), l)
]

pub Covers-note_time :
    (scan : HostScan) (host h : Text) (time new_time : ℤ)
    → Covers scan h time
    → Covers (note_time host new_time scan) h time
Covers-note_time scan host h time new_time (k, l) =
    (k, ground (arith, lookup-put h host new_time scan.last_snapshot_time, eq_of_eq_text h host))

-- The entry that the first round leaves for its own host.
pub Covers-note_time_self :
    (scan : HostScan) (host : Text) (time : ℤ)
    → ((v : Bool) × (lookup host scan.has_new_snapshot ≡ some v))
    → Covers (note_time host time scan) host time
Covers-note_time_self scan host time k =
    (k, ground (arith, lookup-put host host time scan.last_snapshot_time, eq_text_self host))

pub lookup-first_seen :
    (scan : HostScan) (host h : Text) (o : Option Bool)
    → lookup h (first_seen host scan o).has_new_snapshot ≡ some true
    → lookup h scan.has_new_snapshot ≡ some true
lookup-first_seen scan host h none e = ground (arith, lookup-put h host false scan.has_new_snapshot)
lookup-first_seen scan host h (some value) e = e

pub first_seen-known :
    (scan : HostScan) (host : Text) (o : Option Bool)
    → lookup host scan.has_new_snapshot ≡ o
    → (v : Bool) × (lookup host (first_seen host scan o).has_new_snapshot ≡ some v)
first_seen-known scan host none e =
    (false, rw (lookup-put host host false scan.has_new_snapshot, eq_text_self host) refl)
first_seen-known scan host (some v) e = (v, e)

pub note_new-known :
    (scan : HostScan) (host : Text) (new : List Snapshot) (found : Bool)
    → ((v : Bool) × (lookup host scan.has_new_snapshot ≡ some v))
    → (v : Bool) × (lookup host (note_new host new found scan).has_new_snapshot ≡ some v)
note_new-known scan host new true k =
    (true, rw (lookup-put host host true scan.has_new_snapshot, eq_text_self host) refl)
note_new-known scan host new false k = k

pub lookup-note_new :
    (scan : HostScan) (host h : Text) (new : List Snapshot) (found : Bool)
    → lookup h (note_new host new found scan).has_new_snapshot ≡ some true
    → (lookup h scan.has_new_snapshot ≡ some true) ⊎ ((found ≡ true) × (host ≡ h))
lookup-note_new scan host h new false e = inl e
lookup-note_new scan host h new true e = elim (Bool-cases (eq_text h host)) [
  | inl q ↦ inr (refl, sym (eq_of_eq_text h host q))
  | inr q ↦ inl (ground (arith, lookup-put h host true scan.has_new_snapshot))
]
