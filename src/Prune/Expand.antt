-- ===== src/Prune/Expand.antt =====
-- The chunks that a snapshot references: GetSnapshotChunks, and expandSnapshots, which expands each
-- chunk sequence once.
pub mod Shared
pub mod SequenceKey
pub mod Groups
use duplicacy.Prelude.{
  ℕ, zero, suc, ◌+◌, ◌/◌, ◌%◌, ltb, length, is_empty, List, [], ◌∷◌, ◌++◌, map, Option, none, some,
  if◌then◌else◌, Bool,
}
use duplicacy.Prelude.Tables.{lookup}
use duplicacy.Prelude.Bytes.{eq_text}
use duplicacy.Entry.{Text}
use duplicacy.Prune.{Snapshot}

-- strconv.Itoa of a length: the decimal digits, for one more round than there are digits.
unfoldable pub digits : ℕ → ℕ → Text
digits zero n = []
digits (suc rounds) n =
    let rest = digits rounds (n / 10) in
    if ltb n 10 then (48 + n) ∷ [] else rest ++ (48 + n % 10) ∷ []

unfoldable pub itoa : ℕ → Text
unfolding digits
itoa n = digits (suc n) n

-- 58 is ':'.
unfoldable pub sequence_key : List Text → Text
unfolding itoa
sequence_key [] = []
sequence_key (hash ∷ rest) = itoa (length hash) ++ (58 ∷ (hash ++ sequence_key rest))

abbrev pub prepend {ℓ} : {A : Type ℓ} → Option A → Option (List A) → Option (List A)
prepend none ys = none
prepend (some y) none = none
prepend (some y) (some ys) = some (y ∷ ys)

-- A loop that ends at the first error.
unfoldable pub traverse {ℓ κ} :
    {A : Type ℓ} {B : Type κ} → (A → Option B) → List A → Option (List B)
traverse f [] = some []
traverse f (x ∷ xs) = prepend (f x) (traverse f xs)

-- The snapshots with one chunk sequence, under its key.
abbrev pub Groups : Type 0
Groups = List (Text × List Snapshot)

unfoldable pub add_to_group : Text → Snapshot → Groups → Groups
add_to_group key s [] = (key, s ∷ []) ∷ []
add_to_group key s ((k, members) ∷ rest) =
    if eq_text key k then (k, members ++ s ∷ []) ∷ rest else (k, members) ∷ add_to_group key s rest

unfoldable pub group_snapshots : List Snapshot → Groups → Groups
unfolding add_to_group sequence_key
group_snapshots [] groups = groups
group_snapshots (s ∷ rest) groups =
    group_snapshots rest (add_to_group (sequence_key s.chunk_sequence) s groups)

-- `none` stands for the panic on an empty group.
abbrev first_member : List Snapshot → Option Snapshot
first_member [] = none
first_member (s ∷ _) = some s

unfoldable pub find_loaded : List Snapshot → Option Snapshot
find_loaded [] = none
find_loaded (s ∷ rest) = if is_empty s.chunk_hashes then find_loaded rest else some s

unfoldable pub expandable_snapshot : List Snapshot → Option Snapshot
unfolding find_loaded
expandable_snapshot group = elim (find_loaded group) [ none ↦ first_member group | some s ↦ some s ]

-- The ids of the chunks, and what DownloadSequence and LoadChunks give for a sequence; `none` is an
-- error, which ends the command.
module _ (chunk_id : Text → Text) (load : List Text → Option (List Text)) where
  abbrev pub hashes_of : Snapshot → List Text → Option (List Text)
  hashes_of s [] = load s.chunk_sequence
  hashes_of s (hash ∷ rest) = some (hash ∷ rest)

  unfoldable pub expand_chunk_hashes : Snapshot → Option (List Text)
  expand_chunk_hashes s = elim (hashes_of s s.chunk_hashes) [
    | none ↦ none
    | some hashes ↦ some (map chunk_id hashes)
  ]

  abbrev pub metadata_chunks : Snapshot → List Text
  metadata_chunks s =
      map chunk_id s.file_sequence
      ++ map chunk_id s.chunk_sequence
      ++ map chunk_id s.length_sequence

  unfoldable pub get_snapshot_chunks : Snapshot → Option (List Text)
  get_snapshot_chunks s = elim (hashes_of s s.chunk_hashes) [
    | none ↦ none
    | some hashes ↦ some (metadata_chunks s ++ map chunk_id hashes)
  ]

  unfoldable pub expand_group : Text × List Snapshot → Option (Text × List Text)
  unfolding expand_chunk_hashes expandable_snapshot
  expand_group (key, members) = elim (expandable_snapshot members) [
    | none ↦ none
    | some s ↦ elim (expand_chunk_hashes s) [ none ↦ none | some ids ↦ some (key, ids) ]
  ]

  unfoldable pub chunk_list : List (Text × List Text) → Snapshot → Option (List Text)
  unfolding lookup sequence_key
  chunk_list expanded s = elim (lookup (sequence_key s.chunk_sequence) expanded) [
    | none ↦ none
    | some ids ↦ some (metadata_chunks s ++ ids)
  ]

  unfoldable pub expand_snapshots : List Snapshot → Option (List (List Text))
  unfolding traverse group_snapshots expand_group chunk_list
  expand_snapshots snapshots = elim (traverse expand_group (group_snapshots snapshots [])) [
    | none ↦ none
    | some expanded ↦ traverse (chunk_list expanded) snapshots
  ]
