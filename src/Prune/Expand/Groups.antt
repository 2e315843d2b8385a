-- ===== src/Prune/Expand/Groups.antt =====
-- The groups of expandSnapshots hold each snapshot under its key.
use duplicacy.Prelude.{◌≡◌, refl, List, [], ◌∷◌, Bool, true, false, arith, ◌||◌}
use duplicacy.Prelude.Bytes.{eq_text, eq_text_self, eq_of_eq_text}
use duplicacy.Entry.{Text}
use duplicacy.Prune.{Snapshot}
use duplicacy.Prune.Expand.{Groups, sequence_key, add_to_group, group_snapshots}

-- Some group has the key.
unfoldable pub has_key : Text → Groups → Bool
has_key k [] = false
has_key k ((j, members) ∷ rest) = eq_text k j || has_key k rest

has_key-add_to_group :
    (k key : Text) (s : Snapshot) (groups : Groups)
    → has_key k (add_to_group key s groups) ≡ eq_text k key || has_key k groups
unfolding add_to_group has_key
has_key-add_to_group k key s [] = refl
has_key-add_to_group k key s ((j, members) ∷ rest) =
    ground (arith, has_key-add_to_group k key s rest, eq_of_eq_text key j)

has_key-group_snapshots :
    (k : Text) (snapshots : List Snapshot) (groups : Groups)
    → has_key k groups ≡ true
    → has_key k (group_snapshots snapshots groups) ≡ true
unfolding group_snapshots
has_key-group_snapshots k [] groups h = h
has_key-group_snapshots k (s ∷ rest) groups h =
    has_key-group_snapshots k rest (add_to_group (sequence_key s.chunk_sequence) s groups)
      (ground (arith, has_key-add_to_group k (sequence_key s.chunk_sequence) s groups))

abbrev pub AllGrouped : Groups → List Snapshot → Type 0
AllGrouped groups [] = Unit
AllGrouped groups (s ∷ rest) =
    (has_key (sequence_key s.chunk_sequence) groups ≡ true) × AllGrouped groups rest

pub group_snapshots-AllGrouped :
    (snapshots : List Snapshot) (groups : Groups)
    → AllGrouped (group_snapshots snapshots groups) snapshots
unfolding group_snapshots
group_snapshots-AllGrouped [] groups = tt
group_snapshots-AllGrouped (s ∷ rest) groups =
    let key = sequence_key s.chunk_sequence in
    (
      has_key-group_snapshots key rest (add_to_group key s groups)
          (ground (arith, has_key-add_to_group key key s groups, eq_text_self key)),
      group_snapshots-AllGrouped rest (add_to_group key s groups),
    )
