-- ===== src/Prune/Expand/Shared.antt =====
-- The shared expansion gives each snapshot the chunks that it has on its own.
use duplicacy.Prelude.{
  ◌≡◌, refl, sym, ap, ◌∙◌, ◌⊎◌, inl, inr, List, [], ◌∷◌, ◌++◌, map, Option, none, some, true,
  Bool-cases, arith, is_empty,
}
use duplicacy.Prelude.Bytes.{eq_text, eq_of_eq_text}
use duplicacy.Prelude.Tables.{lookup}
use duplicacy.Entry.{Text}
use duplicacy.Prune.{Snapshot}
use duplicacy.Prune.Expand.{
  Groups, sequence_key, traverse, add_to_group, group_snapshots, find_loaded, expandable_snapshot,
  expand_chunk_hashes, metadata_chunks, get_snapshot_chunks, hashes_of, expand_group, chunk_list,
  expand_snapshots, prepend,
}
use duplicacy.Prune.Expand.SequenceKey.{sequence_key-injective}
use duplicacy.Prune.Expand.Groups.{has_key, AllGrouped, group_snapshots-AllGrouped}

traverse_congr {ℓ κ} :
    {A : Type ℓ} {B : Type κ} (f g : A → Option B) (x : A) (xs : List A)
    → f x ≡ g x
    → traverse f xs ≡ traverse g xs
    → traverse f (x ∷ xs) ≡ traverse g (x ∷ xs)
unfolding traverse
traverse_congr f g x xs e h = ap (λ o. prepend o (traverse f xs)) e ∙ ap (prepend (g x)) h

module _ (load : List Text → Option (List Text)) (hashes : List Text → List Text) where
  -- The sequence can be loaded, and hashes that are in memory are those that it holds.
  abbrev pub IsSound : Snapshot → Type 0
  IsSound s =
      (load s.chunk_sequence ≡ some (hashes s.chunk_sequence))
      × ((s.chunk_hashes ≡ []) ⊎ (s.chunk_hashes ≡ hashes s.chunk_sequence))

  abbrev pub AllSound : List Snapshot → Type 0
  AllSound [] = Unit
  AllSound (s ∷ rest) = IsSound s × AllSound rest

  -- The members of a group have its key.
  abbrev HaveKey : Text → List Snapshot → Type 0
  HaveKey key [] = Unit
  HaveKey key (s ∷ rest) = (sequence_key s.chunk_sequence ≡ key) × IsSound s × HaveKey key rest

  abbrev AreGroups : Groups → Type 0
  AreGroups [] = Unit
  AreGroups ((key, []) ∷ rest) = ⊥
  AreGroups ((key, s ∷ members) ∷ rest) = HaveKey key (s ∷ members) × AreGroups rest

  HaveKey-append :
      (key : Text) (members : List Snapshot) (s : Snapshot)
      → HaveKey key members
      → sequence_key s.chunk_sequence ≡ key
      → IsSound s
      → HaveKey key (members ++ s ∷ [])
  HaveKey-append key [] s h e k = (e, k, tt)
  HaveKey-append key (t ∷ members) s (f, i, h) e k = (f, i, HaveKey-append key members s h e k)

  AreGroups-add_to_group :
      (s : Snapshot) (groups : Groups)
      → IsSound s
      → AreGroups groups
      → AreGroups (add_to_group (sequence_key s.chunk_sequence) s groups)
  unfolding add_to_group
  AreGroups-add_to_group s [] k h = ((refl, k, tt), tt)
  AreGroups-add_to_group s ((key, []) ∷ rest) k h = absurd h
  AreGroups-add_to_group s ((key, t ∷ members) ∷ rest) k (h, hs) =
      elim (Bool-cases (eq_text (sequence_key s.chunk_sequence) key)) [
        | inl e ↦ rw e (HaveKey-append key (t ∷ members) s h (eq_of_eq_text _ key e) k, hs)
        | inr e ↦ rw e (h, AreGroups-add_to_group s rest k hs)
      ]

  AreGroups-group_snapshots :
      (snapshots : List Snapshot) (groups : Groups)
      → AllSound snapshots
      → AreGroups groups
      → AreGroups (group_snapshots snapshots groups)
  unfolding group_snapshots
  AreGroups-group_snapshots [] groups k h = h
  AreGroups-group_snapshots (s ∷ rest) groups (k, ks) h =
      AreGroups-group_snapshots rest (add_to_group (sequence_key s.chunk_sequence) s groups) ks
        (AreGroups-add_to_group s groups k h)

  find_loaded-HaveKey :
      (key : Text) (members : List Snapshot)
      → HaveKey key members
      → (find_loaded members ≡ none)
        ⊎ ((m : Snapshot) × (find_loaded members ≡ some m)
            × (sequence_key m.chunk_sequence ≡ key)
            × IsSound m)
  unfolding find_loaded
  find_loaded-HaveKey key [] h = inl refl
  find_loaded-HaveKey key (s ∷ rest) (e, k, h) = elim (Bool-cases (is_empty s.chunk_hashes)) [
    | inl b ↦ rw b (find_loaded-HaveKey key rest h)
    | inr b ↦ inr (s, rw b refl, e, k)
  ]

  expandable_snapshot-HaveKey :
      (key : Text) (s : Snapshot) (members : List Snapshot)
      → HaveKey key (s ∷ members)
      → (m : Snapshot) × (expandable_snapshot (s ∷ members) ≡ some m)
        × (sequence_key m.chunk_sequence ≡ key)
        × IsSound m
  unfolding expandable_snapshot
  expandable_snapshot-HaveKey key s members (e, k, h) =
      elim (find_loaded-HaveKey key (s ∷ members) (e, k, h)) [
        | inl f ↦ (s, rw (f, expandable_snapshot) refl, e, k)
        | inr (m, f, same, sound) ↦ (m, rw (f, expandable_snapshot) refl, same, sound)
      ]

  module _ (chunk_id : Text → Text) where
    hashes_of-loaded :
        (s : Snapshot) (held : List Text)
        → load s.chunk_sequence ≡ some (hashes s.chunk_sequence)
        → (held ≡ []) ⊎ (held ≡ hashes s.chunk_sequence)
        → hashes_of chunk_id load s held ≡ some (hashes s.chunk_sequence)
    hashes_of-loaded s [] h k = h
    hashes_of-loaded s (hash ∷ held) h (inl e) = absurd (cc)
    hashes_of-loaded s (hash ∷ held) h (inr e) = cc

    abbrev ids : List Text → List Text
    ids sequence = map chunk_id (hashes sequence)

    expand_chunk_hashes-IsSound :
        (s : Snapshot)
        → IsSound s
        → expand_chunk_hashes chunk_id load s ≡ some (ids s.chunk_sequence)
    unfolding expand_chunk_hashes
    expand_chunk_hashes-IsSound s (h, k) =
        rw (hashes_of-loaded s s.chunk_hashes h k, expand_chunk_hashes) refl

    get_snapshot_chunks-IsSound :
        (s : Snapshot)
        → IsSound s
        → get_snapshot_chunks chunk_id load s
          ≡ some (metadata_chunks chunk_id load s ++ ids s.chunk_sequence)
    unfolding get_snapshot_chunks
    get_snapshot_chunks-IsSound s (h, k) =
        rw (hashes_of-loaded s s.chunk_hashes h k, get_snapshot_chunks) refl

    expand_group-HaveKey :
        (key : Text) (s : Snapshot) (members : List Snapshot)
        → HaveKey key (s ∷ members)
        → (m : Snapshot) × (expand_group chunk_id load (key, s ∷ members)
            ≡ some (key, ids m.chunk_sequence))
          × (sequence_key m.chunk_sequence ≡ key)
    unfolding expand_group
    expand_group-HaveKey key s members h =
        let (m, found, same, sound) = expandable_snapshot-HaveKey key s members h in
        (m, rw (found, expand_chunk_hashes-IsSound m sound, expand_group) refl, same)

    -- Each snapshot whose key has a group finds its chunks there.
    expand_groups :
        (groups : Groups)
        → AreGroups groups
        → (expanded : List (Text × List Text)) × (traverse (expand_group chunk_id load) groups
            ≡ some expanded)
          × ((s : Snapshot)
              → has_key (sequence_key s.chunk_sequence) groups ≡ true
              → lookup (sequence_key s.chunk_sequence) expanded ≡ some (ids s.chunk_sequence))
    unfolding traverse lookup has_key
    expand_groups [] h = ([], refl, λ s e. absurd (cc))
    expand_groups ((key, []) ∷ rest) h = absurd h
    expand_groups ((key, t ∷ members) ∷ rest) (h, hs) =
        let (m, found, same) = expand_group-HaveKey key t members h in
        let (expanded, done, finds) = expand_groups rest hs in
        (
          (key, ids m.chunk_sequence) ∷ expanded,
          ap (λ o. prepend o (traverse (expand_group chunk_id load) rest)) found
              ∙ ap (prepend (some (key, ids m.chunk_sequence))) done,
          λ s e. elim (Bool-cases (eq_text (sequence_key s.chunk_sequence) key)) [
            | inl b ↦ rw b (
                ap (λ q. some (ids q))
                  (sequence_key-injective m.chunk_sequence s.chunk_sequence
                    (same ∙ sym (eq_of_eq_text _ key b))))
            | inr b ↦ rw b (finds s (ground arith))
          ],
        )

    chunk_list-get_snapshot_chunks :
        (expanded : List (Text × List Text)) (s : Snapshot)
        → IsSound s
        → lookup (sequence_key s.chunk_sequence) expanded ≡ some (ids s.chunk_sequence)
        → chunk_list chunk_id load expanded s ≡ get_snapshot_chunks chunk_id load s
    unfolding chunk_list
    chunk_list-get_snapshot_chunks expanded s k e =
        rw (e, chunk_list) (sym (get_snapshot_chunks-IsSound s k))

    chunk_lists-get_snapshot_chunks :
        (groups : Groups) (expanded : List (Text × List Text)) (snapshots : List Snapshot)
        → ((s : Snapshot)
            → has_key (sequence_key s.chunk_sequence) groups ≡ true
            → lookup (sequence_key s.chunk_sequence) expanded ≡ some (ids s.chunk_sequence))
        → AllSound snapshots
        → AllGrouped groups snapshots
        → traverse (chunk_list chunk_id load expanded) snapshots
          ≡ traverse (get_snapshot_chunks chunk_id load) snapshots
    unfolding traverse
    chunk_lists-get_snapshot_chunks groups expanded [] finds ks gs = refl
    chunk_lists-get_snapshot_chunks groups expanded (s ∷ rest) finds (k, ks) (g, gs) =
        traverse_congr (chunk_list chunk_id load expanded) (get_snapshot_chunks chunk_id load) s
          rest (chunk_list-get_snapshot_chunks expanded s k (finds s g))
          (chunk_lists-get_snapshot_chunks groups expanded rest finds ks gs)

    -- Expanding each chunk sequence once gives the snapshots the same chunks as expanding the
    -- snapshots one by one. The sequences can be loaded, and the hashes that a snapshot already
    -- has in memory are those of its sequence.
    pub expand_snapshots-eq-get_snapshot_chunks :
        (snapshots : List Snapshot)
        → AllSound snapshots
        → expand_snapshots chunk_id load snapshots
          ≡ traverse (get_snapshot_chunks chunk_id load) snapshots
    unfolding expand_snapshots
    expand_snapshots-eq-get_snapshot_chunks snapshots k =
        let groups = group_snapshots snapshots [] in
        let (expanded, done, finds) =
          expand_groups groups (AreGroups-group_snapshots snapshots [] k tt) in
        rw (done, expand_snapshots)
          (chunk_lists-get_snapshot_chunks groups expanded snapshots finds k
            (group_snapshots-AllGrouped snapshots []))
