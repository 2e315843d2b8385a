-- ===== src/Backup/Preserve/Same.antt =====
-- A file that is preserved names the same chunks as before, in the new table of chunks.
use duplicacy.Prelude.{
  ℕ, suc, ◌+◌, ◌-◌, ◌^◌, ◌≤◌, ◌<◌, length, get_elem?, take, drop, length-append, length-take,
  length-drop, get_elem?-in_range, Bool-cases, inl, inr, ◌≡◌, refl, sym, ap, ◌∙◌, List, [], ◌∷◌,
  ◌++◌, some, arith,
}
use mathlib.Core.Path.{ap₂, subst}
use mathlib.Core.List.{append_assoc}
use duplicacy.Prelude.Int.{ℤ, pos}
use duplicacy.Prelude.Int64.{add64, sub64, ◌==ℤ◌}
use duplicacy.Entry.{Text, Entry}
use duplicacy.EntryList.{EntryList}
use duplicacy.Backup.{ChunkTable}
use duplicacy.Backup.Ranges.{
  range, range-within, range-append, range-appended, get_elem?-drop, take_last,
}
use duplicacy.Backup.Preserve.{Merging, preserve, place_chunks, last_of, placed_at}
use duplicacy.Backup.Preserve.Copied.{IsTable, part, preserving}
use duplicacy.Backup.Preserve.Extends.{
  EndsIn, in_chunk, Extends, IsEven, Extends-fresh, Extends-joined,
}

-- The chunks of an entry are chunks of the table, as `check` has it.
pub record HasChunks (table : ChunkTable) (entry : Entry) : Type 0 where
  pub s : ℕ
  pub e : ℕ
  pub start : entry.start_chunk ≡ pos s
  pub end : entry.end_chunk ≡ pos e
  pub ordered : s ≤ e
  pub within : e < length table.hashes

-- `placed` names the chunks in the preserved ones that `remote` names in the table.
pub record SameChunks (table : ChunkTable) (remote : Entry) (list : EntryList) (placed : Entry)
    : Type 0 where
  pub names : List Text
  pub sizes : List ℤ
  pub old_hashes : range table.hashes remote.start_chunk remote.end_chunk ≡ some names
  pub new_hashes :
      range list.preserved_chunk_hashes placed.start_chunk placed.end_chunk ≡ some names
  pub old_lengths : range table.lengths remote.start_chunk remote.end_chunk ≡ some sizes
  pub new_lengths :
      range list.preserved_chunk_lengths placed.start_chunk placed.end_chunk ≡ some sizes

pub record Grows (list after : EntryList) (by : ℕ) : Type 0 where
  pub hashes : List Text
  pub lengths : List ℤ
  pub grown : after ≡ preserving hashes lengths list
  pub few : length hashes ≤ by

-- The preserved chunks of the one list are the first of the other's.
pub record Precedes (list after : EntryList) : Type 0 where
  pub hashes : List Text
  pub lengths : List ℤ
  pub hash_prefix : after.preserved_chunk_hashes ≡ list.preserved_chunk_hashes ++ hashes
  pub length_prefix : after.preserved_chunk_lengths ≡ list.preserved_chunk_lengths ++ lengths

pub Precedes-Grows : (list after : EntryList) (by : ℕ) → Grows list after by → Precedes list after
Precedes-Grows list after by g = record {
  hashes = g.hashes;
  lengths = g.lengths;
  hash_prefix = ap (λ (l : EntryList). l.preserved_chunk_hashes) g.grown;
  length_prefix = ap (λ (l : EntryList). l.preserved_chunk_lengths) g.grown;
}

pub SameChunks-Precedes :
    (table : ChunkTable) (remote placed : Entry) (list after : EntryList)
    → Precedes list after
    → SameChunks table remote list placed
    → SameChunks table remote after placed
SameChunks-Precedes table remote placed list after g same = record {
  names = same.names;
  sizes = same.sizes;
  old_hashes = same.old_hashes;
  new_hashes = rw g.hash_prefix (
      range-append list.preserved_chunk_hashes g.hashes placed.start_chunk placed.end_chunk
        same.names same.new_hashes);
  old_lengths = same.old_lengths;
  new_lengths = rw g.length_prefix (
      range-append list.preserved_chunk_lengths g.lengths placed.start_chunk placed.end_chunk
        same.sizes same.new_lengths);
}

pub place_chunks-Extends :
    (table : ChunkTable) (m : Merging) (s e : ℕ)
    → IsTable table
    → IsEven m.list
    → EndsIn table m.list m.last
    → s ≤ e
    → e < length table.hashes
    → (list : EntryList) × (delta : ℤ) × (place_chunks table m (pos s) (pos e) ≡ some (list, delta))
      × Extends table m.list list s e delta
place_chunks-Extends table m s e t v ends h k = elim (Bool-cases (m.last ==ℤ pos s)) [
  | inl joined ↦ Extends-joined table m s e t v ends joined h k
  | inr fresh ↦ Extends-fresh table m s e t v fresh h k
]

-- The last of the chunks `s` to `e`.
part_end :
    {A : Type 0} (base xs : List A) (s e : ℕ) (x : A)
    → get_elem? xs e ≡ some x
    → s ≤ e
    → base ++ part xs s e ≡ (base ++ take (e - s) (drop s xs)) ++ x ∷ []
part_end base xs s e x h k =
    let at_end : get_elem? (drop s xs) (e - s) ≡ some x =
      get_elem?-drop s (e - s) xs
      ∙ ap (get_elem? xs) (let same : s + (e - s) ≡ e = omega arith in same)
      ∙ h in
    let count : e + 1 - s ≡ suc (e - s) = omega arith in
    rw (count, append_assoc) (ap (λ t. base ++ t) (take_last (e - s) (drop s xs) x at_end))

pub EndsIn-Extends :
    (table : ChunkTable) (list after : EntryList) (s e : ℕ) (delta : ℤ)
    → IsTable table
    → s ≤ e
    → e < length table.hashes
    → Extends table list after s e delta
    → EndsIn table after (pos e)
EndsIn-Extends table list after s e delta (same, small) h k x =
    let (hash, eh) = get_elem?-in_range table.hashes e k in
    let (size, es) = get_elem?-in_range table.lengths e (omega arith) in
    in_chunk e hash size _ _ eh es (x.hashes ∙ part_end x.base_hashes table.hashes s e hash eh h)
      (x.lengths ∙ part_end x.base_lengths table.lengths s e size es h)

-- What Backup keeps true of the preserved chunks.
pub record IsMerging (table : ChunkTable) (m : Merging) : Type 0 where
  pub even : length m.list.preserved_chunk_hashes ≡ length m.list.preserved_chunk_lengths
  pub ends : EndsIn table m.list m.last

pub even-Extends :
    (table : ChunkTable) (list after : EntryList) (s e : ℕ) (delta : ℤ)
    → IsTable table
    → Extends table list after s e delta
    → length after.preserved_chunk_hashes ≡ length after.preserved_chunk_lengths
even-Extends table list after s e delta (same, small) x = omega (
  arith,
  ap length x.hashes,
  ap length x.lengths,
  length-append x.base_hashes (part table.hashes s e),
  length-append x.base_lengths (part table.lengths s e),
  length-take (e + 1 - s) (drop s table.hashes),
  length-take (e + 1 - s) (drop s table.lengths),
  length-drop s table.hashes,
  length-drop s table.lengths,
  x.as_many,
)

pub same_range :
    {A : Type 0} (base xs now : List A) (s e : ℕ)
    → now ≡ base ++ part xs s e
    → s ≤ e
    → e < length xs
    → range now (pos (length base)) (pos (length base + (e - s))) ≡ some (part xs s e)
same_range base xs now s e n h k = rw n (range-appended base xs s e h k ∙ range-within xs s e h k)

pub SameChunks-Extends :
    (table : ChunkTable) (entry remote : Entry) (list after : EntryList) (s e : ℕ) (delta : ℤ)
    → IsTable table
    → remote.start_chunk ≡ pos s
    → remote.end_chunk ≡ pos e
    → s ≤ e
    → e < length table.hashes
    → Extends table list after s e delta
    → SameChunks table remote after (placed_at table entry remote delta)
SameChunks-Extends table entry remote list after s e delta (same, small) es ee h k x =
    let first : sub64 remote.start_chunk delta ≡ pos (length x.base_hashes) =
      ap (λ (c : ℤ). sub64 c delta) es ∙ x.first in
    let final : sub64 remote.end_chunk delta ≡ pos (length x.base_hashes + (e - s)) =
      ap (λ (c : ℤ). sub64 c delta) ee ∙ x.final in
    record {
      names = part table.hashes s e;
      sizes = part table.lengths s e;
      old_hashes = ap₂ (range table.hashes) es ee ∙ range-within table.hashes s e h k;
      new_hashes =
          ap₂ (range after.preserved_chunk_hashes) first final
          ∙ same_range x.base_hashes table.hashes after.preserved_chunk_hashes s e x.hashes h k;
      old_lengths =
          ap₂ (range table.lengths) es ee ∙ range-within table.lengths s e h (omega arith);
      new_lengths =
          ap₂ (range after.preserved_chunk_lengths) first final
          ∙ ap (λ (n : ℕ). range after.preserved_chunk_lengths (pos n) (pos (n + (e - s))))
              x.as_many
          ∙ same_range x.base_lengths table.lengths after.preserved_chunk_lengths s e x.lengths h
              (omega arith);
    }

last_of-lem : (table : ChunkTable) (s e : ℕ) → s ≤ e → last_of table (pos s) (pos e) ≡ pos e
last_of-lem table s e h = ground arith

-- An unchanged file whose chunks are in the table of the last snapshot is placed, without an index
-- out of range, with the hash and the offsets that it had, so that it names the same chunks among
-- the preserved ones; these only grow at their end, and the next file finds them as this one did.
pub preserve-SameChunks :
    (table : ChunkTable) (m : Merging) (entry remote : Entry)
    → IsTable table
    → IsMerging table m
    → length m.list.preserved_chunk_hashes < 2 ^ 62
    → HasChunks table remote
    → (after : Merging) × (delta : ℤ) × (preserve table m entry remote
        ≡ some (after, placed_at table entry remote delta))
      × SameChunks table remote after.list (placed_at table entry remote delta)
      × Grows m.list after.list (length table.hashes)
      × IsMerging table after
unfolding preserve
preserve-SameChunks table m entry remote t v small c =
    let (list, delta, placing, x) =
      place_chunks-Extends table m c.s c.e t (record { even = v.even; small = small }) v.ends
        c.ordered c.within in
    let placing' : place_chunks table m remote.start_chunk remote.end_chunk ≡ some (list, delta) =
      ap₂ (place_chunks table m) c.start c.end ∙ placing in
    let last : last_of table remote.start_chunk remote.end_chunk ≡ pos c.e =
      ap₂ (last_of table) c.start c.end ∙ last_of-lem table c.s c.e c.ordered in
    (
      record m {
        list = list;
        last = last_of table remote.start_chunk remote.end_chunk;
        preserved_size = add64 m.preserved_size entry.size;
      },
      delta,
      rw (placing', preserve) refl,
      SameChunks-Extends table entry remote m.list list c.s c.e delta t c.start c.end c.ordered
          c.within x,
      record {
        hashes = x.new_hashes;
        lengths = x.new_lengths;
        grown = x.grown;
        few = omega (arith, x.few, c.within);
      },
      record {
        even = even-Extends table m.list list c.s c.e delta t x;
        ends =
            subst (EndsIn table list) (sym last)
              (EndsIn-Extends table m.list list c.s c.e delta t c.ordered c.within x);
      },
    )
