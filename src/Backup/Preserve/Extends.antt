-- ===== src/Backup/Preserve/Extends.antt =====
-- How the list of preserved chunks grows by a file: it then ends in the chunks of the file.
use duplicacy.Prelude.{
  ℕ, suc, ◌+◌, ◌-◌, ◌^◌, ◌≤◌, ◌<◌, length, get_elem?, take, drop, length-append, length-take, ◌≡◌,
  refl, sym, ap, ◌∙◌, List, [], ◌∷◌, ◌++◌, some, arith, true, false,
}
use mathlib.Core.List.{append_assoc}
use duplicacy.Prelude.Int.{ℤ, pos, negsuc}
use duplicacy.Prelude.Int64.{add64, sub64, ◌==ℤ◌}
use duplicacy.Entry.{Text}
use duplicacy.EntryList.{EntryList}
use duplicacy.Backup.{ChunkTable}
use duplicacy.Backup.Ranges.{drop-get_elem?}
use duplicacy.Backup.Preserve.{Merging, place_chunks}
use duplicacy.Backup.Preserve.Copied.{
  IsTable, part, preserving, place_chunks_fresh, place_chunks_joined, sub64_shift, sub64_shift_one,
}

-- The last chunk that was preserved is the last of the list.
pub data EndsIn (table : ChunkTable) (list : EntryList) : ℤ → Type 0 where
  at_start : EndsIn table list (negsuc 0)
  in_chunk :
      (k : ℕ) (hash : Text) (size : ℤ) (hashes : List Text) (lengths : List ℤ)
      → get_elem? table.hashes k ≡ some hash
      → get_elem? table.lengths k ≡ some size
      → list.preserved_chunk_hashes ≡ hashes ++ hash ∷ []
      → list.preserved_chunk_lengths ≡ lengths ++ size ∷ []
      → EndsIn table list (pos k)

-- The new list ends in the chunks `s` to `e`, which `delta` leads to, and begins with the old list.
pub record Extends (table : ChunkTable) (list after : EntryList) (s e : ℕ) (delta : ℤ)
    : Type 0 where
  pub base_hashes : List Text
  pub base_lengths : List ℤ
  pub hashes : after.preserved_chunk_hashes ≡ base_hashes ++ part table.hashes s e
  pub lengths : after.preserved_chunk_lengths ≡ base_lengths ++ part table.lengths s e
  pub as_many : length base_hashes ≡ length base_lengths
  pub first : sub64 (pos s) delta ≡ pos (length base_hashes)
  pub final : sub64 (pos e) delta ≡ pos (length base_hashes + (e - s))
  pub new_hashes : List Text
  pub new_lengths : List ℤ
  pub grown : after ≡ preserving new_hashes new_lengths list
  pub few : length new_hashes ≤ e + 1 - s

-- As many lengths as hashes, and few enough for the indices of a slice.
pub record IsEven (list : EntryList) : Type 0 where
  pub even : length list.preserved_chunk_hashes ≡ length list.preserved_chunk_lengths
  pub small : length list.preserved_chunk_hashes < 2 ^ 62

pub Extends-fresh :
    (table : ChunkTable) (m : Merging) (s e : ℕ)
    → IsTable table
    → IsEven m.list
    → (m.last ==ℤ pos s) ≡ false
    → s ≤ e
    → e < length table.hashes
    → (list : EntryList) × (delta : ℤ) × (place_chunks table m (pos s) (pos e) ≡ some (list, delta))
      × Extends table m.list list s e delta
Extends-fresh table m s e t v fresh h k = (
  preserving (part table.hashes s e) (part table.lengths s e) m.list,
  sub64 (pos s) (pos (length m.list.preserved_chunk_hashes)),
  place_chunks_fresh table m s e t fresh h k,
  record {
    base_hashes = m.list.preserved_chunk_hashes;
    base_lengths = m.list.preserved_chunk_lengths;
    hashes = refl;
    lengths = refl;
    as_many = v.even;
    first =
        sub64_shift s s (length m.list.preserved_chunk_hashes) (omega arith) (omega arith) v.small
          (omega arith)
        ∙ ap pos (omega arith);
    final =
        sub64_shift e s (length m.list.preserved_chunk_hashes) (omega arith) (omega arith) v.small
          h;
    new_hashes = part table.hashes s e;
    new_lengths = part table.lengths s e;
    grown = refl;
    few = omega (arith, length-take (e + 1 - s) (drop s table.hashes));
  },
)

-- What the list ends in, if the last preserved chunk is `s`.
record Ending (table : ChunkTable) (list : EntryList) (s : ℕ) : Type 0 where
  hash : Text
  size : ℤ
  hashes : List Text
  lengths : List ℤ
  hash_at : get_elem? table.hashes s ≡ some hash
  size_at : get_elem? table.lengths s ≡ some size
  hashes_end : list.preserved_chunk_hashes ≡ hashes ++ hash ∷ []
  lengths_end : list.preserved_chunk_lengths ≡ lengths ++ size ∷ []

ending_of :
    (table : ChunkTable) (list : EntryList) (last : ℤ) (s : ℕ)
    → EndsIn table list last
    → (last ==ℤ pos s) ≡ true
    → Ending table list s
ending_of table list last s at_start joined = absurd (ground arith)
ending_of table list last s (in_chunk k hash size hashes lengths eh es ph pl) joined =
    let same : k ≡ s = ground arith in
    record {
      hash = hash;
      size = size;
      hashes = hashes;
      lengths = lengths;
      hash_at = rw (← same) eh;
      size_at = rw (← same) es;
      hashes_end = ph;
      lengths_end = pl;
    }

part-cons :
    {A : Type 0} (xs : List A) (s e : ℕ) (x : A)
    → get_elem? xs s ≡ some x
    → s ≤ e
    → part xs s e ≡ x ∷ take (e - s) (drop (suc s) xs)
part-cons xs s e x h k =
    let count : e + 1 - s ≡ suc (e - s) = omega arith in rw (count, drop-get_elem? s xs x h) refl

joined_hashes :
    {A : Type 0} (base old xs : List A) (s e : ℕ) (x : A)
    → old ≡ base ++ x ∷ []
    → get_elem? xs s ≡ some x
    → s ≤ e
    → old ++ take (e - s) (drop (suc s) xs) ≡ base ++ part xs s e
joined_hashes base old xs s e x o h k =
    rw (o, append_assoc) (ap (λ t. base ++ t) (sym (part-cons xs s e x h k)))

pub Extends-joined :
    (table : ChunkTable) (m : Merging) (s e : ℕ)
    → IsTable table
    → IsEven m.list
    → EndsIn table m.list m.last
    → (m.last ==ℤ pos s) ≡ true
    → s ≤ e
    → e < length table.hashes
    → (list : EntryList) × (delta : ℤ) × (place_chunks table m (pos s) (pos e) ≡ some (list, delta))
      × Extends table m.list list s e delta
Extends-joined table m s e t v ends joined h k =
    let end = ending_of table m.list m.last s ends joined in
    let count : length m.list.preserved_chunk_hashes ≡ suc (length end.hashes) =
      omega (arith, length-append end.hashes (end.hash ∷ []), ap length end.hashes_end) in
    let rest = take (e - s) (drop (suc s) table.hashes) in
    (
      preserving rest (take (e - s) (drop (suc s) table.lengths)) m.list,
      add64 (sub64 (pos s) (pos (length m.list.preserved_chunk_hashes))) (pos 1),
      place_chunks_joined table m s e t joined h k,
      record {
        base_hashes = end.hashes;
        base_lengths = end.lengths;
        hashes = joined_hashes end.hashes _ table.hashes s e end.hash end.hashes_end end.hash_at h;
        lengths =
            joined_hashes end.lengths _ table.lengths s e end.size end.lengths_end end.size_at h;
        as_many = omega (
          arith,
          count,
          length-append end.lengths (end.size ∷ []),
          ap length end.lengths_end,
          v.even,
        );
        first = rw count (
            sub64_shift_one s s (length end.hashes) (omega arith) (omega arith) (omega arith)
              (omega arith)
            ∙ ap pos (omega arith));
        final =
            rw count
              (sub64_shift_one e s (length end.hashes) (omega arith) (omega arith) (omega arith) h);
        new_hashes = rest;
        new_lengths = take (e - s) (drop (suc s) table.lengths);
        grown = refl;
        few = omega (arith, length-take (e - s) (drop (suc s) table.hashes));
      },
    )
