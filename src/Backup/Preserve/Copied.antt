-- ===== src/Backup/Preserve/Copied.antt =====
-- What Backup copies of the chunks of an unchanged file, for a file that does and one that does not
-- start in the last chunk that was preserved.
use duplicacy.Prelude.{
  ℕ, zero, suc, ◌+◌, ◌-◌, ◌^◌, ◌≤◌, ◌<◌, length, get_elem?, take, drop, get_elem?-in_range, true,
  false, ◌≡◌, refl, sym, ap, ◌∙◌, List, [], ◌∷◌, ◌++◌, some, arith,
}
use mathlib.Core.List.{append_assoc, append-nil}
use duplicacy.Prelude.Int.{ℤ, pos, ◌-ℤ◌, ◌+ℤ◌}
use duplicacy.Prelude.Int64.{add64, sub64, add64_one, wrap64, ◌==ℤ◌}
use duplicacy.Entry.{Text}
use duplicacy.EntryList.{EntryList, add_preserved_chunk}
use duplicacy.Backup.{ChunkTable}
use duplicacy.Backup.Ranges.{drop-get_elem?}
use duplicacy.Backup.Preserve.{
  Merging, copy_chunk, copy_chunks, first_chunk, rounds_after, place_chunks,
}

-- A table that the program can hold: as many lengths as hashes, and far fewer than an `int` counts.
abbrev pub IsTable : ChunkTable → Type 0
IsTable table = (length table.hashes ≡ length table.lengths) × (length table.hashes < 2 ^ 62)

abbrev pub preserving : List Text → List ℤ → EntryList → EntryList
preserving hashes lengths list = record list {
  preserved_chunk_hashes = list.preserved_chunk_hashes ++ hashes;
  preserved_chunk_lengths = list.preserved_chunk_lengths ++ lengths;
}

pub preserving-nil : (list : EntryList) → preserving [] [] list ≡ list
preserving-nil list =
    rw (append-nil list.preserved_chunk_hashes, append-nil list.preserved_chunk_lengths) refl

preserving_twice :
    (hash : Text) (size : ℤ) (hashes : List Text) (lengths : List ℤ) (list : EntryList)
    → preserving hashes lengths (add_preserved_chunk hash size list)
      ≡ preserving (hash ∷ hashes) (size ∷ lengths) list
unfolding add_preserved_chunk
preserving_twice hash size hashes lengths list = simp append_assoc

copy_chunk-lem :
    (table : ChunkTable) (i : ℕ) (hash : Text) (size : ℤ) (list : EntryList)
    → get_elem? table.hashes i ≡ some hash
    → get_elem? table.lengths i ≡ some size
    → copy_chunk table (pos i) list ≡ some (add_preserved_chunk hash size list)
unfolding copy_chunk
copy_chunk-lem table i hash size list eh es = ground arith

copy_chunks-lem :
    (table : ChunkTable) (n i : ℕ) (list : EntryList)
    → IsTable table
    → i + n ≤ length table.hashes
    → copy_chunks table n (pos i) list
      ≡ some (preserving (take n (drop i table.hashes)) (take n (drop i table.lengths)) list)
unfolding copy_chunks
copy_chunks-lem table zero i list t h = ap some (sym (preserving-nil list))
copy_chunks-lem table (suc n) i list (same, small) h =
    let (hash, eh) = get_elem?-in_range table.hashes i (omega arith) in
    let (size, es) = get_elem?-in_range table.lengths i (omega arith) in
    let next : add64 (pos i) (pos 1) ≡ pos (suc i) =
      add64_one i (omega arith) ∙ ap pos (omega arith) in
    rw
      (
        copy_chunk-lem table i hash size list eh es,
        next,
        copy_chunks,
        drop-get_elem? i table.hashes hash eh,
        drop-get_elem? i table.lengths size es,
      )
      (copy_chunks-lem table n (suc i) (add_preserved_chunk hash size list) (same, small)
          (omega arith)
        ∙ ap some (preserving_twice hash size _ _ list))

pub sub64_shift :
    (a s len : ℕ)
    → a < 2 ^ 62
    → s < 2 ^ 62
    → len < 2 ^ 62
    → s ≤ a
    → sub64 (pos a) (sub64 (pos s) (pos len)) ≡ pos (len + (a - s))
unfolding sub64 wrap64 ◌-ℤ◌
sub64_shift a s len ha hs hl h = ground arith

pub sub64_shift_one :
    (a s len : ℕ)
    → a < 2 ^ 62
    → s < 2 ^ 62
    → suc len < 2 ^ 62
    → s ≤ a
    → sub64 (pos a) (add64 (sub64 (pos s) (pos (suc len))) (pos 1)) ≡ pos (len + (a - s))
unfolding sub64 wrap64 ◌-ℤ◌ add64 ◌+ℤ◌
sub64_shift_one a s len ha hs hl h = ground arith

-- The chunks `s` to `e` of a table.
abbrev pub part : {A : Type 0} → List A → ℕ → ℕ → List A
part xs s e = take (e + 1 - s) (drop s xs)

rounds_after-lem :
    (table : ChunkTable) (s e : ℕ) → s ≤ e → rounds_after table (pos s) (pos e) ≡ e - s
unfolding ◌-ℤ◌
rounds_after-lem table s e h = ground arith

copy_rest :
    (table : ChunkTable) (s e : ℕ) (list : EntryList)
    → IsTable table
    → s ≤ e
    → e < length table.hashes
    → copy_chunks table (rounds_after table (pos s) (pos e)) (add64 (pos s) (pos 1)) list
      ≡ some (
          preserving
            (take (e - s) (drop (suc s) table.hashes))
            (take (e - s) (drop (suc s) table.lengths))
            list)
copy_rest table s e list (same, small) h k =
    let next : add64 (pos s) (pos 1) ≡ pos (suc s) =
      add64_one s (omega arith) ∙ ap pos (omega arith) in
    rw (next, rounds_after-lem table s e h)
      (copy_chunks-lem table (e - s) (suc s) list (same, small) (omega arith))

first_chunk_fresh :
    (table : ChunkTable) (m : Merging) (s : ℕ) (hash : Text) (size : ℤ)
    → (m.last ==ℤ pos s) ≡ false
    → get_elem? table.hashes s ≡ some hash
    → get_elem? table.lengths s ≡ some size
    → first_chunk table m (pos s)
      ≡ some (
        add_preserved_chunk hash size m.list,
        sub64 (pos s) (pos (length m.list.preserved_chunk_hashes)),
      )
unfolding first_chunk
first_chunk_fresh table m s hash size fresh eh es =
    let copied : copy_chunk table (pos s) m.list ≡ some (add_preserved_chunk hash size m.list) =
      copy_chunk-lem table s hash size m.list eh es in
    ground arith

first_chunk_joined :
    (table : ChunkTable) (m : Merging) (s : ℕ)
    → (m.last ==ℤ pos s) ≡ true
    → first_chunk table m (pos s)
      ≡ some (m.list, add64 (sub64 (pos s) (pos (length m.list.preserved_chunk_hashes))) (pos 1))
unfolding first_chunk
first_chunk_joined table m s joined = ground arith

-- A file that does not start in the last preserved chunk.
pub place_chunks_fresh :
    (table : ChunkTable) (m : Merging) (s e : ℕ)
    → IsTable table
    → (m.last ==ℤ pos s) ≡ false
    → s ≤ e
    → e < length table.hashes
    → place_chunks table m (pos s) (pos e)
      ≡ some (
        preserving (part table.hashes s e) (part table.lengths s e) m.list,
        sub64 (pos s) (pos (length m.list.preserved_chunk_hashes)),
      )
unfolding place_chunks
place_chunks_fresh table m s e (same, small) fresh h k =
    let (hash, eh) = get_elem?-in_range table.hashes s (omega arith) in
    let (size, es) = get_elem?-in_range table.lengths s (omega arith) in
    let count : e + 1 - s ≡ suc (e - s) = omega arith in
    rw
      (
        first_chunk_fresh table m s hash size fresh eh es,
        place_chunks,
        copy_rest table s e (add_preserved_chunk hash size m.list) (same, small) h k,
        count,
        drop-get_elem? s table.hashes hash eh,
        drop-get_elem? s table.lengths size es,
        preserving_twice,
      )
      refl

-- A file that starts in the last preserved chunk.
pub place_chunks_joined :
    (table : ChunkTable) (m : Merging) (s e : ℕ)
    → IsTable table
    → (m.last ==ℤ pos s) ≡ true
    → s ≤ e
    → e < length table.hashes
    → place_chunks table m (pos s) (pos e)
      ≡ some (
        preserving
            (take (e - s) (drop (suc s) table.hashes))
            (take (e - s) (drop (suc s) table.lengths))
            m.list,
        add64 (sub64 (pos s) (pos (length m.list.preserved_chunk_hashes))) (pos 1),
      )
unfolding place_chunks
place_chunks_joined table m s e t joined h k =
    rw (first_chunk_joined table m s joined, place_chunks, copy_rest table s e m.list t h k) refl
