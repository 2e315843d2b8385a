-- ===== src/Backup/Metadata/Steps.antt =====
-- One entry on its way from UploadSnapshot to ListRemoteFiles: a directory or link, an empty file, or
-- a file with content.
use mathlib.Core.Path.{ap₂, subst}
use mathlib.Core.List.{append_assoc, append-nil}
use duplicacy.Prelude.{
  in_range-of_get_elem?, length-take, length-drop, ℕ, ◌+◌, ◌-◌, ◌^◌, ◌≤◌, ◌<◌, length, drop, true,
  false, inl, inr, ◌≡◌, refl, sym, ap, ◌∙◌, List, [], ◌++◌, some, arith, length-append,
}
use duplicacy.Prelude.Int.{ℤ, pos, ltb_ℤ, ◌-ℤ◌, ◌+ℤ◌}
use duplicacy.Prelude.Int64.{add64, sub64, wrap64}
use duplicacy.Entry.{Text, Entry, is_file}
use duplicacy.Entry.Check.{check, accepted}
use duplicacy.Entry.Check.Decides.{IsPlaced, check_iff}
use duplicacy.EntryList.{EntryList}
use duplicacy.Backup.{ChunkTable}
use duplicacy.Backup.Ranges.{range, range-within, range-append}
use duplicacy.Backup.Preserve.Copied.{IsTable, part}
use duplicacy.Backup.Preserve.Extends.{EndsIn, at_start, in_chunk, Extends}
use duplicacy.Backup.Preserve.Same.{place_chunks-Extends, EndsIn-Extends, even-Extends, same_range}
use duplicacy.Backup.Metadata.{Packing, pack_chunks, relative, pack_entry, absolute}
use duplicacy.Backup.Metadata.Offsets.{IsPlaced-moved}
use duplicacy.Backup.Metadata.Packed.{as_list, as_merging, with_list, pack_chunks-eq}

-- A sum that leads back.
add64-sub64_self :
    (a b : ℕ) → a < 2 ^ 62 → b < 2 ^ 62 → add64 (sub64 (pos a) (pos b)) (pos b) ≡ pos a
unfolding add64 sub64 wrap64 ◌-ℤ◌ ◌+ℤ◌
add64-sub64_self a b ha hb = ground arith

zero-add64 : (a : ℕ) → a < 2 ^ 62 → add64 (pos 0) (pos a) ≡ pos a
unfolding add64 wrap64 ◌+ℤ◌
zero-add64 a h = ground arith

absolute-file :
    (last : ℤ) (entry : Entry) (start end : ℤ)
    → is_file entry ≡ true
    → add64 entry.start_chunk last ≡ start
    → add64 entry.end_chunk start ≡ end
    → absolute last entry ≡ (record entry { start_chunk = start; end_chunk = end }, end)
unfolding absolute
absolute-file last entry start end file s e = rw (file, s, e, absolute) refl

pack_entry-file :
    (table : ChunkTable) (p q : Packing) (entry : Entry) (delta start end : ℤ)
    → is_file entry ≡ true
    → ltb_ℤ (pos 0) entry.size ≡ true
    → pack_chunks table p entry.start_chunk entry.end_chunk ≡ some (q, delta)
    → sub64 entry.start_chunk delta ≡ start
    → sub64 entry.end_chunk delta ≡ end
    → pack_entry table p entry ≡ some (relative table q entry start end)
unfolding pack_entry
pack_entry-file table p q entry delta start end file content packing s e =
    rw (file, content, packing, pack_entry) (rw (s, e) refl)

-- What holds of the packed chunks between two entries.
pub record IsPacking (table : ChunkTable) (p : Packing) : Type 0 where
  pub even : length p.hashes ≡ length p.lengths
  pub ends : EndsIn table (as_list p) p.last_chunk
  pub last : ℕ
  pub at_last : p.last_end_chunk ≡ pos last
  pub small : last < 2 ^ 62

pack_chunks-Extends :
    (table : ChunkTable) (p : Packing) (s e : ℕ)
    → IsTable table
    → IsPacking table p
    → length p.hashes < 2 ^ 62
    → s ≤ e
    → e < length table.hashes
    → (list : EntryList) × (delta : ℤ) × (pack_chunks table p (pos s) (pos e)
        ≡ some (with_list p list, delta))
      × Extends table (as_list p) list s e delta
pack_chunks-Extends table p s e (same, few) v small h k =
    let (list, delta, placing, x) =
      place_chunks-Extends table (as_merging p) s e (same, few)
        (record { even = v.even; small = small }) v.ends h k in
    (list, delta, pack_chunks-eq table p s e (omega arith) small ∙ rw placing refl, x)

EndsIn-as_list :
    (table : ChunkTable) (p : Packing) (list : EntryList) (last : ℤ)
    → list.preserved_chunk_hashes ≡ p.hashes
    → list.preserved_chunk_lengths ≡ p.lengths
    → EndsIn table list last
    → EndsIn table (as_list p) last
EndsIn-as_list table p list last h l at_start = at_start
EndsIn-as_list table p list last h l (in_chunk k hash size hashes lengths eh es ph pl) =
    in_chunk k hash size hashes lengths eh es (sym h ∙ ph) (sym l ∙ pl)

-- The entry that is read names the chunks that the entry named, among the packed ones.
pub record SamePacked (table : ChunkTable) (hashes : List Text) (lengths : List ℤ)
    (entry out : Entry) : Type 0 where
  pub fields : out ≡ record entry { start_chunk = out.start_chunk; end_chunk = out.end_chunk }
  pub content :
      is_file entry ≡ true
      → ltb_ℤ (pos 0) entry.size ≡ true
      → (names : List Text) × (sizes : List ℤ) × (range table.hashes entry.start_chunk
            entry.end_chunk
          ≡ some names)
        × (range hashes out.start_chunk out.end_chunk ≡ some names)
        × (range table.lengths entry.start_chunk entry.end_chunk ≡ some sizes)
        × (range lengths out.start_chunk out.end_chunk ≡ some sizes)

-- One entry on its way through both.
pub record Step (table : ChunkTable) (p : Packing) (entry : Entry) : Type 0 where
  pub next : Packing
  pub written : Entry
  pub out : Entry
  pub done : pack_entry table p entry ≡ some (next, written)
  pub read : absolute p.last_end_chunk written ≡ (out, next.last_end_chunk)
  pub valid : IsPacking table next
  pub new_hashes : List Text
  pub new_lengths : List ℤ
  pub hash_prefix : next.hashes ≡ p.hashes ++ new_hashes
  pub length_prefix : next.lengths ≡ p.lengths ++ new_lengths
  pub few : length new_hashes ≤ length table.hashes
  pub passes : (more : List ℤ) → check (next.lengths ++ more) out ≡ accepted
  pub same :
      (hashes : List Text) (lengths : List ℤ)
      → SamePacked table (next.hashes ++ hashes) (next.lengths ++ lengths) entry out

module _ (table : ChunkTable) (p : Packing) (entry : Entry) where
  pub Step-other :
      IsPacking table p
      → is_file entry ≡ false
      → check table.lengths entry ≡ accepted
      → Step table p entry
  Step-other v other ok = record {
    next = p;
    written = entry;
    out = entry;
    done = unfold pack_entry in ground arith;
    read = unfold absolute in ground arith;
    valid = v;
    new_hashes = [];
    new_lengths = [];
    hash_prefix = sym (append-nil p.hashes);
    length_prefix = sym (append-nil p.lengths);
    few = omega arith;
    passes = λ more.
        (check_iff (p.lengths ++ more) entry).1
          (((check_iff table.lengths entry).0 ok).0, inl other);
    same = λ hashes lengths. record { fields = refl; content = λ file size. absurd (cc) };
  }

  -- An empty file is written with the chunks 0 and 0, and read with the last chunk so far.
  pub Step-empty :
      IsPacking table p
      → is_file entry ≡ true
      → entry.size ≡ pos 0
      → entry.start_chunk ≡ pos 0
      → entry.end_chunk ≡ pos 0
      → Step table p entry
  Step-empty v file empty start end = record {
    next = p;
    written = entry;
    out = record entry { start_chunk = pos v.last; end_chunk = pos v.last };
    done = unfold pack_entry in ground arith;
    read =
        absolute-file p.last_end_chunk entry (pos v.last) (pos v.last) file
          (ap₂ add64 start v.at_last ∙ zero-add64 v.last v.small)
          (ap (λ c. add64 c (pos v.last)) end ∙ zero-add64 v.last v.small)
        ∙ ap (λ l. (record entry { start_chunk = pos v.last; end_chunk = pos v.last }, l))
            (sym v.at_last);
    valid = v;
    new_hashes = [];
    new_lengths = [];
    hash_prefix = sym (append-nil p.hashes);
    length_prefix = sym (append-nil p.lengths);
    few = omega arith;
    passes = λ more. (check_iff (p.lengths ++ more) _).1 (ground arith, inr (inl empty));
    same = λ hashes lengths. record { fields = refl; content = λ f size. absurd (ground arith) };
  }

  module _ (placed : IsPlaced table.lengths entry) where
    open placed use {first, last}

    passes_at :
        (base more : List ℤ) (n : ℕ)
        → length base ≡ n
        → ltb_ℤ (pos 0) entry.size ≡ true
        → check
            (base ++ (part table.lengths first last ++ more))
            (record entry { start_chunk = pos n; end_chunk = pos (n + (last - first)) })
          ≡ accepted
    passes_at base more n e content = rw (← e) (
        (check_iff (base ++ (part table.lengths first last ++ more)) _).1
          (ground arith, inr (inr (IsPlaced-moved base table.lengths more entry placed))))

    pub Step-file :
        IsTable table
        → IsPacking table p
        → length p.hashes + length table.hashes < 2 ^ 62
        → is_file entry ≡ true
        → ltb_ℤ (pos 0) entry.size ≡ true
        → Step table p entry
    Step-file (same, few) v small file content =
        let within : last < length table.hashes = omega (
          arith,
          same,
          in_range-of_get_elem? table.lengths last placed.last_length placed.has_last,
        ) in
        let (list, delta, packing, x) =
          pack_chunks-Extends table p first last (same, few) v (omega arith) placed.ordered
            within in
        let base : ℕ = length x.base_hashes in
        let packing' : pack_chunks table p entry.start_chunk entry.end_chunk
            ≡ some (with_list p list, delta) =
          ap₂ (pack_chunks table p) placed.starts placed.ends ∙ packing in
        let start : sub64 entry.start_chunk delta ≡ pos base =
          ap (λ c. sub64 c delta) placed.starts ∙ x.first in
        let end : sub64 entry.end_chunk delta ≡ pos (base + (last - first)) =
          ap (λ c. sub64 c delta) placed.ends ∙ x.final in
        let (next, written) =
          relative table (with_list p list) entry (pos base) (pos (base + (last - first))) in
        let bound : base + (last - first) < 2 ^ 62 = omega (
          arith,
          x.few,
          within,
          placed.ordered,
          ap length x.hashes,
          ap (λ (l : EntryList). length l.preserved_chunk_hashes) x.grown,
          length-append x.base_hashes (part table.hashes first last),
          length-append p.hashes x.new_hashes,
          length-take (last + 1 - first) (drop first table.hashes),
          length-drop first table.hashes,
        ) in
        record {
          next = next;
          written = written;
          out = record entry { start_chunk = pos base; end_chunk = pos (base + (last - first)) };
          done =
              pack_entry-file table p (with_list p list) entry delta (pos base)
                (pos (base + (last - first))) file content packing' start end;
          read =
              absolute-file p.last_end_chunk written (pos base) (pos (base + (last - first)))
                (unfold is_file in file)
                (ap (λ l. add64 (sub64 (pos base) l) l) v.at_last
                  ∙ add64-sub64_self base v.last (omega (arith, bound)) v.small)
                (add64-sub64_self (base + (last - first)) base bound (omega (arith, bound)));
          valid = record {
            even = even-Extends table (as_list p) list first last delta (same, few) x;
            ends = subst (EndsIn table (as_list next)) (sym placed.ends) (
                EndsIn-as_list table next list (pos last) refl refl (
                  EndsIn-Extends table (as_list p) list first last delta (same, few) placed.ordered
                    within x));
            last = base + (last - first);
            at_last = refl;
            small = bound;
          };
          new_hashes = x.new_hashes;
          new_lengths = x.new_lengths;
          hash_prefix = ap (λ (l : EntryList). l.preserved_chunk_hashes) x.grown;
          length_prefix = ap (λ (l : EntryList). l.preserved_chunk_lengths) x.grown;
          few = omega (arith, x.few, within);
          passes = λ more.
              rw (x.lengths, append_assoc)
                (passes_at x.base_lengths more base (sym x.as_many) content);
          same = λ hashes lengths. record {
            fields = refl;
            content = λ f z. (
              part table.hashes first last,
              part table.lengths first last,
              ap₂ (range table.hashes) placed.starts placed.ends
                  ∙ range-within table.hashes first last placed.ordered within,
              range-append next.hashes hashes (pos base) (pos (base + (last - first)))
                  (part table.hashes first last)
                  (same_range x.base_hashes table.hashes next.hashes first last x.hashes
                    placed.ordered within),
              ap₂ (range table.lengths) placed.starts placed.ends
                  ∙ range-within table.lengths first last placed.ordered
                      (omega (arith, within, same)),
              range-append next.lengths lengths (pos base) (pos (base + (last - first)))
                  (part table.lengths first last)
                  (ap (λ (n : ℕ). range next.lengths (pos n) (pos (n + (last - first)))) x.as_many
                    ∙ same_range x.base_lengths table.lengths next.lengths first last x.lengths
                        placed.ordered (omega (arith, within, same))),
            );
          };
        }
