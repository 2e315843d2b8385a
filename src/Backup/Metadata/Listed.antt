-- ===== src/Backup/Metadata/Listed.antt =====
-- ListRemoteFiles reads the entries that UploadSnapshot wrote, with the chunks that they had.
use mathlib.Core.List.{append_assoc, append-nil}
use mathlib.Core.Option
use duplicacy.Prelude.{
  ◌+◌, ◌*◌, ◌^◌, ◌<◌, length, length-append, true, Bool-cases, inl, inr, ◌≡◌, refl, sym, ap, ◌∙◌,
  List, [], ◌∷◌, ◌++◌, none, some, arith,
}
use duplicacy.Prelude.Int.{ℤ, pos, ltb_ℤ}
use duplicacy.Entry.{Text, Entry, is_file}
use duplicacy.Entry.Check.{check, accepted}
use duplicacy.Entry.Check.Decides.{check_iff}
use duplicacy.Backup.{ChunkTable}
use duplicacy.Backup.Preserve.Copied.{IsTable}
use duplicacy.Backup.Preserve.Extends.{at_start}
use duplicacy.Backup.Metadata.{
  Packing, start_packing, pack_entries, and_then, absolute, send, list_remote_files,
}
use duplicacy.Backup.Metadata.Steps.{IsPacking, Step, SamePacked, Step-other, Step-empty, Step-file}

-- An entry that `check` accepts with the chunks of the new snapshot; an empty file has no chunks.
pub record IsReady (table : ChunkTable) (entry : Entry) : Type 0 where
  pub passes : check table.lengths entry ≡ accepted
  pub empty :
      is_file entry ≡ true
      → entry.size ≡ pos 0
      → (entry.start_chunk ≡ pos 0) × (entry.end_chunk ≡ pos 0)

abbrev pub AllReady : ChunkTable → List Entry → Type 0
AllReady table [] = Unit
AllReady table (entry ∷ rest) = IsReady table entry × AllReady table rest

abbrev pub AllSamePacked : ChunkTable → List Text → List ℤ → List Entry → List Entry → Type 0
AllSamePacked table hashes lengths [] [] = Unit
AllSamePacked table hashes lengths [] (out ∷ outs) = ⊥
AllSamePacked table hashes lengths (entry ∷ rest) [] = ⊥
AllSamePacked table hashes lengths (entry ∷ rest) (out ∷ outs) =
    SamePacked table hashes lengths entry out × AllSamePacked table hashes lengths rest outs

module _ (table : ChunkTable) where
  step :
      (p : Packing) (entry : Entry)
      → IsTable table
      → IsPacking table p
      → length p.hashes + length table.hashes < 2 ^ 62
      → IsReady table entry
      → Step table p entry
  step p entry t v small ready =
      let (nonneg, cases) = (check_iff table.lengths entry).0 ready.passes in
      elim (Bool-cases (is_file entry)) [
        | inr other ↦ Step-other table p entry v other ready.passes
        | inl file ↦ elim (Bool-cases (ltb_ℤ (pos 0) entry.size)) [
          | inr none_left ↦
              let empty : entry.size ≡ pos 0 = ground arith in
              let (s, e) = ready.empty file empty in Step-empty table p entry v file empty s e
          | inl content ↦ elim cases [
            | inl other ↦ absurd (cc)
            | inr (inl empty) ↦ absurd (ground arith)
            | inr (inr placed) ↦ Step-file table p entry placed t v small file content
          ]
        ]
      ]

  -- The entries from `p` on: they are written, and read with the lengths of the final list.
  record Trip (p : Packing) (entries : List Entry) : Type 0 where
    final : Packing
    written : List Entry
    outs : List Entry
    done : pack_entries table entries p ≡ some (final, written)
    new_hashes : List Text
    new_lengths : List ℤ
    hash_prefix : final.hashes ≡ p.hashes ++ new_hashes
    length_prefix : final.lengths ≡ p.lengths ++ new_lengths
    read :
        list_remote_files (λ entry. true) final.lengths p.last_end_chunk written
        ≡ record { sent = outs; error = none }
    same : AllSamePacked table final.hashes final.lengths entries outs

  list_remote_files-cons :
      (lengths : List ℤ) (last last' : ℤ) (written out : Entry) (rest outs : List Entry)
      → absolute last written ≡ (out, last')
      → check lengths out ≡ accepted
      → list_remote_files (λ entry. true) lengths last' rest ≡ record { sent = outs; error = none }
      → list_remote_files (λ entry. true) lengths last (written ∷ rest)
        ≡ record { sent = out ∷ outs; error = none }
  unfolding list_remote_files
  list_remote_files-cons lengths last last' written out rest outs read passes more =
      ap
        (λ (r : Entry × ℤ).
          send (λ entry. true) lengths r.0 (check lengths r.0)
            (list_remote_files (λ entry. true) lengths r.1 rest))
        read
      ∙ rw (passes, more) refl

  trip :
      (entries : List Entry) (p : Packing)
      → IsTable table
      → IsPacking table p
      → length p.hashes + length entries * length table.hashes < 2 ^ 62
      → AllReady table entries
      → Trip p entries
  unfolding pack_entries list_remote_files
  trip [] p t v small ready = record {
    final = p;
    written = [];
    outs = [];
    done = refl;
    new_hashes = [];
    new_lengths = [];
    hash_prefix = sym (append-nil p.hashes);
    length_prefix = sym (append-nil p.lengths);
    read = refl;
    same = tt;
  }
  trip (entry ∷ entries) p t v small (ready, all_ready) =
      let one = step p entry t v (omega arith) ready in
      let room : length one.next.hashes + length entries * length table.hashes < 2 ^ 62 =
        omega (arith, ap length one.hash_prefix, length-append p.hashes one.new_hashes, one.few) in
      let rest = trip entries one.next t one.valid room all_ready in
      record {
        final = rest.final;
        written = one.written ∷ rest.written;
        outs = one.out ∷ rest.outs;
        done =
            ap (λ o. and_then table o (λ q. pack_entries table entries q)) one.done
            ∙ ap (Option.map (λ (r : Packing × List Entry). (r.0, one.written ∷ r.1))) rest.done;
        new_hashes = one.new_hashes ++ rest.new_hashes;
        new_lengths = one.new_lengths ++ rest.new_lengths;
        hash_prefix =
            rest.hash_prefix
            ∙ ap (λ t. t ++ rest.new_hashes) one.hash_prefix
            ∙ append_assoc p.hashes one.new_hashes rest.new_hashes;
        length_prefix =
            rest.length_prefix
            ∙ ap (λ t. t ++ rest.new_lengths) one.length_prefix
            ∙ append_assoc p.lengths one.new_lengths rest.new_lengths;
        read =
            list_remote_files-cons rest.final.lengths p.last_end_chunk one.next.last_end_chunk
              one.written one.out rest.written rest.outs one.read
              (rw rest.length_prefix (one.passes rest.new_lengths)) rest.read;
        same = (
          rw (rest.hash_prefix, rest.length_prefix) (one.same rest.new_hashes rest.new_lengths),
          rest.same,
        );
      }

-- What ListRemoteFiles reads back of the entries that UploadSnapshot wrote, with the list of chunk
-- lengths that UploadSnapshot made: no index is out of range, no entry is refused, and each entry
-- comes back with all its fields but the two chunk indices; these name, in the new list of chunks,
-- the chunks that the entry named before, for every file with content. The entries pass `check` with
-- the chunks of the snapshot, empty files have the chunk indices 0, and the chunks are fewer than
-- 2^62.
pub list_remote_files-pack_entries :
    (table : ChunkTable) (entries : List Entry)
    → IsTable table
    → length entries * length table.hashes < 2 ^ 62
    → AllReady table entries
    → (final : Packing) × (written : List Entry) × (outs : List Entry) × (pack_entries table entries
          start_packing
        ≡ some (final, written))
      × (list_remote_files (λ entry. true) final.lengths (pos 0) written
          ≡ record { sent = outs; error = none })
      × AllSamePacked table final.hashes final.lengths entries outs
list_remote_files-pack_entries table entries t small ready =
    let first : IsPacking table start_packing = record {
      even = refl;
      ends = at_start;
      last = 0;
      at_last = refl;
      small = omega arith;
    } in
    let all = trip table entries start_packing t first (omega arith) ready in
    (all.final, all.written, all.outs, all.done, all.read, all.same)
