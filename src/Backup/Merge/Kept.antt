-- ===== src/Backup/Merge/Kept.antt =====
-- The entry list after the walk of Backup: its entries name the chunks that they had.
use mathlib.Core.Path.{ap₂, subst}
use mathlib.Core.List.{append_assoc, append-nil}
use duplicacy.Prelude.{
  ℕ, ◌+◌, ◌*◌, ◌^◌, ◌≤◌, ◌<◌, List, [], ◌∷◌, ◌++◌, some, ◌≡◌, refl, sym, ap, ◌∙◌, inl, inr, arith,
  Option-cases, length, length-append,
}
use duplicacy.Prelude.Int.{ℤ}
use duplicacy.Entry.{Text, Entry}
use duplicacy.EntryList.{EntryList}
use duplicacy.EntryList.Disk.{Library, add_entry, completed, store, create_on_disk_file}
use duplicacy.EntryList.Disk.Contents.{Holds, add_entry-Holds}
use duplicacy.Backup.{ChunkTable}
use duplicacy.Backup.Preserve.{Merging}
use duplicacy.Backup.Preserve.Copied.{IsTable}
use duplicacy.Backup.Preserve.Extends.{EndsIn, at_start, in_chunk}
use duplicacy.Backup.Preserve.Same.{Grows, Precedes, Precedes-Grows, IsMerging}
use duplicacy.Backup.Merge.{go_on, added, merge}
use duplicacy.Backup.Merge.Lookup.{IsListing, find_path, merge_by_path, merge-eq-merge_by_path}
use duplicacy.Backup.Merge.Placed.{
  AllOutcomes, HaveChunks, Holds-Grows, Outcome-Precedes, Treated, Treated-new, Treated-found,
}

module _ (lib : Library) where
  hashes-add_entry :
      (entry : Entry) (list : EntryList)
      → (add_entry lib entry list).preserved_chunk_hashes ≡ list.preserved_chunk_hashes
  unfolding add_entry store create_on_disk_file
  hashes-add_entry entry list = ground arith

  lengths-add_entry :
      (entry : Entry) (list : EntryList)
      → (add_entry lib entry list).preserved_chunk_lengths ≡ list.preserved_chunk_lengths
  unfolding add_entry store create_on_disk_file
  lengths-add_entry entry list = ground arith

  EndsIn-add_entry :
      (table : ChunkTable) (entry : Entry) (list : EntryList) (last : ℤ)
      → EndsIn table list last
      → EndsIn table (add_entry lib entry list) last
  EndsIn-add_entry table entry list last at_start = at_start
  EndsIn-add_entry table entry list last (in_chunk k hash size hashes lengths eh es ph pl) =
      in_chunk k hash size hashes lengths eh es (hashes-add_entry entry list ∙ ph)
        (lengths-add_entry entry list ∙ pl)

  IsMerging-added :
      (table : ChunkTable) (m : Merging) (entry : Entry)
      → IsMerging table m
      → IsMerging table (added table lib m entry)
  IsMerging-added table m entry v = record {
    even =
        ap length (hashes-add_entry entry m.list)
        ∙ v.even
        ∙ sym (ap length (lengths-add_entry entry m.list));
    ends = EndsIn-add_entry table entry m.list m.last v.ends;
  }

  Precedes-add_entry : (entry : Entry) (list : EntryList) → Precedes list (add_entry lib entry list)
  Precedes-add_entry entry list = record {
    hashes = [];
    lengths = [];
    hash_prefix = hashes-add_entry entry list ∙ sym (append-nil list.preserved_chunk_hashes);
    length_prefix = lengths-add_entry entry list ∙ sym (append-nil list.preserved_chunk_lengths);
  }

Precedes-trans : (a b c : EntryList) → Precedes a b → Precedes b c → Precedes a c
Precedes-trans a b c p q = record {
  hashes = p.hashes ++ q.hashes;
  lengths = p.lengths ++ q.lengths;
  hash_prefix =
      q.hash_prefix
      ∙ ap (λ t. t ++ q.hashes) p.hash_prefix
      ∙ append_assoc a.preserved_chunk_hashes p.hashes q.hashes;
  length_prefix =
      q.length_prefix
      ∙ ap (λ t. t ++ q.lengths) p.length_prefix
      ∙ append_assoc a.preserved_chunk_lengths p.lengths q.lengths;
}

abbrev pub paths : List Entry → List Text
paths [] = []
paths (entry ∷ rest) = entry.path ∷ paths rest

module _ (lib : Library) (table : ChunkTable) (remotes : List Entry) where
  -- A run over the local entries that starts from `m`, where the list stands for `entries`.
  record Run (m : Merging) (entries locals : List Entry) : Type 0 where
    after : Merging
    outs : List Entry
    done : merge_by_path table lib remotes locals m ≡ some after
    holds : Holds lib after.list (entries ++ outs)
    outcomes : AllOutcomes table remotes after.list locals outs
    same_paths : paths outs ≡ paths locals
    precedes : Precedes m.list after.list

  treated :
      (m : Merging) (entry : Entry)
      → IsTable table
      → IsMerging table m
      → length m.list.preserved_chunk_hashes < 2 ^ 62
      → HaveChunks table remotes
      → Treated lib table remotes m entry (find_path entry.path remotes)
  treated m entry t v small have = elim (Option-cases (find_path entry.path remotes)) [
    | inl e ↦ rw e (Treated-new lib table remotes m entry e v)
    | inr (remote, e) ↦ rw e (Treated-found lib table remotes m entry remote t v small have e)
  ]

  path-completed : (entry : Entry) → (completed lib entry).path ≡ entry.path
  path-completed entry = ground arith

  length-Grows :
      (list after : EntryList) (by : ℕ)
      → Grows list after by
      → length after.preserved_chunk_hashes ≤ length list.preserved_chunk_hashes + by
  length-Grows list after by g = omega (
    arith,
    ap (λ (l : EntryList). length l.preserved_chunk_hashes) g.grown,
    length-append list.preserved_chunk_hashes g.hashes,
    g.few,
  )

  run :
      (locals : List Entry) (m : Merging) (entries : List Entry)
      → IsTable table
      → IsMerging table m
      → HaveChunks table remotes
      → length m.list.preserved_chunk_hashes + length locals * length table.hashes < 2 ^ 62
      → Holds lib m.list entries
      → Run m entries locals
  unfolding merge_by_path
  run [] m entries t v have small h = record {
    after = m;
    outs = [];
    done = refl;
    holds = rw append-nil h;
    outcomes = tt;
    same_paths = refl;
    precedes = record {
      hashes = [];
      lengths = [];
      hash_prefix = sym (append-nil m.list.preserved_chunk_hashes);
      length_prefix = sym (append-nil m.list.preserved_chunk_lengths);
    };
  }
  run (entry ∷ locals) m entries t v have small h =
      let step = treated m entry t v (omega arith) have in
      let list = step.after.list in
      let next = added table lib step.after step.placed in
      let placed = completed lib step.placed in
      let room : length next.list.preserved_chunk_hashes + length locals * length table.hashes
          < 2 ^ 62 =
        omega (
          arith,
          ap length (hashes-add_entry lib step.placed list),
          length-Grows m.list list (length table.hashes) step.grows,
        ) in
      let rest =
        run locals next (entries ++ placed ∷ []) t
          (IsMerging-added lib table step.after step.placed step.merging) have room
          (add_entry-Holds lib step.placed list entries
            (Holds-Grows lib m.list list (length table.hashes) entries step.grows h)) in
      let added_one = Precedes-add_entry lib step.placed list in
      record {
        after = rest.after;
        outs = placed ∷ rest.outs;
        done =
            ap (λ o. go_on table lib o (λ after. merge_by_path table lib remotes locals after))
              step.done
            ∙ rest.done;
        holds =
            subst (Holds lib rest.after.list) (append_assoc entries (placed ∷ []) rest.outs)
              rest.holds;
        outcomes = (
          Outcome-Precedes table remotes list rest.after.list entry placed
              (Precedes-trans list next.list rest.after.list added_one rest.precedes) step.outcome,
          rest.outcomes,
        );
        same_paths = ap₂ ◌∷◌ (path-completed step.placed ∙ step.path) rest.same_paths;
        precedes =
            Precedes-trans m.list list rest.after.list
              (Precedes-Grows m.list list (length table.hashes) step.grows)
              (Precedes-trans list next.list rest.after.list added_one rest.precedes);
      }

-- The walk of Backup over two sorted listings ends without an index out of range. The list then
-- stands for the entries that it stood for before and one entry for each local entry, with its path.
-- A file with content, one that is neither a directory nor a link, is there with the size -1, which
-- says that it is to be uploaded, unless the last snapshot has its path and it passes for unchanged;
-- a directory or link is there with the size 0 in that case. A file with content that passes for
-- unchanged is there with the hash and the offsets of the entry of the last snapshot, and names the
-- same chunks. An entry without content is there as it is, but a negative size of a directory or
-- link becomes 0. The entries of the last snapshot with content name chunks of its table, and there
-- are fewer than 2^62 chunks in all.
pub merge-AllOutcomes :
    (lib : Library) (table : ChunkTable) (locals remotes : List Entry) (m : Merging)
    (entries : List Entry)
    → IsTable table
    → IsMerging table m
    → HaveChunks table remotes
    → length m.list.preserved_chunk_hashes + length locals * length table.hashes < 2 ^ 62
    → Holds lib m.list entries
    → IsListing locals
    → IsListing remotes
    → (after : Merging) × (outs : List Entry) × (merge table lib locals remotes m ≡ some after)
      × Holds lib after.list (entries ++ outs)
      × AllOutcomes table remotes after.list locals outs
      × (paths outs ≡ paths locals)
merge-AllOutcomes lib table locals remotes m entries t v have small h sl sr =
    let r = run lib table remotes locals m entries t v have small h in
    (
      r.after,
      r.outs,
      merge-eq-merge_by_path table lib locals remotes m sl sr ∙ r.done,
      r.holds,
      r.outcomes,
      r.same_paths,
    )
