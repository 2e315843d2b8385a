-- ===== src/Backup/Merge/Placed.antt =====
-- What Backup adds to the entry list: files to be uploaded, and files that keep their chunks.
use mathlib.Core.Path.{subst}
use duplicacy.Prelude.{
  ℕ, ◌^◌, ◌<◌, List, [], ◌∷◌, In, Option, none, some, ◌≡◌, refl, sym, ap, ◌∙◌, inl, inr, arith,
  true, false, Bool-cases, length, ◌&&◌, ◌||◌, Bool,
}
use duplicacy.Prelude.Int.{ℤ, pos, negsuc, ltb_ℤ}
use duplicacy.Prelude.Int64.{leb_ℤ}
use duplicacy.Prelude.Bytes.{eq_text, eq_of_eq_text}
use duplicacy.Entry.{Text, Entry, is_same_as, is_file, is_dir, is_link, is_complete}
use duplicacy.EntryList.{EntryList}
use duplicacy.EntryList.Disk.{Library, completed}
use duplicacy.EntryList.Disk.Contents.{Holds, in_memory, on_disk}
use duplicacy.Backup.{ChunkTable}
use duplicacy.Backup.Preserve.{Merging, preserve, placed_at}
use duplicacy.Backup.Preserve.Copied.{IsTable, preserving-nil}
use duplicacy.Backup.Preserve.Same.{
  HasChunks, SameChunks, Grows, IsMerging, Precedes, SameChunks-Precedes, preserve-SameChunks,
}
use duplicacy.Backup.Merge.{modified, treat}
use duplicacy.Backup.Merge.Lookup.{find_path}

-- The test of Backup for a file that has not changed since the last snapshot.
abbrev pub is_unchanged : Entry → Option Entry → Bool
is_unchanged entry none = false
is_unchanged entry (some remote) = is_same_as entry remote && is_file entry

-- What the list has for the local entry `entry`, where `remotes` is the last snapshot.
pub data Outcome (table : ChunkTable) (remotes : List Entry) (list : EntryList) (entry out : Entry)
    : Type 0 where
  -- A file with content that is new or has changed gets the size -1, and is then uploaded.
  to_upload :
      (is_dir entry || is_link entry) ≡ false
      → ltb_ℤ (pos 0) entry.size ≡ true
      → is_unchanged entry (find_path entry.path remotes) ≡ false
      → out ≡ record entry { size = negsuc 0 }
      → Outcome table remotes list entry out
  -- A directory or a link has no content to upload.
  no_data :
      (is_dir entry || is_link entry) ≡ true
      → ltb_ℤ (pos 0) entry.size ≡ true
      → is_unchanged entry (find_path entry.path remotes) ≡ false
      → out ≡ record entry { size = pos 0 }
      → Outcome table remotes list entry out
  cleared :
      (is_dir entry || is_link entry) ≡ true
      → ltb_ℤ entry.size (pos 0) ≡ true
      → out ≡ record entry { size = pos 0 }
      → Outcome table remotes list entry out
  as_listed : ltb_ℤ (pos 0) entry.size ≡ false → out ≡ entry → Outcome table remotes list entry out
  -- A file with content that has not changed names the chunks that it had.
  kept_chunks :
      (remote : Entry)
      → find_path entry.path remotes ≡ some remote
      → is_unchanged entry (some remote) ≡ true
      → ltb_ℤ (pos 0) entry.size ≡ true
      → SameChunks table remote list out
      → out ≡ record entry {
        hash = remote.hash;
        start_offset = remote.start_offset;
        end_offset = remote.end_offset;
        start_chunk = out.start_chunk;
        end_chunk = out.end_chunk;
      }
      → Outcome table remotes list entry out

-- The list has an entry for each of the local ones, in their order.
abbrev pub AllOutcomes : ChunkTable → List Entry → EntryList → List Entry → List Entry → Type 0
AllOutcomes table remotes list [] [] = Unit
AllOutcomes table remotes list [] (out ∷ outs) = ⊥
AllOutcomes table remotes list (entry ∷ locals) [] = ⊥
AllOutcomes table remotes list (entry ∷ locals) (out ∷ outs) =
    Outcome table remotes list entry out × AllOutcomes table remotes list locals outs

-- Each entry of the last snapshot with content has chunks.
abbrev pub HaveChunks : ChunkTable → List Entry → Type 0
HaveChunks table remotes =
    (remote : Entry) → In remote remotes → ltb_ℤ (pos 0) remote.size ≡ true → HasChunks table remote

pub find_path-In :
    (path : Text) (remotes : List Entry) (remote : Entry)
    → find_path path remotes ≡ some remote
    → In remote remotes × (path ≡ remote.path)
unfolding find_path
find_path-In path [] remote h = absurd (cc)
find_path-In path (entry ∷ rest) remote h = elim (Bool-cases (eq_text path entry.path)) [
  | inl e ↦
      let same : entry ≡ remote = ground arith in
      (inl (sym same), eq_of_eq_text path entry.path e ∙ ap (λ (x : Entry). x.path) same)
  | inr e ↦ let (i, p) = find_path-In path rest remote (ground arith) in (inr i, p)
]

Grows-refl : (list : EntryList) (by : ℕ) → Grows list list by
Grows-refl list by = record {
  hashes = [];
  lengths = [];
  grown = sym (preserving-nil list);
  few = omega arith;
}

pub Holds-Grows :
    (lib : Library) (list after : EntryList) (by : ℕ) (entries : List Entry)
    → Grows list after by
    → Holds lib list entries
    → Holds lib after entries
Holds-Grows lib list after by entries g (in_memory none_yet same) =
    subst (λ l. Holds lib l entries) (sym g.grown) (in_memory none_yet same)
Holds-Grows lib list after by entries g (on_disk file) =
    subst (λ l. Holds lib l entries) (sym g.grown) (on_disk file)

pub Outcome-Precedes :
    (table : ChunkTable) (remotes : List Entry) (list after : EntryList) (entry out : Entry)
    → Precedes list after
    → Outcome table remotes list entry out
    → Outcome table remotes after entry out
Outcome-Precedes table remotes list after entry out g (to_upload d c u e) = to_upload d c u e
Outcome-Precedes table remotes list after entry out g (no_data d c u e) = no_data d c u e
Outcome-Precedes table remotes list after entry out g (cleared d c e) = cleared d c e
Outcome-Precedes table remotes list after entry out g (as_listed c e) = as_listed c e
Outcome-Precedes table remotes list after entry out g (kept_chunks remote f u c same e) =
    kept_chunks remote f u c (SameChunks-Precedes table remote out list after g same) e

is_complete-of_content : (size : ℤ) → ltb_ℤ (pos 0) size ≡ true → leb_ℤ (pos 0) size ≡ true
is_complete-of_content (pos n) h = ground arith
is_complete-of_content (negsuc n) h = absurd (ground arith)

is_negative : (size : ℤ) → leb_ℤ (pos 0) size ≡ false → ltb_ℤ size (pos 0) ≡ true
is_negative (pos n) h = absurd (ground arith)
is_negative (negsuc n) h = ground arith

module _ (lib : Library) (table : ChunkTable) (remotes : List Entry) where
  completed-content :
      (entry : Entry) → ltb_ℤ (pos 0) entry.size ≡ true → completed lib entry ≡ entry
  unfolding is_complete
  completed-content entry h = rw (is_complete-of_content entry.size h) refl

  Outcome-no_content :
      (list : EntryList) (entry : Entry)
      → ltb_ℤ (pos 0) entry.size ≡ false
      → Outcome table remotes list entry (completed lib entry)
  Outcome-no_content list entry h = elim (Bool-cases (is_complete entry)) [
    | inl c ↦ rw c (as_listed h refl)
    | inr c ↦ elim (Bool-cases (is_dir entry || is_link entry)) [
      | inl d ↦ rw (c, d) (cleared d (is_negative entry.size (unfold is_complete in c)) refl)
      | inr d ↦ rw (c, d) (as_listed h refl)
    ]
  ]

  modified-content :
      (m : Merging) (entry : Entry)
      → ltb_ℤ (pos 0) entry.size ≡ true
      → (modified m entry).1 ≡ record entry { size = negsuc 0 }
  modified-content m entry h = rw h refl

  modified-no_content :
      (m : Merging) (entry : Entry)
      → ltb_ℤ (pos 0) entry.size ≡ false
      → (modified m entry).1 ≡ entry
  modified-no_content m entry h = rw h refl

  completed-no_data :
      (entry : Entry)
      → (is_dir entry || is_link entry) ≡ true
      → completed lib (record entry { size = negsuc 0 }) ≡ record entry { size = pos 0 }
  unfolding is_complete is_dir is_link
  completed-no_data entry d = rw d refl

  completed-to_upload :
      (entry : Entry)
      → (is_dir entry || is_link entry) ≡ false
      → completed lib (record entry { size = negsuc 0 }) ≡ record entry { size = negsuc 0 }
  unfolding is_complete is_dir is_link
  completed-to_upload entry d = rw d refl

  Outcome-modified :
      (m : Merging) (list : EntryList) (entry : Entry)
      → is_unchanged entry (find_path entry.path remotes) ≡ false
      → Outcome table remotes list entry (completed lib (modified m entry).1)
  Outcome-modified m list entry u = elim (Bool-cases (ltb_ℤ (pos 0) entry.size)) [
    | inr h ↦
        subst (λ (e : Entry). Outcome table remotes list entry (completed lib e))
          (sym (modified-no_content m entry h)) (Outcome-no_content list entry h)
    | inl h ↦
        let changed = ap (completed lib) (modified-content m entry h) in
        elim (Bool-cases (is_dir entry || is_link entry)) [
          | inl d ↦ no_data d h u (changed ∙ completed-no_data entry d)
          | inr d ↦ to_upload d h u (changed ∙ completed-to_upload entry d)
        ]
  ]

  -- An entry after its treatment, and as AddEntry adds it to the list.
  pub record Treated (m : Merging) (entry : Entry) (found : Option Entry) : Type 0 where
    pub after : Merging
    pub placed : Entry
    pub done : treat table m entry found ≡ some (after, placed)
    pub outcome : Outcome table remotes after.list entry (completed lib placed)
    pub grows : Grows m.list after.list (length table.hashes)
    pub merging : IsMerging table after
    pub path : placed.path ≡ entry.path

  Treated-modified :
      (m : Merging) (entry : Entry) (found : Option Entry)
      → find_path entry.path remotes ≡ found
      → is_unchanged entry found ≡ false
      → treat table m entry found ≡ some (modified m entry)
      → IsMerging table m
      → Treated m entry found
  Treated-modified m entry found f u done v = record {
    after = (modified m entry).0;
    placed = (modified m entry).1;
    done = done;
    outcome = Outcome-modified m m.list entry (ap (is_unchanged entry) f ∙ u);
    grows = Grows-refl m.list (length table.hashes);
    merging = record { even = v.even; ends = v.ends };
    path = ground arith;
  }

  pub Treated-new :
      (m : Merging) (entry : Entry)
      → find_path entry.path remotes ≡ none
      → IsMerging table m
      → Treated m entry none
  unfolding treat
  Treated-new m entry f v = Treated-modified m entry none f refl refl v

  Treated-preserved :
      (m : Merging) (entry remote : Entry)
      → IsTable table
      → IsMerging table m
      → length m.list.preserved_chunk_hashes < 2 ^ 62
      → HasChunks table remote
      → find_path entry.path remotes ≡ some remote
      → is_unchanged entry (some remote) ≡ true
      → ltb_ℤ (pos 0) entry.size ≡ true
      → treat table m entry (some remote) ≡ preserve table m entry remote
      → Treated m entry (some remote)
  Treated-preserved m entry remote t v small c f u content same =
      let (after, delta, done, chunks, grows, merging) =
        preserve-SameChunks table m entry remote t v small c in
      record {
        after = after;
        placed = placed_at table entry remote delta;
        done = same ∙ done;
        outcome =
            subst (Outcome table remotes after.list entry)
              (sym (completed-content (placed_at table entry remote delta) content))
              (kept_chunks remote f u content chunks refl);
        grows = grows;
        merging = merging;
        path = refl;
      }

  pub Treated-found :
      (m : Merging) (entry remote : Entry)
      → IsTable table
      → IsMerging table m
      → length m.list.preserved_chunk_hashes < 2 ^ 62
      → HaveChunks table remotes
      → find_path entry.path remotes ≡ some remote
      → Treated m entry (some remote)
  unfolding treat
  Treated-found m entry remote t v small have f =
      elim (Bool-cases (is_same_as entry remote && is_file entry)) [
        | inl same ↦ elim (Bool-cases (ltb_ℤ (pos 0) entry.size)) [
          | inl content ↦
              Treated-preserved m entry remote t v small
                (have remote (find_path-In entry.path remotes remote f).0
                  (unfold is_same_as in ground arith))
                f same content (ground arith)
          | inr empty ↦ record {
            after = m;
            placed = entry;
            done = ground arith;
            outcome = Outcome-no_content m.list entry empty;
            grows = Grows-refl m.list (length table.hashes);
            merging = v;
            path = refl;
          }
        ]
        | inr differ ↦ Treated-modified m entry (some remote) f differ (ground arith) v
      ]
