-- ===== src/Backup/Merge/Lookup.antt =====
-- The side by side walk of Backup finds, for each local entry, the remote entry with its path.
use Prim.Native.Nat.{Ordering, suc}
use mathlib.Core.Path.{fun_ext}
use duplicacy.Prelude.{
  zero, suc, List, [], ◌∷◌, Option, none, some, if◌then◌else◌, ◌≡◌, refl, ap, ◌∙◌, inl, inr, arith,
  true, false, ◌⊎◌,
}
use duplicacy.Prelude.Int.{pos, negsuc, ltb_ℤ}
use duplicacy.Prelude.Int64.{◌==ℤ◌}
use duplicacy.Prelude.Bytes.{eq_text, eq_text_self, eq_of_eq_text, flip}
use duplicacy.Entry.{Text, Entry}
use duplicacy.Entry.Order.{compare_paths}
use duplicacy.Entry.Order.Key.{HasNoZero, sign}
use duplicacy.Entry.Order.Total.{compare_paths_trans, compare_paths_total}
use duplicacy.EntryList.Disk.{Library}
use duplicacy.Backup.{ChunkTable, ℤ}
use duplicacy.Backup.Preserve.{Merging}
use duplicacy.Backup.Merge.{go_on, advance, treat, merge}

-- The first entry with a path.
unfoldable pub find_path : Text → List Entry → Option Entry
find_path path [] = none
find_path path (entry ∷ rest) = if eq_text path entry.path then some entry else find_path path rest

abbrev pub IsBefore : Entry → Entry → Type 0
IsBefore a b = sign (compare_paths a.path b.path) ≡ Ordering.lt

abbrev pub AllAfter : Entry → List Entry → Type 0
AllAfter a [] = Unit
AllAfter a (b ∷ rest) = IsBefore a b × AllAfter a rest

-- A listing: each entry is before those that follow, and no path has a 0 byte.
abbrev pub IsListing : List Entry → Type 0
IsListing [] = Unit
IsListing (a ∷ rest) = HasNoZero a.path × AllAfter a rest × IsListing rest

-- The loop with a search in the whole remote listing in place of the walk.
module _ (table : ChunkTable) (lib : Library) (remotes : List Entry) where
  unfoldable pub merge_by_path : List Entry → Merging → Option Merging
  merge_by_path [] m = some m
  merge_by_path (entry ∷ locals) m =
      go_on table lib (treat table m entry (find_path entry.path remotes))
        (λ after. merge_by_path locals after)

not_eq_of_before :
    (a b : Entry)
    → HasNoZero a.path
    → HasNoZero b.path
    → IsBefore a b
    → eq_text a.path b.path ≡ false
not_eq_of_before a b ha hb h =
    ground (arith, eq_of_eq_text a.path b.path, (compare_paths_total a.path b.path ha hb).1.1)

not_eq_of_after :
    (a b : Entry)
    → HasNoZero a.path
    → HasNoZero b.path
    → IsBefore a b
    → eq_text b.path a.path ≡ false
not_eq_of_after a b ha hb h =
    ground (arith, eq_of_eq_text b.path a.path, (compare_paths_total a.path b.path ha hb).1.1)

find_path-AllAfter :
    (a : Entry) (rest : List Entry)
    → HasNoZero a.path
    → AllAfter a rest
    → IsListing rest
    → find_path a.path rest ≡ none
unfolding find_path
find_path-AllAfter a [] ha l s = refl
find_path-AllAfter a (b ∷ rest) ha (l, ls) (hb, sb, s) =
    ground (arith, not_eq_of_before a b, find_path-AllAfter a rest ha ls s)

AllAfter-trans :
    (a b : Entry) (rest : List Entry)
    → HasNoZero a.path
    → HasNoZero b.path
    → IsBefore a b
    → AllAfter b rest
    → IsListing rest
    → AllAfter a rest
AllAfter-trans a b [] ha hb h l s = tt
AllAfter-trans a b (c ∷ rest) ha hb h (l, ls) (hc, sc, s) =
    (compare_paths_trans a.path b.path c.path ha hb hc h l, AllAfter-trans a b rest ha hb h ls s)

-- The outcomes of a comparison, as the inner loop tests them.
data Compared (a b : Entry) : Type 0 where
  behind : ltb_ℤ (pos 0) (compare_paths a.path b.path) ≡ true → IsBefore b a → Compared a b
  level :
      ltb_ℤ (pos 0) (compare_paths a.path b.path) ≡ false
      → (compare_paths a.path b.path ==ℤ pos 0) ≡ true
      → a.path ≡ b.path
      → Compared a b
  ahead :
      ltb_ℤ (pos 0) (compare_paths a.path b.path) ≡ false
      → (compare_paths a.path b.path ==ℤ pos 0) ≡ false
      → IsBefore a b
      → Compared a b

tests_of_sign :
    (c : ℤ)
    → ((ltb_ℤ (pos 0) c ≡ true) × (sign c ≡ Ordering.gt))
      ⊎ ((ltb_ℤ (pos 0) c ≡ false) × ((c ==ℤ pos 0) ≡ true) × (sign c ≡ Ordering.eq))
      ⊎ ((ltb_ℤ (pos 0) c ≡ false) × ((c ==ℤ pos 0) ≡ false) × (sign c ≡ Ordering.lt))
unfolding sign
tests_of_sign (pos zero) = inr (inl (refl, refl, refl))
tests_of_sign (pos (suc n)) = inl (ground arith, ground arith)
tests_of_sign (negsuc n) = inr (inr (ground arith, ground arith, refl))

compared : (a b : Entry) → HasNoZero a.path → HasNoZero b.path → Compared a b
unfolding flip
compared a b ha hb =
    let (turned, same) = compare_paths_total a.path b.path ha hb in
    elim (tests_of_sign (compare_paths a.path b.path)) [
      | inl (t, s) ↦ behind t (turned ∙ ap flip s)
      | inr (inl (t, u, s)) ↦ level t u (same.0 s)
      | inr (inr (t, u, s)) ↦ ahead t u s
    ]

advance-behind :
    (a b : Entry) (rest : List Entry)
    → ltb_ℤ (pos 0) (compare_paths a.path b.path) ≡ true
    → advance a (b ∷ rest) ≡ advance a rest
unfolding advance
advance-behind a b rest t = rw (t, advance) refl

advance-level :
    (a b : Entry) (rest : List Entry)
    → ltb_ℤ (pos 0) (compare_paths a.path b.path) ≡ false
    → (compare_paths a.path b.path ==ℤ pos 0) ≡ true
    → advance a (b ∷ rest) ≡ (some b, rest)
unfolding advance
advance-level a b rest t u = ground arith

advance-ahead :
    (a b : Entry) (rest : List Entry)
    → ltb_ℤ (pos 0) (compare_paths a.path b.path) ≡ false
    → (compare_paths a.path b.path ==ℤ pos 0) ≡ false
    → advance a (b ∷ rest) ≡ (none, b ∷ rest)
unfolding advance
advance-ahead a b rest t u = ground arith

-- The walk finds what a search finds.
advance-eq-find_path :
    (a : Entry) (remotes : List Entry)
    → HasNoZero a.path
    → IsListing remotes
    → (advance a remotes).0 ≡ find_path a.path remotes
unfolding advance find_path
advance-eq-find_path a [] ha s = refl
advance-eq-find_path a (b ∷ rest) ha (hb, after, s) = elim (compared a b ha hb) [
  | behind t before ↦
      ap (λ p. p.0) (advance-behind a b rest t)
      ∙ advance-eq-find_path a rest ha s
      ∙ ground (arith, not_eq_of_after b a hb ha before)
  | level t u same ↦
      ap (λ p. p.0) (advance-level a b rest t u) ∙ ground (arith, eq_text_self b.path)
  | ahead t u before ↦
      ap (λ p. p.0) (advance-ahead a b rest t u)
      ∙ ground (
        arith,
        not_eq_of_before a b ha hb before,
        find_path-AllAfter a rest ha (AllAfter-trans a b rest ha hb before after s) s,
      )
]

-- What the walk leaves behind is of no use to a later local entry.
find_path-advance :
    (a later : Entry) (remotes : List Entry)
    → HasNoZero a.path
    → HasNoZero later.path
    → IsBefore a later
    → IsListing remotes
    → find_path later.path (advance a remotes).1 ≡ find_path later.path remotes
unfolding advance find_path
find_path-advance a later [] ha hl before s = refl
find_path-advance a later (b ∷ rest) ha hl h (hb, after, s) = elim (compared a b ha hb) [
  | behind t before ↦
      ap (λ p. find_path later.path p.1) (advance-behind a b rest t)
      ∙ find_path-advance a later rest ha hl h s
      ∙ ground (
        arith,
        not_eq_of_after b later hb hl
            (compare_paths_trans b.path a.path later.path hb ha hl before h),
      )
  | level t u same ↦
      ap (λ p. find_path later.path p.1) (advance-level a b rest t u)
      ∙ ground (arith, not_eq_of_after a later ha hl h, same)
  | ahead t u before ↦ ap (λ p. find_path later.path p.1) (advance-ahead a b rest t u)
]

IsListing-advance :
    (a : Entry) (remotes : List Entry)
    → HasNoZero a.path
    → IsListing remotes
    → IsListing (advance a remotes).1
unfolding advance
IsListing-advance a [] ha s = tt
IsListing-advance a (b ∷ rest) ha (hb, after, s) = elim (compared a b ha hb) [
  | behind t before ↦ rw (advance-behind a b rest t) (IsListing-advance a rest ha s)
  | level t u same ↦ rw (advance-level a b rest t u) s
  | ahead t u before ↦ rw (advance-ahead a b rest t u) (hb, after, s)
]

-- The search gives the same in both listings for each of the local entries.
abbrev Agree : List Entry → List Entry → List Entry → Type 0
Agree all remotes [] = Unit
Agree all remotes (entry ∷ locals) =
    (find_path entry.path remotes ≡ find_path entry.path all) × Agree all remotes locals

Agree-advance :
    (a : Entry) (all remotes locals : List Entry)
    → HasNoZero a.path
    → AllAfter a locals
    → IsListing locals
    → IsListing remotes
    → Agree all remotes locals
    → Agree all (advance a remotes).1 locals
Agree-advance a all remotes [] ha l s sr g = tt
Agree-advance a all remotes (b ∷ locals) ha (l, ls) (hb, after, s) sr (g, gs) =
    (find_path-advance a b remotes ha hb l sr ∙ g, Agree-advance a all remotes locals ha ls s sr gs)

Agree-self : (all locals : List Entry) → Agree all all locals
Agree-self all [] = tt
Agree-self all (entry ∷ locals) = (refl, Agree-self all locals)

module _ (table : ChunkTable) (lib : Library) (all : List Entry) where
  merge-from :
      (locals remotes : List Entry) (m : Merging)
      → IsListing locals
      → IsListing remotes
      → Agree all remotes locals
      → merge table lib locals remotes m ≡ merge_by_path table lib all locals m
  unfolding merge merge_by_path
  merge-from [] remotes m sl sr g = refl
  merge-from (entry ∷ locals) remotes m (h, after_all, sl) sr (g, gs) =
      ap
        (λ (o : Option Entry).
          go_on table lib (treat table m entry o)
            (λ after. merge table lib locals (advance entry remotes).1 after))
        (advance-eq-find_path entry remotes h sr ∙ g)
      ∙ ap (go_on table lib (treat table m entry (find_path entry.path all))) (
          fun_ext λ after.
            merge-from locals (advance entry remotes).1 after sl
              (IsListing-advance entry remotes h sr)
              (Agree-advance entry all remotes locals h after_all sl sr gs))

-- For two listings that are sorted by path, and have no path with a 0 byte, Backup treats each local
-- entry together with the entry of the last snapshot that has its path, if there is one, as though
-- it searched the whole listing for it.
pub merge-eq-merge_by_path :
    (table : ChunkTable) (lib : Library) (locals remotes : List Entry) (m : Merging)
    → IsListing locals
    → IsListing remotes
    → merge table lib locals remotes m ≡ merge_by_path table lib remotes locals m
merge-eq-merge_by_path table lib locals remotes m sl sr =
    merge-from table lib remotes locals remotes m sl sr (Agree-self remotes locals)
