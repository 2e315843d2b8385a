-- ===== src/Entry/Order/Total.antt =====
-- ComparePaths is a strict total order in which files come before directories.
use Prim.Native.Nat.{Ordering}
use duplicacy.Prelude.{
  ℕ, ◌<◌, ◌≤◌, false, Bool-cases, inl, inr, ◌≡◌, ◌↔◌, refl, sym, ap, ◌∙◌, ◌≢◌, List, [], ◌∷◌, ◌++◌,
  ◌==◌, ==_iff, arith,
}
use mathlib.Core.Path.{ap₂}
use duplicacy.Entry.Order.{
  FilePath, slash, find_ending, compare_endings, compare_rest, compare_paths,
}
use duplicacy.Prelude.Bytes.{lex_compare, lex_compare_trans, flip, lex_compare-flip}
use duplicacy.Entry.Order.Key.{HasNoZero, kind, name_key, key, sign, kind_of}
use duplicacy.Entry.Order.Key.Agreement.{compare_paths-eq-lex}

-- The order of entries is transitive: a path before a second one that is before a third is before
-- the third, for paths without a 0 byte.
pub compare_paths_trans :
    (l m r : FilePath)
    → HasNoZero l
    → HasNoZero m
    → HasNoZero r
    → sign (compare_paths l m) ≡ Ordering.lt
    → sign (compare_paths m r) ≡ Ordering.lt
    → sign (compare_paths l r) ≡ Ordering.lt
compare_paths_trans l m r hl hm hr p q =
    compare_paths-eq-lex l r hl hr
    ∙ lex_compare_trans (key l) (key m) (key r) (sym (compare_paths-eq-lex l m hl hm) ∙ p)
        (sym (compare_paths-eq-lex m r hm hr) ∙ q)

compare_paths_self : (l : FilePath) → sign (compare_paths l l) ≡ Ordering.eq
unfolding compare_paths compare_rest sign
compare_paths_self [] = refl
compare_paths_self (x ∷ l) = rw ((==_iff x x).1 refl) (compare_paths_self l)

compare_rest_ne :
    (x y : ℕ) (l r : FilePath)
    → 0 < x
    → 0 < y
    → (x == y) ≡ false
    → sign (compare_rest (x ∷ l) (y ∷ r)) ≢ Ordering.eq
unfolding compare_rest compare_endings sign
compare_rest_ne x y l r hx hy h = ground arith

compare_rest_left_ne : (x : ℕ) (l : FilePath) → 0 < x → sign (compare_rest (x ∷ l) []) ≢ Ordering.eq
unfolding compare_rest compare_endings sign
compare_rest_left_ne x l hx = ground arith

compare_rest_right_ne :
    (y : ℕ) (r : FilePath) → 0 < y → sign (compare_rest [] (y ∷ r)) ≢ Ordering.eq
unfolding compare_rest compare_endings sign
compare_rest_right_ne y r hy = ground arith

eq_of_compare_paths :
    (l r : FilePath) → HasNoZero l → HasNoZero r → sign (compare_paths l r) ≡ Ordering.eq → l ≡ r
unfolding compare_paths
eq_of_compare_paths [] [] hl hr h = refl
eq_of_compare_paths [] (y ∷ r) hl hr h = absurd (compare_rest_right_ne y r hr.0 h)
eq_of_compare_paths (x ∷ l) [] hl hr h = absurd (compare_rest_left_ne x l hl.0 h)
eq_of_compare_paths (x ∷ l) (y ∷ r) hl hr h = elim (Bool-cases (x == y)) [
  | inl e ↦ ap₂ ◌∷◌ ((==_iff x y).0 e) (eq_of_compare_paths l r hl.1 hr.1 (rw e at h))
  | inr e ↦ absurd (compare_rest_ne x y l r hl.0 hr.0 e (rw e at h))
]

-- For paths without a 0 byte, the result of a comparison changes its sign when the two paths are
-- swapped, and is 0 exactly when the paths are equal.
pub compare_paths_total :
    (l r : FilePath)
    → HasNoZero l
    → HasNoZero r
    → (sign (compare_paths r l) ≡ flip (sign (compare_paths l r)))
      × ((sign (compare_paths l r) ≡ Ordering.eq) ↔ (l ≡ r))
compare_paths_total l r hl hr = (
  compare_paths-eq-lex r l hr hl
      ∙ lex_compare-flip (key l) (key r)
      ∙ ap flip (sym (compare_paths-eq-lex l r hl hr)),
  (eq_of_compare_paths l r hl hr, λ e. rw (← e) (compare_paths_self l)),
)

compare_paths-append : (d l r : FilePath) → compare_paths (d ++ l) (d ++ r) ≡ compare_paths l r
unfolding compare_paths
compare_paths-append [] l r = refl
compare_paths-append (x ∷ d) l r = rw ((==_iff x x).1 refl) (compare_paths-append d l r)

abbrev pub HasNoSlash : FilePath → Type 0
HasNoSlash [] = Unit
HasNoSlash (c ∷ s) = ((c == slash) ≡ false) × HasNoSlash s

kind_file :
    (x : ℕ) (s : FilePath) → (x == slash) ≡ false → HasNoSlash s → kind_of (find_ending x s) ≡ 0
unfolding find_ending
kind_file x [] h hs = rw h
kind_file x (y ∷ s) h hs = rw hs.0 (kind_file y s hs.0 hs.1)

kind_dir : (x : ℕ) (n rest : FilePath) → 1 ≤ kind_of (find_ending x (n ++ slash ∷ rest))
unfolding find_ending
kind_dir x [] rest = ground arith
kind_dir x (y ∷ n) rest = ground (arith, kind_dir y n rest)

lex-lt_of_head : (a b : ℕ) (s t : List ℕ) → a < b → lex_compare (a ∷ s) (b ∷ t) ≡ Ordering.lt
unfolding lex_compare
lex-lt_of_head a b s t h = ground arith

key_file : (x : ℕ) (f : FilePath) → HasNoSlash (x ∷ f) → (t : List ℕ) × (key (x ∷ f) ≡ 0 ∷ t)
unfolding key find_ending
key_file x f h =
    (name_key (x ∷ f), ap (λ (k : ℕ). k ∷ name_key (x ∷ f)) (rw h.0 (kind_file x f h.0 h.1)))

key_dir : (n rest : FilePath) → (k : ℕ) × (t : List ℕ) × (key (n ++ slash ∷ rest) ≡ k ∷ t) × (1 ≤ k)
unfolding key find_ending
key_dir [] rest = (kind (slash ∷ rest), _, refl, ground arith)
key_dir (y ∷ n) rest = (kind (y ∷ n ++ slash ∷ rest), _, refl, ground (arith, kind_dir y n rest))

file_lt_dir :
    (x : ℕ) (f n rest : FilePath)
    → HasNoSlash (x ∷ f)
    → lex_compare (key (x ∷ f)) (key (n ++ slash ∷ rest)) ≡ Ordering.lt
file_lt_dir x f n rest hf =
    let (t, et) = key_file x f hf in
    let (k, u, eu, hk) = key_dir n rest in rw (et, eu) (lex-lt_of_head 0 k t u hk)

-- Under one parent directory `d`, a file comes before every path that goes on below a directory
-- there, whatever the names, as long as no name has a 0 byte.
pub files_before_directories :
    (d : FilePath) (x : ℕ) (f n rest : FilePath)
    → HasNoSlash (x ∷ f)
    → HasNoZero (x ∷ f)
    → HasNoZero (n ++ slash ∷ rest)
    → sign (compare_paths (d ++ x ∷ f) (d ++ (n ++ slash ∷ rest))) ≡ Ordering.lt
files_before_directories d x f n rest hf zf zn =
    rw compare_paths-append
      (compare_paths-eq-lex (x ∷ f) (n ++ slash ∷ rest) zf zn ∙ file_lt_dir x f n rest hf)
