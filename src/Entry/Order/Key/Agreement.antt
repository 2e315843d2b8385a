-- ===== src/Entry/Order/Key/Agreement.antt =====
-- ComparePaths and the sort key agree on all paths without a 0 byte.
use Prim.Native.Nat.{Ordering}
use duplicacy.Prelude.{
  ℕ, ◌<◌, true, false, Bool-cases, inl, inr, ◌≡◌, refl, sym, ◌∙◌, List, [], ◌∷◌, ◌==◌, ==_iff,
  if◌then◌else◌, arith,
}
use duplicacy.Prelude.Bytes.{lex_compare}
use duplicacy.Entry.Order.{
  FilePath, slash, Ending, find_ending, compare_endings, compare_rest, compare_paths,
}
use duplicacy.Entry.Order.Key.{HasNoZero, kind_of, kind, with_kind, name_key, key, sign}

-- A component that does not end in a slash is the last one.
find_ending_last :
    (c : ℕ) (s : FilePath)
    → ((find_ending c s).byte == slash) ≡ false
    → (find_ending c s).last ≡ true
unfolding find_ending
find_ending_last c [] h = refl
find_ending_last c (x ∷ s) h = ground (arith, find_ending_last x s)

kind-cons : (x : ℕ) (s : FilePath) → (x == slash) ≡ false → kind (x ∷ s) ≡ kind s
unfolding kind find_ending
kind-cons x [] h = ground arith
kind-cons x (y ∷ s) h = ground arith

-- Both forms of the claim, at the start of a component and inside one.
record Agrees (l r : FilePath) : Type 0 where
  at_start : sign (compare_paths l r) ≡ lex_compare (key l) (key r)
  inside : sign (compare_paths l r) ≡ lex_compare (kind l ∷ name_key l) (kind r ∷ name_key r)

-- What the byte at the difference says of the ending.
abbrev EndsAfter : ℕ → Ending → Type 0
EndsAfter x e =
    ((x == slash) ≡ true → (e.byte == slash) ≡ true) × ((e.byte == slash) ≡ false → e.last ≡ true)

find_ending_after : (x : ℕ) (s : FilePath) → EndsAfter x (find_ending x (x ∷ s))
unfolding find_ending
find_ending_after x s = elim (Bool-cases (x == slash)) [
  | inl e ↦ rw e (λ _. refl, λ h. cc)
  | inr e ↦ rw e (λ h. cc, find_ending_last x s)
]

abbrev name_head : ℕ → ℕ
name_head x = if x == slash then 0 else x

name_key-cons : (x : ℕ) (s : FilePath) → (t : List ℕ) × (name_key (x ∷ s) ≡ name_head x ∷ t)
unfolding name_key
name_key-cons x s = elim (Bool-cases (x == slash)) [
  | inl e ↦ (with_kind s (name_key s), rw e)
  | inr e ↦ (name_key s, rw e)
]

compare_endings_agrees :
    (x y : ℕ) (e f : Ending) (t u : List ℕ)
    → EndsAfter x e
    → EndsAfter y f
    → 0 < x
    → 0 < y
    → (x == y) ≡ false
    → sign (compare_endings x y e f)
      ≡ lex_compare (kind_of e ∷ name_head x ∷ t) (kind_of f ∷ name_head y ∷ u)
unfolding sign compare_endings lex_compare
compare_endings_agrees x y e f t u he hf hx hy h = ground arith

compare_rest_agrees :
    (x y : ℕ) (l r : FilePath)
    → 0 < x
    → 0 < y
    → (x == y) ≡ false
    → sign (compare_rest (x ∷ l) (y ∷ r))
      ≡ lex_compare (kind (x ∷ l) ∷ name_key (x ∷ l)) (kind (y ∷ r) ∷ name_key (y ∷ r))
unfolding compare_rest kind
compare_rest_agrees x y l r hx hy h =
    let (t, et) = name_key-cons x l in
    let (u, eu) = name_key-cons y r in
    rw (et, eu)
      (compare_endings_agrees x y _ _ t u (find_ending_after x l) (find_ending_after y r) hx hy h)

compare_endings_nil_left :
    (y : ℕ) (f : Ending)
    → EndsAfter y f
    → 0 < y
    → sign (compare_endings 0 y (record { byte = 0; last = true }) f) ≡ Ordering.lt
unfolding sign compare_endings
compare_endings_nil_left y f hf hy = ground arith

compare_endings_nil_right :
    (x : ℕ) (e : Ending)
    → EndsAfter x e
    → 0 < x
    → sign (compare_endings x 0 e (record { byte = 0; last = true })) ≡ Ordering.gt
unfolding sign compare_endings
compare_endings_nil_right x e he hx = ground arith

lex_nil_left :
    (y : ℕ) (f : Ending) (u : List ℕ)
    → EndsAfter y f
    → 0 < y
    → lex_compare (0 ∷ 0 ∷ []) (kind_of f ∷ name_head y ∷ u) ≡ Ordering.lt
unfolding lex_compare
lex_nil_left y f u hf hy = ground arith

lex_nil_right :
    (x : ℕ) (e : Ending) (t : List ℕ)
    → EndsAfter x e
    → 0 < x
    → lex_compare (kind_of e ∷ name_head x ∷ t) (0 ∷ 0 ∷ []) ≡ Ordering.gt
unfolding lex_compare
lex_nil_right x e t he hx = ground arith

Agrees-nil : Agrees [] []
unfolding compare_paths compare_rest key lex_compare sign compare_endings
Agrees-nil = record { at_start = refl; inside = refl }

Agrees-nil_left : (y : ℕ) (r : FilePath) → 0 < y → Agrees [] (y ∷ r)
unfolding compare_paths compare_rest kind name_key
Agrees-nil_left y r hy =
    let after = find_ending_after y r in
    let (u, eu) = name_key-cons y r in
    let less = compare_endings_nil_left y _ after hy in
    record {
      at_start = less ∙ unfold key lex_compare in refl;
      inside = rw eu (less ∙ sym (lex_nil_left y _ u after hy));
    }

Agrees-nil_right : (x : ℕ) (l : FilePath) → 0 < x → Agrees (x ∷ l) []
unfolding compare_paths compare_rest kind name_key
Agrees-nil_right x l hx =
    let after = find_ending_after x l in
    let (t, et) = name_key-cons x l in
    let greater = compare_endings_nil_right x _ after hx in
    record {
      at_start = greater ∙ unfold key lex_compare in refl;
      inside = rw et (greater ∙ sym (lex_nil_right x _ t after hx));
    }

lex-cons_self : (x : ℕ) (xs ys : List ℕ) → lex_compare (x ∷ xs) (x ∷ ys) ≡ lex_compare xs ys
unfolding lex_compare
lex-cons_self x xs ys = ground arith

lex-cons₂ :
    (a b x : ℕ) (xs ys : List ℕ)
    → lex_compare (a ∷ x ∷ xs) (b ∷ x ∷ ys) ≡ lex_compare (a ∷ xs) (b ∷ ys)
unfolding lex_compare
lex-cons₂ a b x xs ys = ground arith

-- A shared byte inside a name.
Agrees-inside :
    (x : ℕ) (l r : FilePath)
    → (x == slash) ≡ false
    → Agrees l r
    → sign (compare_paths l r)
      ≡ lex_compare (kind (x ∷ l) ∷ name_key (x ∷ l)) (kind (x ∷ r) ∷ name_key (x ∷ r))
unfolding name_key
Agrees-inside x l r h a =
    rw
      (kind-cons x l h, kind-cons x r h, h, lex-cons₂ (kind l) (kind r) x (name_key l) (name_key r))
      a.inside

-- A shared slash: a new component begins in both paths, or only one of them goes on.
Agrees-slash :
    (l r : FilePath)
    → HasNoZero l
    → HasNoZero r
    → Agrees l r
    → sign (compare_paths l r)
      ≡ lex_compare
          (kind (slash ∷ l) ∷ name_key (slash ∷ l))
          (kind (slash ∷ r) ∷ name_key (slash ∷ r))
unfolding name_key kind find_ending key
Agrees-slash [] [] hl hr a = a.at_start ∙ unfold key lex_compare in refl
Agrees-slash [] (y ∷ r) hl hr a = a.at_start ∙ unfold key lex_compare in refl
Agrees-slash (x ∷ l) [] hl hr a = a.at_start ∙ unfold key lex_compare in refl
Agrees-slash (x ∷ l) (y ∷ r) hl hr a = a.at_start ∙ sym (lex-cons_self 2 _ _ ∙ lex-cons_self 0 _ _)

Agrees-cons :
    (x y : ℕ) (l r : FilePath)
    → sign (compare_paths (x ∷ l) (y ∷ r))
      ≡ lex_compare (kind (x ∷ l) ∷ name_key (x ∷ l)) (kind (y ∷ r) ∷ name_key (y ∷ r))
    → Agrees (x ∷ l) (y ∷ r)
Agrees-cons x y l r e = record { at_start = unfold key in e; inside = e }

Agrees-same :
    (x : ℕ) (l r : FilePath)
    → HasNoZero l
    → HasNoZero r
    → Agrees l r
    → sign (compare_paths l r)
      ≡ lex_compare (kind (x ∷ l) ∷ name_key (x ∷ l)) (kind (x ∷ r) ∷ name_key (x ∷ r))
Agrees-same x l r hl hr a = elim (Bool-cases (x == slash)) [
  | inl e ↦ rw ((==_iff x slash).0 e) (Agrees-slash l r hl hr a)
  | inr e ↦ Agrees-inside x l r e a
]

Agrees-step :
    (x y : ℕ) (l r : FilePath)
    → HasNoZero (x ∷ l)
    → HasNoZero (y ∷ r)
    → Agrees l r
    → Agrees (x ∷ l) (y ∷ r)
Agrees-step x y l r hl hr a = elim (Bool-cases (x == y)) [
  | inl e ↦
      Agrees-cons x y l r
        (unfold compare_paths in rw e (rw (← (==_iff x y).0 e) (Agrees-same x l r hl.1 hr.1 a)))
  | inr e ↦
      Agrees-cons x y l r (unfold compare_paths in rw e (compare_rest_agrees x y l r hl.0 hr.0 e))
]

Agrees-all : (l r : FilePath) → HasNoZero l → HasNoZero r → Agrees l r
Agrees-all [] [] hl hr = Agrees-nil
Agrees-all [] (y ∷ r) hl hr = Agrees-nil_left y r hr.0
Agrees-all (x ∷ l) [] hl hr = Agrees-nil_right x l hl.0
Agrees-all (x ∷ l) (y ∷ r) hl hr = Agrees-step x y l r hl hr (Agrees-all l r hl.1 hr.1)

-- The sign of ComparePaths is the lexicographic order of the sort keys, for all paths without a
-- 0 byte.
pub compare_paths-eq-lex :
    (l r : FilePath)
    → HasNoZero l
    → HasNoZero r
    → sign (compare_paths l r) ≡ lex_compare (key l) (key r)
compare_paths-eq-lex l r hl hr = (Agrees-all l r hl hr).at_start
