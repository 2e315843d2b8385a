-- ===== src/Prelude/Bytes.antt =====
-- Go's comparisons of strings, on their bytes.
use Prim.Native.Nat.{ℕ}
use mathlib.Core.Path.{◌≡◌, refl}
use mathlib.Core.Logic.{◌↔◌}
use mathlib.Core.Bool.{Bool, true, false, ◌&&◌}
use mathlib.Core.List.{List, [], ◌∷◌}
use native.Mathlib.Omega.{arith}
use duplicacy.Prelude.{◌≢◌, not, ◌==◌, ltb, if◌then◌else◌}
use Prim.Native.Nat.{Ordering}

unfoldable pub eq_text : List ℕ → List ℕ → Bool
eq_text [] [] = true
eq_text [] (y ∷ t) = false
eq_text (x ∷ s) [] = false
eq_text (x ∷ s) (y ∷ t) = x == y && eq_text s t

pub eq_text_self : (s : List ℕ) → eq_text s s ≡ true
unfolding eq_text
eq_text_self [] = refl
eq_text_self (x ∷ s) = ground (arith, eq_text_self s)

pub eq_of_eq_text : (s t : List ℕ) → eq_text s t ≡ true → s ≡ t
unfolding eq_text
eq_of_eq_text [] [] h = refl
eq_of_eq_text [] (y ∷ t) h = cc
eq_of_eq_text (x ∷ s) [] h = cc
eq_of_eq_text (x ∷ s) (y ∷ t) h = ground (arith, eq_of_eq_text s t)

pub eq_text_iff : (s t : List ℕ) → (eq_text s t ≡ true) ↔ (s ≡ t)
eq_text_iff s t = (eq_of_eq_text s t, λ e. rw e (eq_text_self t))

-- strings.Compare.
unfoldable pub lex_compare : List ℕ → List ℕ → Ordering
lex_compare [] [] = Ordering.eq
lex_compare [] (y ∷ ys) = Ordering.lt
lex_compare (x ∷ xs) [] = Ordering.gt
lex_compare (x ∷ xs) (y ∷ ys) =
    if ltb x y then Ordering.lt else if ltb y x then Ordering.gt else lex_compare xs ys

pub lex_compare_trans :
    (a b c : List ℕ)
    → lex_compare a b ≡ Ordering.lt
    → lex_compare b c ≡ Ordering.lt
    → lex_compare a c ≡ Ordering.lt
unfolding lex_compare
lex_compare_trans [] [] c p q = cc
lex_compare_trans [] (y ∷ b) [] p q = cc
lex_compare_trans [] (y ∷ b) (z ∷ c) p q = refl
lex_compare_trans (x ∷ a) [] c p q = cc
lex_compare_trans (x ∷ a) (y ∷ b) [] p q = cc
lex_compare_trans (x ∷ a) (y ∷ b) (z ∷ c) p q = ground (arith, lex_compare_trans a b c)

unfoldable pub flip : Ordering → Ordering
flip Ordering.lt = Ordering.gt
flip Ordering.eq = Ordering.eq
flip Ordering.gt = Ordering.lt

pub lex_compare-flip : (a b : List ℕ) → lex_compare b a ≡ flip (lex_compare a b)
unfolding lex_compare flip
lex_compare-flip [] [] = refl
lex_compare-flip [] (y ∷ b) = refl
lex_compare-flip (x ∷ a) [] = refl
lex_compare-flip (x ∷ a) (y ∷ b) = ground (arith, lex_compare-flip a b)

pub eq_of_lex_compare : (s t : List ℕ) → lex_compare s t ≡ Ordering.eq → s ≡ t
unfolding lex_compare
eq_of_lex_compare [] [] h = refl
eq_of_lex_compare [] (y ∷ t) h = cc
eq_of_lex_compare (x ∷ s) [] h = cc
eq_of_lex_compare (x ∷ s) (y ∷ t) h = ground (arith, eq_of_lex_compare s t)

-- `<` on strings.
unfoldable pub lt_text : List ℕ → List ℕ → Bool
unfolding lex_compare
lt_text s t = elim (lex_compare s t) [ Ordering.lt ↦ true | _ ↦ false ]

pub lt_text_trans : (a b c : List ℕ) → lt_text a b ≡ true → lt_text b c ≡ true → lt_text a c ≡ true
unfolding lt_text
lt_text_trans a b c p q = ground (arith, lex_compare_trans a b c)

-- Of two different strings one is before the other, and not both.
pub lt_text_total : (a b : List ℕ) → a ≢ b → lt_text b a ≡ not (lt_text a b)
unfolding lt_text flip
lt_text_total a b h = ground (arith, lex_compare-flip a b, eq_of_lex_compare a b)
