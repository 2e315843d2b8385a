-- ===== src/Prune/Expand/SequenceKey.antt =====
-- Different sequences of hashes have different keys.
use duplicacy.Prelude.{
  ℕ, zero, suc, ◌+◌, ◌*◌, ◌-◌, ◌/◌, ◌%◌, ◌<◌, ◌≡◌, ◌≢◌, refl, sym, ap, ◌∙◌, List, [], ◌∷◌, ◌++◌,
  length, arith, ltb, Bool-cases, inl, tests, inr,
}
use duplicacy.Entry.{Text}
use duplicacy.Prune.Expand.{digits, itoa, sequence_key}

-- The number that some digits are read as, after those that give `total`.
abbrev value : ℕ → Text → ℕ
value total [] = total
value total (c ∷ cs) = value (total * 10 + (c - 48)) cs

value-append :
    (total : ℕ) (s : Text) (c : ℕ) → value total (s ++ c ∷ []) ≡ value total s * 10 + (c - 48)
value-append total [] c = refl
value-append total (d ∷ s) c = value-append (total * 10 + (d - 48)) s c

value-digits : (rounds n : ℕ) → n < rounds → value 0 (digits rounds n) ≡ n
unfolding digits
value-digits zero n h = elim h [ ]
value-digits (suc rounds) n h =
    ground
      (arith, value-digits rounds (n / 10), value-append 0 (digits rounds (n / 10)) (48 + n % 10))

abbrev HasNoColon : Text → Type 0
HasNoColon [] = Unit
HasNoColon (c ∷ cs) = (c ≢ 58) × HasNoColon cs

HasNoColon-append : (s t : Text) → HasNoColon s → HasNoColon t → HasNoColon (s ++ t)
HasNoColon-append [] t h k = k
HasNoColon-append (c ∷ s) t (n, h) k = (n, HasNoColon-append s t h k)

HasNoColon-digits : (rounds n : ℕ) → HasNoColon (digits rounds n)
unfolding digits
HasNoColon-digits zero n = tt
HasNoColon-digits (suc rounds) n = elim (Bool-cases (ltb n 10)) [
  | inl e ↦ rw e (omega (tests), tt)
  | inr e ↦ rw e (
      HasNoColon-append (digits rounds (n / 10)) _ (HasNoColon-digits rounds (n / 10))
        (omega arith, tt))
]

-- A colon ends the first part of a text in one way.
colon-injective :
    (s t a b : Text) → HasNoColon s → HasNoColon t → s ++ 58 ∷ a ≡ t ++ 58 ∷ b → (s ≡ t) × (a ≡ b)
colon-injective [] [] a b h k e = (refl, cc)
colon-injective [] (d ∷ t) a b h (n, k) e = absurd (n (cc))
colon-injective (c ∷ s) [] a b (n, h) k e = absurd (n (cc))
colon-injective (c ∷ s) (d ∷ t) a b (n, h) (m, k) e = ground (arith, colon-injective s t a b h k)

append-injective : (s t a b : Text) → length s ≡ length t → s ++ a ≡ t ++ b → (s ≡ t) × (a ≡ b)
append-injective [] [] a b h e = (refl, e)
append-injective [] (d ∷ t) a b h e = absurd (omega arith)
append-injective (c ∷ s) [] a b h e = absurd (omega arith)
append-injective (c ∷ s) (d ∷ t) a b h e = ground (arith, append-injective s t a b)

itoa-injective : (m n : ℕ) → itoa m ≡ itoa n → m ≡ n
unfolding itoa
itoa-injective m n e =
    sym (value-digits (suc m) m (omega arith))
    ∙ ap (value 0) e
    ∙ value-digits (suc n) n (omega arith)

HasNoColon-itoa : (n : ℕ) → HasNoColon (itoa n)
unfolding itoa
HasNoColon-itoa n = HasNoColon-digits (suc n) n

not_empty : (s : Text) (c : ℕ) (t : Text) → s ++ c ∷ t ≢ []
not_empty [] c t e = cc
not_empty (d ∷ s) c t e = cc

-- The key of a sequence of hashes determines the sequence, whatever bytes the hashes have.
pub sequence_key-injective : (a b : List Text) → sequence_key a ≡ sequence_key b → a ≡ b
unfolding sequence_key
sequence_key-injective [] [] e = refl
sequence_key-injective [] (t ∷ b) e =
    absurd (not_empty (itoa (length t)) 58 (t ++ sequence_key b) (sym e))
sequence_key-injective (s ∷ a) [] e =
    absurd (not_empty (itoa (length s)) 58 (s ++ sequence_key a) e)
sequence_key-injective (s ∷ a) (t ∷ b) e =
    let (size, rest) =
      colon-injective (itoa (length s)) (itoa (length t)) (s ++ sequence_key a)
        (t ++ sequence_key b) (HasNoColon-itoa (length s)) (HasNoColon-itoa (length t)) e in
    let (same, keys) =
      append-injective s t (sequence_key a) (sequence_key b)
        (itoa-injective (length s) (length t) size) rest in
    rw (same, sequence_key-injective a b keys) refl
