-- ===== src/Prelude/Int64.antt =====
-- Go's `int` and `int64`: integers that wrap around at 64 bits.
use duplicacy.Prelude.{
  ℕ, ◌+◌, ◌-◌, ◌%◌, ◌^◌, ◌≤◌, ◌<◌, ◌≡◌, ◌∙◌, ap, Bool, arith, ltb, leb, ◌==◌, if◌then◌else◌, sym,
}
use duplicacy.Prelude.Int.{ℤ, pos, negsuc, pos_part, neg_part, ◌+ℤ◌, ◌-ℤ◌, +ℤ_parts}

-- The bit pattern of an integer, as an unsigned number.
unfoldable pub residue : ℤ → ℕ
residue (pos n) = n % 2 ^ 64
residue (negsuc n) = 2 ^ 64 - 1 - n % 2 ^ 64

unfoldable pub signed64 : ℕ → ℤ
signed64 w = if ltb w (2 ^ 63) then pos w else negsuc (2 ^ 64 - 1 - w)

unfoldable pub wrap64 : ℤ → ℤ
unfolding residue signed64
wrap64 a = signed64 (residue a)

abbrev pub InRange64 : ℤ → Type 0
InRange64 a = (pos_part a < 2 ^ 63) × (neg_part a ≤ 2 ^ 63)

pub wrap64_id : (a : ℤ) → InRange64 a → wrap64 a ≡ a
unfolding wrap64
wrap64_id (pos n) h = ground arith
wrap64_id (negsuc n) h = ground arith

unfoldable pub add64 : ℤ → ℤ → ℤ
unfolding wrap64 ◌+ℤ◌
add64 a b = wrap64 (a +ℤ b)

unfoldable pub sub64 : ℤ → ℤ → ℤ
unfolding wrap64 ◌-ℤ◌
sub64 a b = wrap64 (a -ℤ b)

-- The pattern as the difference of the parts.
residue_parts : (a : ℤ) → residue a ≡ (pos_part a + (2 ^ 64 - neg_part a % 2 ^ 64)) % 2 ^ 64
unfolding residue
residue_parts (pos n) = omega arith
residue_parts (negsuc n) = omega arith

residue-wrap64 : (a : ℤ) → residue (wrap64 a) ≡ residue a
unfolding wrap64
residue-wrap64 (pos n) = ground arith
residue-wrap64 (negsuc n) = ground arith

pub residue-+ℤ : (a b : ℤ) → residue (a +ℤ b) ≡ (residue a + residue b) % 2 ^ 64
residue-+ℤ a b =
    omega (arith, residue_parts a, residue_parts b, residue_parts (a +ℤ b), +ℤ_parts a b)

pub wrap64_left : (a b : ℤ) → wrap64 (wrap64 a +ℤ b) ≡ wrap64 (a +ℤ b)
unfolding wrap64
wrap64_left a b = ap signed64 (
    residue-+ℤ (wrap64 a) b
    ∙ ap (λ r. (r + residue b) % 2 ^ 64) (residue-wrap64 a)
    ∙ sym (residue-+ℤ a b))

pub wrap64_right : (a b : ℤ) → wrap64 (a +ℤ wrap64 b) ≡ wrap64 (a +ℤ b)
unfolding wrap64
wrap64_right a b = ap signed64 (
    residue-+ℤ a (wrap64 b)
    ∙ ap (λ r. (residue a + r) % 2 ^ 64) (residue-wrap64 b)
    ∙ sym (residue-+ℤ a b))

-- A running total: its wrapped summands may be added without wrapping first.
pub add64-sub64 : (t a b : ℤ) → add64 t (sub64 a b) ≡ wrap64 (t +ℤ (a -ℤ b))
unfolding add64 sub64
add64-sub64 t a b = wrap64_right t (a -ℤ b)

infix 50 ◌==ℤ◌
abbrev pub ◌==ℤ◌ : ℤ → ℤ → Bool
a ==ℤ b = pos_part a + neg_part b == pos_part b + neg_part a

abbrev pub leb_ℤ : ℤ → ℤ → Bool
leb_ℤ a b = leb (pos_part a + neg_part b) (pos_part b + neg_part a)

pub add64_exact : (a b : ℤ) → InRange64 (a +ℤ b) → add64 a b ≡ a +ℤ b
unfolding add64
add64_exact a b h = wrap64_id (a +ℤ b) h

pub sub64_exact : (a b : ℤ) → InRange64 (a -ℤ b) → sub64 a b ≡ a -ℤ b
unfolding sub64
sub64_exact a b h = wrap64_id (a -ℤ b) h

pub add64_one : (n : ℕ) → n + 1 < 2 ^ 63 → add64 (pos n) (pos 1) ≡ pos (n + 1)
unfolding add64 wrap64
add64_one n h = ground arith
