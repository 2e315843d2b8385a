-- ===== src/Entry/Order.antt =====
-- ComparePaths of src/duplicacy_entry.go: the order of the entries in a snapshot.
pub mod Key
pub mod Total
use duplicacy.Prelude.{
  is_empty, ℕ, Bool, true, false, ◌≡◌, refl, List, [], ◌∷◌, ◌==◌, if◌then◌else◌,
}
use mathlib.Core.Bool.{xor}
use duplicacy.Prelude.Int.{ℤ, pos, negsuc, sub_ℕ}

-- A path as its bytes.
abbrev pub FilePath : Type 0
FilePath = List ℕ

abbrev pub slash : ℕ
slash = b'/'

-- `c1` and `c2`: the byte at the position where the paths differ, 0 past the end.
abbrev pub head_byte : FilePath → ℕ
head_byte [] = 0
head_byte (c ∷ _) = c

-- `c3` and `last1` (`c4` and `last2`): how the current component ends.
pub record Ending : Type 0 where
  pub byte : ℕ
  pub last : Bool

-- The loop `for i := p; i < len(left); i++`, with the value of `c3` so far.
unfoldable pub find_ending : ℕ → FilePath → Ending
find_ending c [] = record { byte = c; last = true }
find_ending c (x ∷ rest) =
    if x == slash then record { byte = slash; last = is_empty rest } else find_ending x rest

-- The tests that follow the loops.
unfoldable pub compare_endings : ℕ → ℕ → Ending → Ending → ℤ
unfolding xor
compare_endings c1 c2 e1 e2 =
    if xor e1.last e2.last
    then (if e1.last then negsuc 0 else pos 1)
    else if e1.byte == slash
    then (if e2.byte == slash
        then (if c1 == slash then negsuc 0 else if c2 == slash then pos 1 else sub_ℕ c1 c2)
        else pos 1)
    else if e2.byte == slash
    then negsuc 0
    else sub_ℕ c1 c2

-- `left[p:]` and `right[p:]`, where `p` is the first position at which the paths differ.
unfoldable pub compare_rest : FilePath → FilePath → ℤ
unfolding find_ending compare_endings
compare_rest left right =
    let c1 = head_byte left in
    let c2 = head_byte right in compare_endings c1 c2 (find_ending c1 left) (find_ending c2 right)

unfoldable pub compare_paths : FilePath → FilePath → ℤ
unfolding compare_rest
compare_paths [] right = compare_rest [] right
compare_paths (x ∷ left) [] = compare_rest (x ∷ left) []
compare_paths (x ∷ left) (y ∷ right) =
    if x == y then compare_paths left right else compare_rest (x ∷ left) (y ∷ right)
