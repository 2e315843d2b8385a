-- ===== src/Entry/Order/Key.antt =====
-- The order of ComparePaths as the plain lexicographic order of a sort key.
pub mod Agreement
use Prim.Native.Nat.{Ordering}
use duplicacy.Prelude.{ℕ, ◌<◌, List, [], ◌∷◌, ◌==◌, ltb, if◌then◌else◌}
use duplicacy.Prelude.Int.{ℤ, pos, negsuc}
use duplicacy.Entry.Order.{FilePath, slash, head_byte, Ending, find_ending}

-- The bytes of a file name are not 0.
abbrev pub HasNoZero : FilePath → Type 0
HasNoZero [] = Unit
HasNoZero (c ∷ s) = (0 < c) × HasNoZero s

-- The kind of the first component: 0 a file, 1 a directory that ends the path, 2 one that does not.
abbrev pub kind_of : Ending → ℕ
kind_of e = if e.byte == slash then (if e.last then 1 else 2) else 0

unfoldable pub kind : FilePath → ℕ
unfolding find_ending
kind s = kind_of (find_ending (head_byte s) s)

abbrev pub with_kind : FilePath → List ℕ → List ℕ
with_kind [] name = []
with_kind (c ∷ s) name = kind (c ∷ s) ∷ name

-- The rest of a component's name, a 0, and the components that follow.
pub name_key : FilePath → List ℕ
name_key [] = 0 ∷ []
name_key (c ∷ s) = let rest = name_key s in if c == slash then 0 ∷ with_kind s rest else c ∷ rest

-- Each component contributes its kind, its name and a 0.
unfoldable pub key : FilePath → List ℕ
unfolding kind name_key find_ending
key s = with_kind s (name_key s)

unfoldable pub sign : ℤ → Ordering
sign (pos n) = if n == 0 then Ordering.eq else Ordering.gt
sign (negsuc _) = Ordering.lt
