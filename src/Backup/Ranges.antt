-- ===== src/Backup/Ranges.antt =====
-- The chunks that an entry names in a table of chunks.
use duplicacy.Prelude.{
  ℕ, zero, suc, ◌+◌, ◌-◌, ◌≤◌, ◌<◌, leb, ltb, length, get_elem?, take, drop, length-append, ◌≡◌,
  refl, ap, ◌∙◌, List, [], ◌∷◌, ◌++◌, Option, none, some, if◌then◌else◌, ◌&&◌, arith, length-take,
  length-drop,
}
use duplicacy.Prelude.Slices.{take-append, drop-append}
use duplicacy.Prelude.Int.{ℤ, pos, negsuc}

module _ {A : Type 0} where
  -- From the first chunk to the last, both included; `none` if this is not a range of the table.
  abbrev pub range : List A → ℤ → ℤ → Option (List A)
  range xs (pos s) (pos e) =
      if leb s e && ltb e (length xs) then some (take (e + 1 - s) (drop s xs)) else none
  range xs start end = none

  pub range-within :
      (xs : List A) (s e : ℕ)
      → s ≤ e
      → e < length xs
      → range xs (pos s) (pos e) ≡ some (take (e + 1 - s) (drop s xs))
  range-within xs s e h k = ground arith

  pub drop-append_length : (xs ys : List A) → drop (length xs) (xs ++ ys) ≡ ys
  drop-append_length [] ys = refl
  drop-append_length (x ∷ xs) ys = drop-append_length xs ys

  pub take_all : (xs : List A) → take (length xs) xs ≡ xs
  take_all [] = refl
  take_all (x ∷ xs) = ap (λ t. x ∷ t) (take_all xs)

  pub take_self : (n : ℕ) (xs : List A) → n ≡ length xs → take n xs ≡ xs
  take_self n xs e = rw e (take_all xs)

  pub drop-get_elem? :
      (n : ℕ) (xs : List A) (x : A) → get_elem? xs n ≡ some x → drop n xs ≡ x ∷ drop (suc n) xs
  drop-get_elem? zero [] x h = absurd (cc)
  drop-get_elem? zero (y ∷ xs) x h = cc
  drop-get_elem? (suc n) [] x h = absurd (cc)
  drop-get_elem? (suc n) (y ∷ xs) x h = drop-get_elem? n xs x h

  -- What is appended later leaves a range as it is.
  pub range-append :
      (xs ys : List A) (start end : ℤ) (r : List A)
      → range xs start end ≡ some r
      → range (xs ++ ys) start end ≡ some r
  range-append xs ys (pos s) (pos e) r h = ground (
    arith,
    length-append xs ys,
    length-drop s xs,
    drop-append s xs ys,
    take-append (e + 1 - s) (drop s xs) ys,
  )
  range-append xs ys (pos s) (negsuc e) r h = absurd (cc)
  range-append xs ys (negsuc s) end r h = absurd (cc)

  pub take_last :
      (n : ℕ) (xs : List A) (x : A)
      → get_elem? xs n ≡ some x
      → take (suc n) xs ≡ take n xs ++ x ∷ []
  take_last zero [] x h = absurd (cc)
  take_last zero (y ∷ xs) x h = cc
  take_last (suc n) [] x h = absurd (cc)
  take_last (suc n) (y ∷ xs) x h = ap (λ t. y ∷ t) (take_last n xs x h)

  pub get_elem?-drop : (s n : ℕ) (xs : List A) → get_elem? (drop s xs) n ≡ get_elem? xs (s + n)
  get_elem?-drop zero n xs = ap (get_elem? xs) (omega arith)
  get_elem?-drop (suc s) n [] = refl
  get_elem?-drop (suc s) n (x ∷ xs) =
      get_elem?-drop s n xs
      ∙ ap (get_elem? (x ∷ xs)) (let e : suc (s + n) ≡ suc s + n = omega arith in e)

  pub range-appended :
      (base xs : List A) (s e : ℕ)
      → s ≤ e
      → e < length xs
      → range
          (base ++ take (e + 1 - s) (drop s xs))
          (pos (length base))
          (pos (length base + (e - s)))
        ≡ range xs (pos s) (pos e)
  range-appended base xs s e h k = ground (
    arith,
    length-append base (take (e + 1 - s) (drop s xs)),
    length-take (e + 1 - s) (drop s xs),
    length-drop s xs,
    drop-append_length base (take (e + 1 - s) (drop s xs)),
    take_self (length base + (e - s) + 1 - length base) (take (e + 1 - s) (drop s xs)),
  )
