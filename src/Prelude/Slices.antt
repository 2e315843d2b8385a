-- ===== src/Prelude/Slices.antt =====
-- Slices of lists, by `take` and `drop`.
use duplicacy.Prelude.{
  ℕ, zero, suc, length-append, ◌+◌, ◌-◌, ◌≤◌, length, take, drop, ◌≡◌, refl, sym, ap, ◌∙◌, List, [],
  ◌∷◌, ◌++◌, arith,
}

module _ {A : Type 0} where
  pub drop-append : (n : ℕ) (xs ys : List A) → n ≤ length xs → drop n (xs ++ ys) ≡ drop n xs ++ ys
  drop-append zero xs ys h = refl
  drop-append (suc n) [] ys h = absurd (omega arith)
  drop-append (suc n) (x ∷ xs) ys h = drop-append n xs ys (omega arith)

  pub take-append : (n : ℕ) (xs ys : List A) → n ≤ length xs → take n (xs ++ ys) ≡ take n xs
  take-append zero xs ys h = refl
  take-append (suc n) [] ys h = absurd (omega arith)
  take-append (suc n) (x ∷ xs) ys h = ap (λ t. x ∷ t) (take-append n xs ys (omega arith))

  pub take-whole : (n : ℕ) (xs ys : List A) → n ≡ length xs → take n (xs ++ ys) ≡ xs
  take-whole zero [] ys h = refl
  take-whole zero (x ∷ xs) ys h = absurd (omega arith)
  take-whole (suc n) [] ys h = absurd (omega arith)
  take-whole (suc n) (x ∷ xs) ys h = ap (λ t. x ∷ t) (take-whole n xs ys (omega arith))

  pub take-append_past :
      (n : ℕ) (xs ys : List A) → length xs ≤ n → take n (xs ++ ys) ≡ xs ++ take (n - length xs) ys
  take-append_past n [] ys h = ap (λ k. take k ys) (omega arith)
  take-append_past zero (x ∷ xs) ys h = absurd (omega arith)
  take-append_past (suc n) (x ∷ xs) ys h =
      ap (λ t. x ∷ t)
        (take-append_past n xs ys (omega arith) ∙ ap (λ k. xs ++ take k ys) (omega arith))

  pub drop-append_past :
      (n : ℕ) (xs ys : List A) → length xs ≤ n → drop n (xs ++ ys) ≡ drop (n - length xs) ys
  drop-append_past n [] ys h = ap (λ k. drop k ys) (omega arith)
  drop-append_past zero (x ∷ xs) ys h = absurd (omega arith)
  drop-append_past (suc n) (x ∷ xs) ys h =
      drop-append_past n xs ys (omega arith) ∙ ap (λ k. drop k ys) (omega arith)

  pub drop_nil : (n : ℕ) → drop {A = A} n [] ≡ []
  drop_nil zero = refl
  drop_nil (suc n) = refl

  pub take_nil : (n : ℕ) → take {A = A} n [] ≡ []
  take_nil zero = refl
  take_nil (suc n) = refl

  pub take-take : (k n : ℕ) (xs : List A) → k ≤ n → take k (take n xs) ≡ take k xs
  take-take zero n xs h = refl
  take-take (suc k) zero xs h = absurd (omega arith)
  take-take (suc k) (suc n) [] h = refl
  take-take (suc k) (suc n) (x ∷ xs) h = ap (λ t. x ∷ t) (take-take k n xs (omega arith))

  pub drop-take : (k n : ℕ) (xs : List A) → k ≤ n → drop k (take n xs) ≡ take (n - k) (drop k xs)
  drop-take zero n xs h = ap (λ m. take m xs) (omega arith)
  drop-take (suc k) zero xs h = absurd (omega arith)
  drop-take (suc k) (suc n) [] h = sym (take_nil (suc n - suc k))
  drop-take (suc k) (suc n) (x ∷ xs) h =
      drop-take k n xs (omega arith) ∙ ap (λ m. take m (drop k xs)) (omega arith)

  pub drop-drop : (a b : ℕ) (xs : List A) → drop a (drop b xs) ≡ drop (b + a) xs
  drop-drop a zero xs = ap (λ m. drop m xs) (omega arith)
  drop-drop a (suc b) [] = drop_nil a ∙ sym (drop_nil (suc b + a))
  drop-drop a (suc b) (x ∷ xs) =
      drop-drop a b xs
      ∙ ap (λ m. drop m (x ∷ xs)) (let e : suc (b + a) ≡ suc b + a = omega arith in e)

  pub append-cancel_right : (xs ys zs : List A) → xs ++ zs ≡ ys ++ zs → xs ≡ ys
  append-cancel_right xs ys zs e =
      sym (take-whole (length xs) xs zs refl)
      ∙ ap (take (length xs)) e
      ∙ take-whole (length xs) ys zs
          (omega (arith, ap length e, length-append xs zs, length-append ys zs))
