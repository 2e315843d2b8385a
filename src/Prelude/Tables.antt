-- ===== src/Prelude/Tables.antt =====
-- Go's maps with string keys, as lists of pairs with distinct keys, and membership of strings.
use duplicacy.Prelude.{
  ℕ, ◌≡◌, refl, List, [], ◌∷◌, ◌++◌, Option, none, some, Bool, false, ◌||◌, arith, if◌then◌else◌,
  Bool-cases, inl, inr,
}
use duplicacy.Prelude.Bytes.{eq_text, eq_text_self, eq_of_eq_text}

unfoldable pub contains : List ℕ → List (List ℕ) → Bool
contains s [] = false
contains s (t ∷ rest) = eq_text s t || contains s rest

pub contains-append :
    (s : List ℕ) (a b : List (List ℕ)) → contains s (a ++ b) ≡ contains s a || contains s b
unfolding contains
contains-append s [] b = refl
contains-append s (t ∷ a) b = ground (arith, contains-append s a b)

pub eq_text_comm : (s t : List ℕ) → eq_text s t ≡ eq_text t s
eq_text_comm s t = ground (arith, eq_of_eq_text s t, eq_of_eq_text t s, eq_text_self s)

module _ {ℓ} {A : Type ℓ} where
  unfoldable pub lookup : List ℕ → List (List ℕ × A) → Option A
  lookup k [] = none
  lookup k ((j, v) ∷ rest) = if eq_text k j then some v else lookup k rest

  unfoldable pub put : List ℕ → A → List (List ℕ × A) → List (List ℕ × A)
  put k v [] = (k, v) ∷ []
  put k v ((j, w) ∷ rest) = if eq_text k j then (j, v) ∷ rest else (j, w) ∷ put k v rest

  abbrev pub HasDistinctKeys : List (List ℕ × A) → Type ℓ
  HasDistinctKeys [] = Unit
  HasDistinctKeys ((j, v) ∷ rest) = (lookup j rest ≡ none) × HasDistinctKeys rest

  pub lookup-put :
      (i k : List ℕ) (v : A) (table : List (List ℕ × A))
      → lookup i (put k v table) ≡ (if eq_text i k then some v else lookup i table)
  unfolding lookup put
  lookup-put i k v [] = refl
  lookup-put i k v ((j, w) ∷ rest) = ground (
    arith,
    eq_of_eq_text k j,
    eq_of_eq_text i k,
    eq_of_eq_text i j,
    eq_text_self j,
    lookup-put i k v rest,
  )

  pub HasDistinctKeys-put :
      (k : List ℕ) (v : A) (table : List (List ℕ × A))
      → HasDistinctKeys table
      → HasDistinctKeys (put k v table)
  unfolding lookup put
  HasDistinctKeys-put k v [] h = (refl, tt)
  HasDistinctKeys-put k v ((j, w) ∷ rest) (h, hs) = elim (Bool-cases (eq_text k j)) [
    | inl e ↦ rw e (h, hs)
    | inr e ↦
        rw e
          (ground (arith, lookup-put j k v rest, eq_text_comm j k), HasDistinctKeys-put k v rest hs)
  ]
