-- ===== src/EntryList/Uploads.antt =====
-- Chunks are uploaded by several threads at once. The table that AddUploadedChunk of
-- src/duplicacy_entrylist.go fills does not depend on the order in which they finish.
use duplicacy.Prelude.{
  ℕ, zero, suc, ◌+◌, ◌-◌, ◌≡◌, ◌≢◌, refl, sym, ap, ◌∙◌, List, [], ◌∷◌, ◌++◌, length, set, arith,
}
use mathlib.Core.List.{Perm, Permᴰ, Pairwise, Pairwise-cons, mem-cons_self, rel_of_Pairwise-cons}
use mathlib.Core.List.Permᴰ
use mathlib.Core.Logic.{∥∥₁_elim}
use duplicacy.Prelude.Int.{ℤ, pos}
use duplicacy.Entry.{Text}
use duplicacy.EntryList.{EntryList, pad, put_at, add_uploaded_chunk}

module _ {ℓ} {A : Type ℓ} (blank : A) where
  -- The write with its padding, in one recursion.
  written : ℕ → A → List A → List A
  written zero v [] = v ∷ []
  written (suc i) v [] = blank ∷ written i v []
  written zero v (x ∷ xs) = v ∷ xs
  written (suc i) v (x ∷ xs) = x ∷ written i v xs

  pad-cons : (n : ℕ) (x : A) (xs : List A) → pad blank n (x ∷ xs) ≡ x ∷ pad blank n xs
  unfolding pad
  pad-cons zero x xs = refl
  pad-cons (suc n) x xs = pad-cons n x (xs ++ blank ∷ [])

  pad-nil : (i : ℕ) (v : A) → set (pad blank (suc i) []) i v ≡ written i v []
  unfolding pad written
  pad-nil zero v = refl
  pad-nil (suc i) v = rw (pad-cons (suc i) blank []) (ap (λ t. blank ∷ t) (pad-nil i v))

  put_at-eq-written : (i : ℕ) (v : A) (xs : List A) → put_at blank i v xs ≡ written i v xs
  unfolding put_at written
  put_at-eq-written i v [] = let e : i + 1 - 0 ≡ suc i = omega arith in rw e (pad-nil i v)
  put_at-eq-written zero v (x ∷ xs) =
      let e : 0 + 1 - suc (length xs) ≡ 0 = omega arith in rw e (unfold pad written in refl)
  put_at-eq-written (suc i) v (x ∷ xs) =
      let e : suc i + 1 - suc (length xs) ≡ i + 1 - length xs = omega arith in
      rw (e, pad-cons) (ap (λ t. x ∷ t) (put_at-eq-written i v xs))

  written-append : (v : A) (xs : List A) → written (length xs) v xs ≡ xs ++ v ∷ []
  unfolding written
  written-append v [] = refl
  written-append v (x ∷ xs) = ap (λ t. x ∷ t) (written-append v xs)

  -- The next index is the end of the list.
  pub put_at-append : (v : A) (xs : List A) → put_at blank (length xs) v xs ≡ xs ++ v ∷ []
  put_at-append v xs = put_at-eq-written (length xs) v xs ∙ written-append v xs

  written_comm :
      (i j : ℕ) (v w : A) (xs : List A)
      → i ≢ j
      → written i v (written j w xs) ≡ written j w (written i v xs)
  unfolding written
  written_comm zero zero v w xs h = absurd (h refl)
  written_comm zero (suc j) v w [] h = refl
  written_comm zero (suc j) v w (x ∷ xs) h = refl
  written_comm (suc i) zero v w [] h = refl
  written_comm (suc i) zero v w (x ∷ xs) h = refl
  written_comm (suc i) (suc j) v w [] h =
      ap (λ t. blank ∷ t) (written_comm i j v w [] (λ e. h (ap suc e)))
  written_comm (suc i) (suc j) v w (x ∷ xs) h =
      ap (λ t. x ∷ t) (written_comm i j v w xs (λ e. h (ap suc e)))

  put_at_comm :
      (i j : ℕ) (v w : A) (xs : List A)
      → i ≢ j
      → put_at blank i v (put_at blank j w xs) ≡ put_at blank j w (put_at blank i v xs)
  put_at_comm i j v w xs h = simp put_at-eq-written (written_comm i j v w xs h)

-- One call of AddUploadedChunk.
pub record Upload : Type 0 where
  pub index : ℕ
  pub hash : Text
  pub size : ℤ

unfoldable pub add_uploads : List Upload → EntryList → EntryList
add_uploads [] l = l
add_uploads (u ∷ us) l = add_uploads us (add_uploaded_chunk u.index u.hash u.size l)

abbrev pub Differ : Upload → Upload → Type 0
Differ u v = u.index ≢ v.index

add_uploaded_chunk_comm :
    (u v : Upload) (l : EntryList)
    → Differ u v
    → add_uploaded_chunk v.index v.hash v.size (add_uploaded_chunk u.index u.hash u.size l)
      ≡ add_uploaded_chunk u.index u.hash u.size (add_uploaded_chunk v.index v.hash v.size l)
unfolding add_uploaded_chunk
add_uploaded_chunk_comm u v l h =
    let hashes =
      put_at_comm [] v.index u.index v.hash u.hash l.uploaded_chunk_hashes (λ e. h (sym e)) in
    let lengths =
      put_at_comm (pos 0) v.index u.index v.size u.size l.uploaded_chunk_lengths (λ e. h (sym e)) in
    λ i. record l { uploaded_chunk_hashes = hashes i; uploaded_chunk_lengths = lengths i }

Differ-prop : (u v : Upload) → IsProp (Differ u v)
Differ-prop u v = hlevel

add_uploads_of_permᴰ :
    (us vs : List Upload) (l : EntryList)
    → Permᴰ us vs
    → Pairwise Differ us
    → add_uploads us l ≡ add_uploads vs l
unfolding add_uploads
add_uploads_of_permᴰ us vs l Permᴰ.nil h = refl
add_uploads_of_permᴰ us vs l (Permᴰ.cons {a = u} {b = v} {l₁ = us'} {l₂ = vs'} e d) h = rw e (
    add_uploads_of_permᴰ us' vs' (add_uploaded_chunk v.index v.hash v.size l) d
      (Pairwise-cons.0 h).1)
add_uploads_of_permᴰ us vs l (Permᴰ.swap {a = u} {b = v} {l = ws} e f) h =
    rw (← e, ← f)
      (ap (add_uploads ws) (add_uploaded_chunk_comm u v l (rel_of_Pairwise-cons h mem-cons_self)))
add_uploads_of_permᴰ us vs l (Permᴰ.trans {l₁ = us'} {l₂ = ws} {l₃ = vs'} d d') h =
    add_uploads_of_permᴰ us' ws l d h
    ∙ add_uploads_of_permᴰ ws vs' l d' (Permᴰ.pairwise Differ-prop (λ x y n e. n (sym e)) d h)

EntryList-set : IsSet EntryList
EntryList-set = hlevel

-- Whatever the order in which the threads report their chunks, the table of uploaded chunks comes
-- out the same, if no two of the chunks have the same index.
pub add_uploads_perm :
    (us vs : List Upload) (l : EntryList)
    → Perm us vs
    → Pairwise Differ us
    → add_uploads us l ≡ add_uploads vs l
add_uploads_perm us vs l p h =
    ∥∥₁_elim p (EntryList-set _ _) (λ d. add_uploads_of_permᴰ us vs l d h)
