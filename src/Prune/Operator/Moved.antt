-- ===== src/Prune/Operator/Moved.antt =====
-- What DeleteFile and MoveFile do to the files of a storage, and to its directories.
use duplicacy.Prelude.{
  ◌==◌, ◌≡◌, ◌≢◌, refl, sym, ap, ◌∙◌, inl, inr, List, [], ◌∷◌, ◌++◌, some, true, false, Bool-cases,
  not, ◌&&◌, ◌||◌, arith,
}
use duplicacy.Prelude.Bytes.{eq_text, eq_text_self, eq_of_eq_text}
use duplicacy.Prelude.Tables.{contains}
use duplicacy.Entry.{Text}
use duplicacy.Prune.Exhaustive.{fsl_suffix}
use duplicacy.Prune.Operator.{
  Operator, has_slash, directory_of, is_below, is_any_below, has_directory, remove_file, move_file,
  delete_file,
}

contains-delete_file :
    (p path : Text) (files : List Text)
    → contains p (delete_file path files) ≡ (contains p files && not (eq_text p path))
unfolding contains delete_file
contains-delete_file p path [] = refl
contains-delete_file p path (file ∷ files) = ground (
  arith,
  contains-delete_file p path files,
  eq_of_eq_text p file,
  eq_of_eq_text p path,
  eq_of_eq_text path file,
  eq_text_self p,
  eq_text_self path,
)

pub contains-cons_self : (p q : Text) (files : List Text) → p ≡ q → contains p (q ∷ files) ≡ true
unfolding contains
contains-cons_self p q files e = ground (arith, eq_text_self q)

eq_text-ne : (p q : Text) → p ≢ q → eq_text p q ≡ false
eq_text-ne p q h = elim (Bool-cases (eq_text p q)) [
  | inl e ↦ absurd (h (eq_of_eq_text p q e))
  | inr e ↦ e
]

pub contains-cons_ne :
    (p q : Text) (files : List Text) → q ≢ p → contains p (q ∷ files) ≡ contains p files
unfolding contains
contains-cons_ne p q files h = rw (eq_text-ne p q (λ e. h (sym e))) refl

pub contains-delete_ne :
    (p path : Text) (files : List Text)
    → p ≢ path
    → contains p files ≡ true
    → contains p (delete_file path files) ≡ true
contains-delete_ne p path files h c =
    ground (arith, contains-delete_file p path files, eq_text-ne p path h)

pub contains-delete_self :
    (path : Text) (files : List Text) → contains path (delete_file path files) ≡ false
contains-delete_self path files =
    ground (arith, contains-delete_file path path files, eq_text_self path)

has_slash-fossil : (path : Text) → has_slash (path ++ fsl_suffix) ≡ has_slash path
has_slash-fossil [] = refl
has_slash-fossil (c ∷ path) = ap (λ b. c == b'/' || b) (has_slash-fossil path)

-- A fossil is in the directory of its chunk.
pub directory_of-fossil : (path : Text) → directory_of (path ++ fsl_suffix) ≡ directory_of path
unfolding directory_of
directory_of-fossil [] = refl
directory_of-fossil (c ∷ path) = rw (has_slash-fossil path, directory_of-fossil path) refl

is_below-directory_of : (path : Text) → is_below (directory_of path) path ≡ true
unfolding directory_of
is_below-directory_of [] = refl
is_below-directory_of (c ∷ path) = elim (Bool-cases (c == b'/' || has_slash path)) [
  | inl e ↦ rw e (ground (arith, is_below-directory_of path))
  | inr e ↦ rw e refl
]

is_any_below-contains :
    (path : Text) (files : List Text)
    → contains path files ≡ true
    → is_any_below (directory_of path) files ≡ true
unfolding contains
is_any_below-contains path [] h = absurd (cc)
is_any_below-contains path (file ∷ files) h = elim (Bool-cases (eq_text path file)) [
  | inl e ↦
      rw
        (ap (λ f. is_below (directory_of path) f) (sym (eq_of_eq_text path file e))
          ∙ is_below-directory_of path)
        refl
  | inr e ↦ ground (arith, is_any_below-contains path files, h)
]

-- The directory of a file that is there is there.
pub has_directory-contains :
    (path : Text) (operator : Operator)
    → contains path operator.files ≡ true
    → has_directory (directory_of path) operator ≡ true
unfolding has_directory
has_directory-contains path operator h = rw (is_any_below-contains path operator.files h) refl

pub move_file-there :
    (path to : Text) (operator : Operator)
    → contains path operator.files ≡ true
    → has_directory (directory_of to) operator ≡ true
    → (moved : Operator) × (move_file path to operator ≡ some moved)
      × (moved.files ≡ to ∷ delete_file path operator.files)
unfolding move_file remove_file
move_file-there path to operator c d = rw (c, d) (_, refl, refl)
