-- ===== src/Samples/Entries.antt =====
-- The theorems on entries, at concrete paths and entries.
use duplicacy.Prelude.{◌≡◌, ◌≢◌, ◌↔◌, ◌⊎◌, refl, ap, sym, [], ◌∷◌, ◌++◌, some, false, arith}
use mathlib.Core.List.{Pairwise-pair}
use mathlib.Core.List.Perm
use Prim.Native.Nat.{Ordering}
use duplicacy.Prelude.Bytes.{lex_compare, flip}
use duplicacy.Prelude.Int.{pos, ◌≤ℤ◌}
use duplicacy.Entry.{is_file}
use duplicacy.Entry.Order.{FilePath, head_byte, compare_paths, slash}
use duplicacy.Entry.Order.Key.{key, sign}
use duplicacy.Entry.Order.Key.Agreement.{compare_paths-eq-lex}
use duplicacy.Entry.Order.Total.{compare_paths_trans, compare_paths_total, files_before_directories}
use duplicacy.Entry.Check.{check, accepted, panicked}
use duplicacy.Entry.Check.Decides.{check_iff, check_never_panics, IsPlaced}
use duplicacy.Entry.Codec.{encode_msgpack, decode_msgpack, int}
use duplicacy.Entry.Codec.RoundTrip.{decode_msgpack-encode_msgpack, read_back}
use duplicacy.Entry.Codec.Stable.{encode_msgpack_perm}
use duplicacy.Samples.{some_file}

compare_paths-eq-lex_example :
    sign (compare_paths (b'a' ∷ b'/' ∷ b'b' ∷ []) (b'a' ∷ b'b' ∷ []))
    ≡ lex_compare (key (b'a' ∷ b'/' ∷ b'b' ∷ [])) (key (b'a' ∷ b'b' ∷ []))
compare_paths-eq-lex_example =
    compare_paths-eq-lex (b'a' ∷ b'/' ∷ b'b' ∷ []) (b'a' ∷ b'b' ∷ [])
      (omega arith, (omega arith, (omega arith, tt))) (omega arith, (omega arith, tt))

compare_paths_trans_example :
    sign (compare_paths (b'z' ∷ []) (b'a' ∷ b'/' ∷ b'c' ∷ [])) ≡ Ordering.lt
unfolding compare_paths sign
compare_paths_trans_example =
    compare_paths_trans (b'z' ∷ []) (b'a' ∷ b'/' ∷ b'b' ∷ []) (b'a' ∷ b'/' ∷ b'c' ∷ [])
      (omega arith, tt) (omega arith, (omega arith, (omega arith, tt)))
      (omega arith, (omega arith, (omega arith, tt))) refl refl

abbrev path_a : FilePath
path_a = (b'a' ∷ [])

abbrev path_b : FilePath
path_b = (b'b' ∷ [])

compare_paths_total_example :
    (sign (compare_paths path_b path_a) ≡ flip (sign (compare_paths path_a path_b)))
    × ((sign (compare_paths path_a path_b) ≡ Ordering.eq) ↔ (path_a ≡ path_b))
compare_paths_total_example = compare_paths_total path_a path_b (omega arith, tt) (omega arith, tt)

files_before_directories_example :
    sign (
      compare_paths
        ((b'd' ∷ b'/' ∷ []) ++ (b'z' ∷ []))
        ((b'd' ∷ b'/' ∷ []) ++ ((b'a' ∷ []) ++ slash ∷ (b'b' ∷ []))))
    ≡ Ordering.lt
files_before_directories_example =
    files_before_directories (b'd' ∷ b'/' ∷ []) b'z' [] (b'a' ∷ []) (b'b' ∷ []) (refl, tt)
      (omega arith, tt) (omega arith, (omega arith, (omega arith, tt)))

names_differ : path_a ≢ path_b
names_differ e = omega (arith, ap head_byte e)

check_iff_example : (check (pos 4 ∷ pos 4 ∷ []) some_file ≡ accepted) ↔ (
    (pos 0 ≤ℤ pos 5)
    × ((is_file some_file ≡ false) ⊎ (pos 5 ≡ pos 0) ⊎ IsPlaced (pos 4 ∷ pos 4 ∷ []) some_file))
check_iff_example = check_iff (pos 4 ∷ pos 4 ∷ []) some_file

check_never_panics_example : check (pos 4 ∷ []) some_file ≢ panicked
check_never_panics_example = check_never_panics (pos 4 ∷ []) some_file

decode_msgpack-encode_msgpack_example :
    decode_msgpack (encode_msgpack some_file ++ int (pos 7) ∷ [])
    ≡ some (record some_file { attributes = read_back some_file.attributes }, int (pos 7) ∷ [])
decode_msgpack-encode_msgpack_example =
    decode_msgpack-encode_msgpack some_file (int (pos 7) ∷ []) (omega arith)
      ((names_differ, tt), (tt, tt))

encode_msgpack_perm_example :
    encode_msgpack (record some_file {
      attributes = some (((b'b' ∷ []), (b'1' ∷ [])) ∷ ((b'a' ∷ []), (b'2' ∷ [])) ∷ []);
    })
    ≡ encode_msgpack (record some_file {
      attributes = some (((b'a' ∷ []), (b'2' ∷ [])) ∷ ((b'b' ∷ []), (b'1' ∷ [])) ∷ []);
    })
encode_msgpack_perm_example =
    encode_msgpack_perm some_file (((b'b' ∷ []), (b'1' ∷ [])) ∷ ((b'a' ∷ []), (b'2' ∷ [])) ∷ [])
      (((b'a' ∷ []), (b'2' ∷ [])) ∷ ((b'b' ∷ []), (b'1' ∷ [])) ∷ [])
      (Perm.swap ((b'a' ∷ []), (b'2' ∷ [])) ((b'b' ∷ []), (b'1' ∷ [])) [])
      ((Pairwise-pair (λ p q. hlevel)).1 (λ e. names_differ (sym e)))
