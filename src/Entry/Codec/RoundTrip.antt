-- ===== src/Entry/Codec/RoundTrip.antt =====
-- What EncodeMsgpack writes, DecodeMsgpack reads back.
use duplicacy.Prelude.{
  ℕ, suc, ◌%◌, ◌^◌, ◌<◌, length, false, Bool-cases, inl, inr, ◌≡◌, ◌≢◌, refl, sym, ap, ◌∙◌, List,
  [], ◌∷◌, ◌++◌, Option, none, some, arith,
}
use mathlib.Core.List.{append-nil, append_assoc}
use duplicacy.Prelude.Bytes.{eq_text, eq_of_eq_text, lt_text}
use duplicacy.Prelude.Int.{ℤ, pos}
use duplicacy.Prelude.Int64.{residue}
use duplicacy.Entry.{Text, Attributes, Entry}
use duplicacy.Entry.Codec.{
  Value, encode_msgpack, encode_attributes, encode_pairs, sort_attributes, insert_sorted,
  put_attribute, decode_pairs, decode_attributes, decode_msgpack, decode_int, decode_string, ◌>>=◌,
  pure, Decoder, int,
}

abbrev pub Fresh : Text → Attributes → Type 0
Fresh k [] = Unit
Fresh k ((j, w) ∷ rest) = (j ≢ k) × Fresh k rest

-- The names of a map are distinct.
abbrev pub HasDistinctNames : Attributes → Type 0
HasDistinctNames [] = Unit
HasDistinctNames ((k, v) ∷ rest) = Fresh k rest × HasDistinctNames rest

eq_text-ne : (s t : Text) → s ≢ t → eq_text s t ≡ false
eq_text-ne s t h = elim (Bool-cases (eq_text s t)) [
  | inl e ↦ absurd (h (eq_of_eq_text s t e))
  | inr e ↦ e
]

Fresh-insert_sorted :
    (j k v : Text) (attributes : Attributes)
    → k ≢ j
    → Fresh j attributes
    → Fresh j (insert_sorted k v attributes)
unfolding insert_sorted
Fresh-insert_sorted j k v [] h f = (h, tt)
Fresh-insert_sorted j k v ((i, w) ∷ rest) h f = elim (Bool-cases (lt_text k i)) [
  | inl e ↦ rw e (h, f)
  | inr e ↦ rw e (f.0, Fresh-insert_sorted j k v rest h f.1)
]

HasDistinctNames-insert_sorted :
    (k v : Text) (attributes : Attributes)
    → Fresh k attributes
    → HasDistinctNames attributes
    → HasDistinctNames (insert_sorted k v attributes)
unfolding insert_sorted
HasDistinctNames-insert_sorted k v [] f d = (tt, tt)
HasDistinctNames-insert_sorted k v ((i, w) ∷ rest) f d = elim (Bool-cases (lt_text k i)) [
  | inl e ↦ rw e (f, d)
  | inr e ↦ rw e (
    Fresh-insert_sorted i k v rest (λ q. f.0 (sym q)) d.0,
    HasDistinctNames-insert_sorted k v rest f.1 d.1,
  )
]

Fresh-sort_attributes :
    (k : Text) (attributes : Attributes) → Fresh k attributes → Fresh k (sort_attributes attributes)
unfolding sort_attributes
Fresh-sort_attributes k [] f = tt
Fresh-sort_attributes k ((j, v) ∷ rest) f =
    Fresh-insert_sorted k j v (sort_attributes rest) f.0 (Fresh-sort_attributes k rest f.1)

HasDistinctNames-sort_attributes :
    (attributes : Attributes)
    → HasDistinctNames attributes
    → HasDistinctNames (sort_attributes attributes)
unfolding sort_attributes
HasDistinctNames-sort_attributes [] d = tt
HasDistinctNames-sort_attributes ((k, v) ∷ rest) d =
    HasDistinctNames-insert_sorted k v (sort_attributes rest) (Fresh-sort_attributes k rest d.0)
      (HasDistinctNames-sort_attributes rest d.1)

length-insert_sorted :
    (k v : Text) (attributes : Attributes)
    → length (insert_sorted k v attributes) ≡ suc (length attributes)
unfolding insert_sorted
length-insert_sorted k v [] = refl
length-insert_sorted k v ((j, w) ∷ rest) = ground (arith, length-insert_sorted k v rest)

pub length-sort_attributes :
    (attributes : Attributes) → length (sort_attributes attributes) ≡ length attributes
unfolding sort_attributes
length-sort_attributes [] = refl
length-sort_attributes ((k, v) ∷ rest) =
    length-insert_sorted k v (sort_attributes rest) ∙ ap suc (length-sort_attributes rest)

Fresh-middle :
    (j : Text) (before : Attributes) (k v : Text) (after : Attributes)
    → Fresh j (before ++ (k, v) ∷ after)
    → k ≢ j
Fresh-middle j [] k v after f = f.0
Fresh-middle j ((i, w) ∷ before) k v after f = Fresh-middle j before k v after f.1

put_attribute-new :
    (before : Attributes) (k v : Text) (after : Attributes)
    → HasDistinctNames (before ++ (k, v) ∷ after)
    → put_attribute k v before ≡ before ++ (k, v) ∷ []
unfolding put_attribute
put_attribute-new [] k v after d = refl
put_attribute-new ((j, w) ∷ before) k v after d =
    rw (eq_text-ne j k (λ q. Fresh-middle j before k v after d.0 (sym q)))
      (ap (λ t. (j, w) ∷ t) (put_attribute-new before k v after d.1))

decode_pairs-encode :
    (attributes before : Attributes) (rest : List Value)
    → HasDistinctNames (before ++ attributes)
    → decode_pairs (length attributes) before (encode_pairs attributes ++ rest)
      ≡ some (before ++ attributes, rest)
unfolding decode_pairs encode_pairs
decode_pairs-encode [] before rest d = rw append-nil
decode_pairs-encode ((k, v) ∷ attributes) before rest d =
    rw (put_attribute-new before k v attributes d) (
      decode_pairs-encode attributes (before ++ (k, v) ∷ []) rest (rw append_assoc d)
      ∙ ap (λ t. some (t, rest)) (append_assoc before ((k, v) ∷ []) attributes))

-- The map that a decoder returns for the attributes: nil for an empty one, and in order.
abbrev pub read_back : Option Attributes → Option Attributes
read_back none = none
read_back (some []) = none
read_back (some ((k, v) ∷ rest)) = some (sort_attributes ((k, v) ∷ rest))

abbrev pub AreDistinct : Option Attributes → Type 0
AreDistinct none = Unit
AreDistinct (some attributes) = HasDistinctNames attributes

bind-some :
    {A B : Type 0} (m : Decoder A) (f : A → Decoder B) (values : List Value) {a : A}
    {rest : List Value}
    → m values ≡ some (a, rest)
    → (m >>= f) values ≡ f a rest
bind-some m f values e = rw (e, ◌>>=◌)

decode_attributes-some :
    (n : ℕ) (attributes : Attributes) (rest : List Value)
    → suc n ≡ length attributes
    → HasDistinctNames attributes
    → decode_attributes (pos (suc n)) (encode_pairs attributes ++ rest)
      ≡ some (some attributes, rest)
unfolding decode_attributes
decode_attributes-some n attributes rest e d =
    bind-some (decode_pairs (suc n) []) (λ t. pure (some t)) _
      (rw e (decode_pairs-encode attributes [] rest d))

-- The count and the pairs that are written, and that the decoder reads them.
record AreReadable (attributes : Option Attributes) (rest : List Value) : Type 0 where
  count : ℤ
  pairs : List Value
  written : encode_attributes attributes ≡ int count ∷ pairs
  read : decode_attributes count (pairs ++ rest) ≡ some (read_back attributes, rest)

attributes-AreReadable :
    (attributes : Option Attributes) (rest : List Value)
    → AreDistinct attributes
    → AreReadable attributes rest
unfolding encode_attributes
attributes-AreReadable none rest d = record {
  count = pos 0;
  pairs = [];
  written = refl;
  read = unfold decode_attributes in refl;
}
attributes-AreReadable (some []) rest d = record {
  count = pos 0;
  pairs = [];
  written = refl;
  read = unfold decode_attributes in refl;
}
attributes-AreReadable (some ((k, v) ∷ more)) rest d = record {
  count = pos (suc (length more));
  pairs = encode_pairs (sort_attributes ((k, v) ∷ more));
  written = refl;
  read =
      decode_attributes-some (length more) (sort_attributes ((k, v) ∷ more)) rest
        (sym (length-sort_attributes ((k, v) ∷ more)))
        (HasDistinctNames-sort_attributes ((k, v) ∷ more) d);
}

-- An entry whose mode fits 32 bits is read back as it was written, whatever follows it, but that
-- the attributes come in the order of their names, and an empty map of them as nil.
pub decode_msgpack-encode_msgpack :
    (entry : Entry) (rest : List Value)
    → entry.mode < 2 ^ 32
    → AreDistinct entry.attributes
    → decode_msgpack (encode_msgpack entry ++ rest)
      ≡ some (record entry { attributes = read_back entry.attributes }, rest)
unfolding decode_msgpack encode_msgpack decode_int decode_string
decode_msgpack-encode_msgpack entry rest h d =
    let mode : residue (pos entry.mode) % 2 ^ 32 ≡ entry.mode = unfold residue in omega arith in
    let readable = attributes-AreReadable entry.attributes rest d in
    rw readable.written (
      bind-some (decode_attributes readable.count) _ (readable.pairs ++ rest) readable.read
      ∙ rw mode)
