-- ===== src/Entry/Codec.antt =====
-- EncodeMsgpack and DecodeMsgpack of src/duplicacy_entry.go, on the values that the msgpack encoder
-- and decoder handle one by one.
pub mod RoundTrip
pub mod Stable
use duplicacy.Prelude.{
  ℕ, zero, suc, ◌+◌, ◌-◌, ◌%◌, ◌^◌, ◌==◌, length, Bool, List, [], ◌∷◌, ◌++◌, Option, none, some,
  if◌then◌else◌,
}
use duplicacy.Prelude.Bytes.{eq_text, lt_text}
use duplicacy.Prelude.Int.{ℤ, pos, negsuc, pos_part}
use duplicacy.Prelude.Int64.{residue}
use duplicacy.Entry.{Text, Attributes, Entry}

pub data Value : Type 0 where
  int : ℤ → Value
  str : Text → Value

-- `sort.Strings` on the attribute names, each with its value.
unfoldable pub insert_sorted : Text → Text → Attributes → Attributes
insert_sorted k v [] = (k, v) ∷ []
insert_sorted k v ((j, w) ∷ rest) =
    if lt_text k j then (k, v) ∷ (j, w) ∷ rest else (j, w) ∷ insert_sorted k v rest

unfoldable pub sort_attributes : Attributes → Attributes
unfolding insert_sorted
sort_attributes [] = []
sort_attributes ((k, v) ∷ rest) = insert_sorted k v (sort_attributes rest)

unfoldable pub encode_pairs : Attributes → List Value
encode_pairs [] = []
encode_pairs ((k, v) ∷ rest) = str k ∷ str v ∷ encode_pairs rest

unfoldable pub encode_attributes : Option Attributes → List Value
unfolding encode_pairs sort_attributes
encode_attributes none = int (pos 0) ∷ []
encode_attributes (some attributes) =
    int (pos (length attributes)) ∷ encode_pairs (sort_attributes attributes)

unfoldable pub encode_msgpack : Entry → List Value
unfolding encode_attributes
encode_msgpack entry =
    str entry.path
    ∷ int entry.size
    ∷ int entry.time
    ∷ int (pos entry.mode)
    ∷ str entry.link
    ∷ str entry.hash
    ∷ int entry.start_chunk
    ∷ int entry.start_offset
    ∷ int entry.end_chunk
    ∷ int entry.end_offset
    ∷ int entry.uid
    ∷ int entry.gid
    ∷ encode_attributes entry.attributes

-- A decoder takes values from the front; `none` is an error of the decoder.
abbrev pub Decoder : Type 0 → Type 0
Decoder A = List Value → Option (A × List Value)

infixl 5 ◌>>=◌
abbrev pub ◌>>=◌ : {A B : Type 0} → Decoder A → (A → Decoder B) → Decoder B
◌>>=◌ m f values = elim (m values) [ none ↦ none | some (a, rest) ↦ f a rest ]

abbrev pub pure : {A : Type 0} → A → Decoder A
pure a values = some (a, values)

unfoldable pub decode_int : Decoder ℤ
decode_int [] = none
decode_int (int n ∷ rest) = some (n, rest)
decode_int (str s ∷ rest) = none

unfoldable pub decode_string : Decoder Text
decode_string [] = none
decode_string (int n ∷ rest) = none
decode_string (str s ∷ rest) = some (s, rest)

-- The write to a map.
unfoldable pub put_attribute : Text → Text → Attributes → Attributes
unfolding eq_text
put_attribute k v [] = (k, v) ∷ []
put_attribute k v ((j, w) ∷ rest) =
    if eq_text j k then (k, v) ∷ rest else (j, w) ∷ put_attribute k v rest

unfoldable pub decode_pairs : ℕ → Attributes → Decoder Attributes
unfolding put_attribute decode_string
decode_pairs zero attributes = pure attributes
decode_pairs (suc n) attributes = do
  attribute ← decode_string
  value ← decode_string
  decode_pairs n (put_attribute attribute value attributes)

-- A count that is not positive leaves the attributes nil.
unfoldable pub decode_attributes : ℤ → Decoder (Option Attributes)
decode_attributes (pos zero) = pure none
decode_attributes (pos (suc n)) = do attributes ← decode_pairs (suc n) []; pure (some attributes)
decode_attributes (negsuc n) = pure none

unfoldable pub decode_msgpack : Decoder Entry
unfolding decode_int decode_string decode_attributes residue
decode_msgpack = do
  path ← decode_string
  size ← decode_int
  time ← decode_int
  mode ← decode_int
  link ← decode_string
  hash ← decode_string
  start_chunk ← decode_int
  start_offset ← decode_int
  end_chunk ← decode_int
  end_offset ← decode_int
  uid ← decode_int
  gid ← decode_int
  number_of_attributes ← decode_int
  attributes ← decode_attributes number_of_attributes
  pure (record {
    path = path;
    size = size;
    time = time;
    mode = residue mode % 2 ^ 32;
    link = link;
    hash = hash;
    uid = uid;
    gid = gid;
    start_chunk = start_chunk;
    start_offset = start_offset;
    end_chunk = end_chunk;
    end_offset = end_offset;
    attributes = attributes;
  })
