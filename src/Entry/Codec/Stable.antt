-- ===== src/Entry/Codec/Stable.antt =====
-- EncodeMsgpack sorts the attributes by name, so what it writes, and with it the hash that
-- EncodeWithHash takes, does not depend on the order in which the map is walked.
use duplicacy.Prelude.{◌≡◌, ◌≢◌, refl, sym, ap, ◌∙◌, [], ◌∷◌, some, length, arith}
use mathlib.Core.List.{Perm, Permᴰ, Pairwise, Pairwise-cons, mem-cons_self, rel_of_Pairwise-cons}
use mathlib.Core.List.Permᴰ
use mathlib.Core.Logic.{∥∥₁_elim}
use duplicacy.Prelude.Bytes.{lt_text_trans, lt_text_total}
use duplicacy.Entry.{Text, Attributes, Entry}
use duplicacy.Entry.Codec.RoundTrip.{length-sort_attributes}
use duplicacy.Entry.Codec.{encode_msgpack, encode_attributes, sort_attributes, insert_sorted}

insert_sorted_comm :
    (j k v w : Text) (attributes : Attributes)
    → j ≢ k
    → insert_sorted j v (insert_sorted k w attributes)
      ≡ insert_sorted k w (insert_sorted j v attributes)
unfolding insert_sorted
insert_sorted_comm j k v w [] h = ground (arith, lt_text_total j k h)
insert_sorted_comm j k v w ((i, x) ∷ rest) h = ground (
  arith,
  lt_text_total j k h,
  lt_text_trans j k i,
  lt_text_trans k j i,
  insert_sorted_comm j k v w rest h,
)

abbrev pub Pair : Type 0
Pair = Text × Text

abbrev pub Differ : Pair → Pair → Type 0
Differ p q = p.0 ≢ q.0

sort_of_permᴰ :
    (a b : Attributes) → Permᴰ a b → Pairwise Differ a → sort_attributes a ≡ sort_attributes b
unfolding sort_attributes
sort_of_permᴰ a b Permᴰ.nil h = refl
sort_of_permᴰ a b (Permᴰ.cons {a = p} {b = q} {l₁ = a'} {l₂ = b'} e d) h =
    rw (sort_of_permᴰ a' b' d (Pairwise-cons.0 h).1) (rw e)
sort_of_permᴰ a b (Permᴰ.swap {a = p} {b = q} {l = rest} e f) h =
    rw (← e, ← f)
      (insert_sorted_comm p.0 q.0 p.1 q.1 (sort_attributes rest)
        (rel_of_Pairwise-cons h mem-cons_self))
sort_of_permᴰ a b (Permᴰ.trans {l₁ = a'} {l₂ = c} {l₃ = b'} d d') h =
    sort_of_permᴰ a' c d h
    ∙ sort_of_permᴰ c b' d' (Permᴰ.pairwise (λ p q. hlevel) (λ x y n e. n (sym e)) d h)

Attributes-set : IsSet Attributes
Attributes-set = hlevel

sort_attributes_perm :
    (a b : Attributes) → Perm a b → Pairwise Differ a → sort_attributes a ≡ sort_attributes b
sort_attributes_perm a b p h = ∥∥₁_elim p (Attributes-set _ _) (λ d. sort_of_permᴰ a b d h)

encode_attributes_perm :
    (a b : Attributes)
    → Perm a b
    → Pairwise Differ a
    → encode_attributes (some a) ≡ encode_attributes (some b)
unfolding encode_attributes
encode_attributes_perm a b p h =
    let sorted = sort_attributes_perm a b p h in
    let count : length a ≡ length b =
      sym (length-sort_attributes a) ∙ ap length sorted ∙ length-sort_attributes b in
    rw (count, sorted)

-- Two walks of one map, in whatever orders, write the same values; the names of a map are distinct.
pub encode_msgpack_perm :
    (entry : Entry) (a b : Attributes)
    → Perm a b
    → Pairwise Differ a
    → encode_msgpack (record entry { attributes = some a })
      ≡ encode_msgpack (record entry { attributes = some b })
unfolding encode_msgpack
encode_msgpack_perm entry a b p h = rw (encode_attributes_perm a b p h)
