-- ===== src/EntryList/Fill/Tiling.antt =====
-- The files that fillAndSendEntry places follow one another in the uploaded chunks without gaps.
use duplicacy.Prelude.{
  ℕ, ◌+◌, ◌^◌, ◌<◌, length, get_elem?, drop, drop-eq-cons, drop-eq-nil, in_range-of_get_elem?, ◌≡◌,
  refl, ap, ◌∙◌, inl, inr, true, Bool-cases, List, [], ◌∷◌, some, arith,
}
use duplicacy.Prelude.Int.{
  ℤ, pos, pos_part, neg_part, ltb_ℤ, ◌+ℤ◌, ◌-ℤ◌, ◌≤ℤ◌, int_laws, eq_of_parts,
}
use native.Mathlib.Nat.{add_assoc}
use native.Mathlib.Numerals.{add-one}
use duplicacy.Prelude.Int64.{add64_one, sub64_exact}
use duplicacy.Prelude.Int64.{InRange64, add64, sub64}
use duplicacy.Entry.Check.Place.{offset, offset-suc}
use duplicacy.EntryList.Fill.{Cursor, consume, next_chunk}

module _ (lengths : List ℤ) (p : ℕ) (room : p + length lengths < 2 ^ 63)
    (nonneg : (i : ℕ) (l : ℤ) → get_elem? lengths i ≡ some l → pos 0 ≤ℤ l) where
  -- A cursor of the loop: `p` chunks stand before the uploaded ones.
  pub record IsCursor (c : Cursor) : Type 0 where
    pub chunk : c.end_chunk ≡ pos (p + c.chunk_index)
    pub bounded : InRange64 c.end_offset
    pub positive : pos 0 ≤ℤ c.end_offset

  abbrev pub reach : Cursor → ℤ
  reach c = offset lengths c.chunk_index +ℤ c.end_offset

  -- The cursor moved on, reaches as far as before, and ends within its chunk, if there is one.
  pub record IsConsumed (before after : Cursor) : Type 0 where
    pub is_cursor : IsCursor after
    pub same_reach : reach after ≡ reach before
    pub within : (l : ℤ) → get_elem? lengths after.chunk_index ≡ some l → after.end_offset ≤ℤ l

  exact_end :
      (c : Cursor) (l : ℤ)
      → get_elem? lengths c.chunk_index ≡ some l
      → ltb_ℤ l c.end_offset ≡ true
      → IsCursor c
      → InRange64 (c.end_offset -ℤ l)
        × (sub64 c.end_offset l ≡ c.end_offset -ℤ l)
        × (pos 0 ≤ℤ (c.end_offset -ℤ l))
  exact_end c l e more i =
      let least = nonneg c.chunk_index l e in
      let over : (pos_part l + neg_part c.end_offset < pos_part c.end_offset + neg_part l) =
        ground arith in
      let fits : InRange64 (c.end_offset -ℤ l) = unfold ◌-ℤ◌ in ground arith in
      (fits, sub64_exact c.end_offset l fits, omega int_laws)

  exact_chunk :
      (c : Cursor) (l : ℤ)
      → get_elem? lengths c.chunk_index ≡ some l
      → IsCursor c
      → add64 c.end_chunk (pos 1) ≡ pos (p + (c.chunk_index + 1))
  exact_chunk c l e i =
      let below = in_range-of_get_elem? lengths c.chunk_index l e in
      rw i.chunk
        (add64_one (p + c.chunk_index) (omega arith) ∙ ap pos (add_assoc p c.chunk_index 1))

  IsCursor-next :
      (c : Cursor) (l : ℤ)
      → get_elem? lengths c.chunk_index ≡ some l
      → ltb_ℤ l c.end_offset ≡ true
      → IsCursor c
      → IsCursor (next_chunk l c)
  IsCursor-next c l e more i =
      let (fits, exact, positive) = exact_end c l e more i in
      record { chunk = exact_chunk c l e i; bounded = rw exact fits; positive = rw exact positive }

  reach-next :
      (c : Cursor) (l : ℤ)
      → get_elem? lengths c.chunk_index ≡ some l
      → ltb_ℤ l c.end_offset ≡ true
      → IsCursor c
      → reach (next_chunk l c) ≡ reach c
  reach-next c l e more i =
      let (fits, exact, positive) = exact_end c l e more i in
      rw (exact, add-one, offset-suc lengths c.chunk_index l e) (eq_of_parts _ _ (omega int_laws))

  pub consume-IsConsumed :
      (rest : List ℤ) (c : Cursor)
      → drop c.chunk_index lengths ≡ rest
      → IsCursor c
      → IsConsumed c (consume rest c)
  unfolding consume
  consume-IsConsumed [] c e i = record {
    is_cursor = i;
    same_reach = refl;
    within = λ l h. absurd (
        omega (
          arith,
          drop-eq-nil c.chunk_index lengths e,
          in_range-of_get_elem? lengths c.chunk_index l h,
        ));
  }
  consume-IsConsumed (l ∷ rest) c e i =
      let (here, there) = drop-eq-cons c.chunk_index lengths l rest e in
      elim (Bool-cases (ltb_ℤ l c.end_offset)) [
        | inl more ↦
            let next =
              consume-IsConsumed rest (next_chunk l c) (rw add-one there)
                (IsCursor-next c l here more i) in
            rw more (record {
              is_cursor = next.is_cursor;
              same_reach = next.same_reach ∙ reach-next c l here more i;
              within = next.within;
            })
        | inr done ↦ rw done (record {
          is_cursor = i;
          same_reach = refl;
          within = λ l' h. let same : l ≡ l' = cc in rw (← same) (ground arith);
        })
      ]
