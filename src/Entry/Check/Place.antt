-- ===== src/Entry/Check/Place.antt =====
-- The total that `check` compares with the size of a file is the distance between the file's two
-- ends in the stream of all chunks.
use duplicacy.Prelude.{
  ℕ, zero, suc, ◌+◌, ◌-◌, dec_lt, get_elem?-in_range, ◌≤◌, ◌<◌, length, get_elem?, ◌≡◌, ap, ◌∙◌,
  List, [], ◌∷◌, some, if◌then◌else◌, arith,
}
use native.Mathlib.Numerals.{add-one}
use duplicacy.Prelude.Int.{ℤ, pos, ◌+ℤ◌, ◌-ℤ◌, int_laws, eq_of_parts}
use duplicacy.Prelude.Int64.{◌==ℤ◌, add64, sub64, wrap64, wrap64_left, add64-sub64}
use duplicacy.Entry.{Entry}
use duplicacy.Entry.Check.{total_size}

-- Where a chunk starts in the concatenation of all chunks.
abbrev pub offset : List ℤ → ℕ → ℤ
offset lengths zero = pos 0
offset [] (suc k) = pos 0
offset (l ∷ lengths) (suc k) = l +ℤ offset lengths k

pub offset-suc :
    (lengths : List ℤ) (k : ℕ) (l : ℤ)
    → get_elem? lengths k ≡ some l
    → offset lengths (suc k) ≡ offset lengths k +ℤ l
offset-suc [] k l h = cc
offset-suc (x ∷ lengths) zero l h = let e : x ≡ l = cc in rw e (eq_of_parts _ _ (omega int_laws))
offset-suc (x ∷ lengths) (suc k) l h =
    ap (λ o. x +ℤ o) (offset-suc lengths k l h) ∙ eq_of_parts _ _ (omega int_laws)

module _ (lengths : List ℤ) (entry : Entry) where
  abbrev part_of : ℕ → ℤ → ℤ
  part_of i l =
      sub64 (if pos i ==ℤ entry.end_chunk then entry.end_offset else l)
        (if pos i ==ℤ entry.start_chunk then entry.start_offset else pos 0)

  total_size_step :
      (r i : ℕ) (total l : ℤ)
      → get_elem? lengths i ≡ some l
      → total_size (get_elem? lengths) entry (suc r) i total
        ≡ total_size (get_elem? lengths) entry r (suc i) (add64 total (part_of i l))
  unfolding total_size
  total_size_step r i total l h = rw (h, total_size) (rw add-one)

  module _ (s t : ℕ) (starts : entry.start_chunk ≡ pos s) (ends : entry.end_chunk ≡ pos t) where
    part_of_middle : (i : ℕ) (l : ℤ) → s < i → i < t → part_of i l ≡ sub64 l (pos 0)
    part_of_middle i l p q = rw (starts, ends) (ground arith)

    part_of_last : (l : ℤ) → s < t → part_of t l ≡ sub64 entry.end_offset (pos 0)
    part_of_last l p = rw (starts, ends) (ground arith)

    part_of_first : (l : ℤ) → s < t → part_of s l ≡ sub64 l entry.start_offset
    part_of_first l p = rw (starts, ends) (ground arith)

    part_of_only : (l : ℤ) → s ≡ t → part_of s l ≡ sub64 entry.end_offset entry.start_offset
    part_of_only l p = rw (starts, ends) (ground arith)

    -- The rounds after the first chunk.
    total_size_after :
        (r i : ℕ) (total : ℤ)
        → i + r ≡ t
        → s < i
        → t < length lengths
        → total_size (get_elem? lengths) entry (suc r) i total
          ≡ some (wrap64 (total +ℤ (offset lengths t -ℤ offset lengths i +ℤ entry.end_offset)))
    total_size_after zero i total e h lt =
        let (l, hl) = get_elem?-in_range lengths i (omega arith) in
        let same : i ≡ t = omega arith in
        total_size_step zero i total l hl
        ∙ unfold total_size in
          rw same (
            rw (part_of_last l (omega arith), add64-sub64)
              (ap (λ x. some (wrap64 x)) (eq_of_parts _ _ (omega int_laws))))
    total_size_after (suc r) i total e h lt =
        let (l, hl) = get_elem?-in_range lengths i (omega arith) in
        total_size_step (suc r) i total l hl
        ∙ rw (part_of_middle i l h (omega arith), add64-sub64)
            (total_size_after r (suc i) _ (omega arith) (omega arith) lt
              ∙ rw (wrap64_left, offset-suc lengths i l hl)
                  (ap (λ x. some (wrap64 x)) (eq_of_parts _ _ (omega int_laws))))

    -- The whole loop.
    pub total_size_distance :
        s ≤ t
        → t < length lengths
        → total_size (get_elem? lengths) entry (t + 1 - s) s (pos 0)
          ≡ some (
              wrap64
                (offset lengths t +ℤ entry.end_offset -ℤ (offset lengths s +ℤ entry.start_offset)))
    total_size_distance h lt = elim (dec_lt s t) [
      | yes p ↦
          let (l, hl) = get_elem?-in_range lengths s (omega arith) in
          let rounds : t + 1 - s ≡ suc (suc (t - s - 1)) = omega arith in
          rw rounds (
            total_size_step _ s (pos 0) l hl
            ∙ rw (part_of_first l p, add64-sub64)
                (total_size_after (t - s - 1) (suc s) _ (omega arith) (omega arith) lt
                  ∙ rw (wrap64_left, offset-suc lengths s l hl)
                      (ap (λ x. some (wrap64 x)) (eq_of_parts _ _ (omega int_laws)))))
      | no p ↦
          let (l, hl) = get_elem?-in_range lengths s (omega arith) in
          let same : s ≡ t = omega arith in
          let rounds : t + 1 - s ≡ 1 = omega arith in
          rw rounds (
            total_size_step zero s (pos 0) l hl
            ∙ unfold total_size in
              rw (part_of_only l same, add64-sub64)
                (ap (λ x. some (wrap64 x)) (rw same (eq_of_parts _ _ (omega int_laws)))))
    ]
