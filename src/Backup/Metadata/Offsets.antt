-- ===== src/Backup/Metadata/Offsets.antt =====
-- A place that `check` accepts is accepted where the chunks of the file stand in another list.
use duplicacy.Prelude.{
  ℕ, zero, suc, ◌+◌, ◌-◌, ◌≤◌, ◌<◌, length, get_elem?, take, drop, ◌≡◌, refl, sym, ap, ◌∙◌, List,
  [], ◌∷◌, ◌++◌, some, arith, length-drop, in_range-of_get_elem?,
}
use duplicacy.Prelude.Int.{ℤ, pos, pos_part, neg_part, ◌+ℤ◌, eq_of_parts, int_laws}
use duplicacy.Prelude.Int64.{wrap64}
use duplicacy.Entry.{Entry}
use duplicacy.Entry.Check.Place.{offset}
use duplicacy.Entry.Check.Decides.{IsPlaced}
use duplicacy.Backup.Ranges.{get_elem?-drop}
use duplicacy.Backup.Preserve.Copied.{part}

offset-append :
    (base rest : List ℤ) (k : ℕ)
    → offset (base ++ rest) (length base + k) ≡ offset base (length base) +ℤ offset rest k
offset-append [] rest k = let e : 0 + k ≡ k = omega arith in rw e (eq_of_parts _ _ (omega int_laws))
offset-append (l ∷ base) rest k =
    let e : suc (length base) + k ≡ suc (length base + k) = omega arith in
    rw e (ap (λ o. l +ℤ o) (offset-append base rest k) ∙ eq_of_parts _ _ (omega int_laws))

offset-drop :
    (s : ℕ) (xs : List ℤ) (k : ℕ)
    → s ≤ length xs
    → offset xs (s + k) ≡ offset xs s +ℤ offset (drop s xs) k
offset-drop zero xs k h = let e : 0 + k ≡ k = omega arith in rw e (eq_of_parts _ _ (omega int_laws))
offset-drop (suc s) [] k h = absurd (omega arith)
offset-drop (suc s) (l ∷ xs) k h =
    let e : suc s + k ≡ suc (s + k) = omega arith in
    rw e (ap (λ o. l +ℤ o) (offset-drop s xs k (omega arith)) ∙ eq_of_parts _ _ (omega int_laws))

offset-take :
    (n : ℕ) (xs ys : List ℤ) (k : ℕ)
    → k ≤ n
    → k ≤ length xs
    → offset (take n xs ++ ys) k ≡ offset xs k
offset-take zero xs ys zero h b = refl
offset-take zero xs ys (suc k) h b = absurd (omega arith)
offset-take (suc n) xs ys zero h b = refl
offset-take (suc n) [] ys (suc k) h b = absurd (omega arith)
offset-take (suc n) (l ∷ xs) ys (suc k) h b =
    ap (λ o. l +ℤ o) (offset-take n xs ys k (omega arith) (omega arith))

get_elem?-append_length :
    (base rest : List ℤ) (k : ℕ) → get_elem? (base ++ rest) (length base + k) ≡ get_elem? rest k
get_elem?-append_length [] rest k = ap (get_elem? rest) (omega arith)
get_elem?-append_length (l ∷ base) rest k =
    let e : suc (length base) + k ≡ suc (length base + k) = omega arith in
    rw e (get_elem?-append_length base rest k)

get_elem?-take :
    (n : ℕ) (xs ys : List ℤ) (k : ℕ) (l : ℤ)
    → k < n
    → get_elem? xs k ≡ some l
    → get_elem? (take n xs ++ ys) k ≡ some l
get_elem?-take zero xs ys k l h e = absurd (omega arith)
get_elem?-take (suc n) [] ys k l h e = absurd (cc)
get_elem?-take (suc n) (x ∷ xs) ys zero l h e = e
get_elem?-take (suc n) (x ∷ xs) ys (suc k) l h e = get_elem?-take n xs ys k l (omega arith) e

module _ (base xs more : List ℤ) (s t : ℕ) where
  -- The chunks `s` to `t` of `xs`, between other chunks.
  abbrev moved_to : List ℤ
  moved_to = base ++ (part xs s t ++ more)

  offset-moved :
      (k j i : ℕ)
      → j ≡ length base + k
      → i ≡ s + k
      → i ≤ length xs
      → k ≤ t + 1 - s
      → offset moved_to j +ℤ offset xs s ≡ offset base (length base) +ℤ offset xs i
  offset-moved k j i ej ei h b =
      rw
        (
          ej,
          ei,
          offset-append base (part xs s t ++ more) k,
          offset-take (t + 1 - s) (drop s xs) more k b (omega (arith, length-drop s xs)),
          offset-drop s xs k (omega arith),
        )
        (eq_of_parts _ _ (omega int_laws))

  get_elem?-moved :
      (k j i : ℕ) (l : ℤ)
      → j ≡ length base + k
      → i ≡ s + k
      → k < t + 1 - s
      → get_elem? xs i ≡ some l
      → get_elem? moved_to j ≡ some l
  get_elem?-moved k j i l ej ei h e = rw ej (
      get_elem?-append_length base (part xs s t ++ more) k
      ∙ get_elem?-take (t + 1 - s) (drop s xs) more k l h
          (get_elem?-drop s k xs ∙ ap (get_elem? xs) (sym ei) ∙ e))

pub IsPlaced-moved :
    (base xs more : List ℤ) (entry : Entry) (p : IsPlaced xs entry)
    → IsPlaced (base ++ (part xs p.first p.last ++ more)) (record entry {
      start_chunk = pos (length base);
      end_chunk = pos (length base + (p.last - p.first));
    })
IsPlaced-moved base xs more entry p =
    let span : ℕ = p.last - p.first in
    let within : p.last < length xs = in_range-of_get_elem? xs p.last p.last_length p.has_last in
    let back : p.last ≡ p.first + span = omega (arith, p.ordered) in
    let at_start =
      offset-moved base xs more p.first p.last 0 (length base) p.first (omega arith) (omega arith)
        (omega (arith, within, p.ordered)) (omega arith) in
    let at_end =
      offset-moved base xs more p.first p.last span (length base + span) p.last refl back
        (omega (arith, within)) (omega arith) in
    record {
      first = length base;
      last = length base + span;
      first_length = p.first_length;
      last_length = p.last_length;
      starts = refl;
      ends = refl;
      ordered = omega arith;
      has_first =
          get_elem?-moved base xs more p.first p.last 0 (length base) p.first p.first_length
            (omega arith) (omega arith) (omega (arith, p.ordered)) p.has_first;
      has_last =
          get_elem?-moved base xs more p.first p.last span (length base + span) p.last p.last_length
            refl back (omega (arith, p.ordered)) p.has_last;
      starts_inside = p.starts_inside;
      ends_inside = p.ends_inside;
      distance =
          p.distance
          ∙ ap wrap64 (
              eq_of_parts _ _ (
                omega (
                  int_laws,
                  ap pos_part at_start,
                  ap neg_part at_start,
                  ap pos_part at_end,
                  ap neg_part at_end,
                )));
    }
