-- ===== src/Entry/Check/Decides.antt =====
-- What `check` accepts, and that it reads no chunk length out of range.
use duplicacy.Prelude.{
  ℕ, ◌≤◌, ◌<◌, length, get_elem?, ◌≡◌, true, List, some, if◌then◌else◌, arith, ◌≢◌, inl,
  in_range-of_get_elem?, ◌↔◌, ◌⊎◌, inr, get_elem?-in_range, Bool-cases, refl,
}
use duplicacy.Prelude.Int.{ℤ, pos, ltb_ℤ, ◌+ℤ◌, ◌-ℤ◌, ◌≤ℤ◌}
use duplicacy.Prelude.Int64.{◌==ℤ◌, leb_ℤ, wrap64}
use duplicacy.Entry.{Entry, false, negsuc, is_file}
use duplicacy.Entry.Check
use duplicacy.Entry.Check.{
  Verdict, accepted, panicked, rejected, check, check_place, check_with, total_size, CheckError,
  pos_part,
}
use duplicacy.Entry.Check.Place.{offset, total_size_distance}

-- The file lies in existing chunks, starts inside its first chunk, ends inside its last one, and
-- its size is the distance between the two ends.
pub record IsPlaced (lengths : List ℤ) (entry : Entry) : Type 0 where
  pub first : ℕ
  pub last : ℕ
  pub first_length : ℤ
  pub last_length : ℤ
  pub starts : entry.start_chunk ≡ pos first
  pub ends : entry.end_chunk ≡ pos last
  pub ordered : first ≤ last
  pub has_first : get_elem? lengths first ≡ some first_length
  pub has_last : get_elem? lengths last ≡ some last_length
  pub starts_inside : ltb_ℤ entry.start_offset first_length ≡ true
  pub ends_inside : leb_ℤ entry.end_offset last_length ≡ true
  pub distance :
      entry.size
      ≡ wrap64
          (offset lengths last +ℤ entry.end_offset -ℤ (offset lengths first +ℤ entry.start_offset))

-- `check_place` after the first three tests.
check_place_in_range :
    (lengths : List ℤ) (entry : Entry) (s t : ℕ) (l l' : ℤ)
    → entry.start_chunk ≡ pos s
    → entry.end_chunk ≡ pos t
    → s ≤ t
    → t < length lengths
    → get_elem? lengths s ≡ some l
    → get_elem? lengths t ≡ some l'
    → check_place (get_elem? lengths) (length lengths) entry ≡ (
        if leb_ℤ l entry.start_offset
        then rejected Check.start_past_chunk
        else if ltb_ℤ l' entry.end_offset
        then rejected Check.end_past_chunk
        else if entry.size
            ==ℤ wrap64
                (offset lengths t +ℤ entry.end_offset -ℤ (offset lengths s +ℤ entry.start_offset))
        then accepted
        else rejected Check.wrong_total)
unfolding check_place
check_place_in_range lengths entry s t l l' hs ht h lt el el' =
    ground (arith, total_size_distance lengths entry s t hs ht h lt)

record HasChunks (lengths : List ℤ) (entry : Entry) : Type 0 where
  first : ℕ
  last : ℕ
  first_length : ℤ
  last_length : ℤ
  starts : entry.start_chunk ≡ pos first
  ends : entry.end_chunk ≡ pos last
  ordered : first ≤ last
  in_range : last < length lengths
  has_first : get_elem? lengths first ≡ some first_length
  has_last : get_elem? lengths last ≡ some last_length

pos_of_nonneg : (a : ℤ) → ltb_ℤ a (pos 0) ≡ false → a ≡ pos (pos_part a)
pos_of_nonneg (pos n) h = refl
pos_of_nonneg (negsuc n) h = ground arith

HasChunks-of_tests :
    (lengths : List ℤ) (entry : Entry)
    → ltb_ℤ entry.start_chunk (pos 0) ≡ false
    → leb_ℤ (pos (length lengths)) entry.end_chunk ≡ false
    → ltb_ℤ entry.end_chunk entry.start_chunk ≡ false
    → HasChunks lengths entry
HasChunks-of_tests lengths entry e f g =
    let starts = pos_of_nonneg entry.start_chunk e in
    let ends : entry.end_chunk ≡ pos (pos_part entry.end_chunk) =
      pos_of_nonneg entry.end_chunk (ground arith) in
    let in_range : pos_part entry.end_chunk < length lengths = ground arith in
    let (l, hl) = get_elem?-in_range lengths (pos_part entry.start_chunk) (ground arith) in
    let (l', hl') = get_elem?-in_range lengths (pos_part entry.end_chunk) in_range in
    record {
      first = pos_part entry.start_chunk;
      last = pos_part entry.end_chunk;
      first_length = l;
      last_length = l';
      starts = starts;
      ends = ends;
      ordered = ground arith;
      in_range = in_range;
      has_first = hl;
      has_last = hl';
    }

-- The first three tests end in an error, or leave chunks that exist.
check_place_cases :
    (lengths : List ℤ) (entry : Entry)
    → ((e : CheckError) × (check_place (get_elem? lengths) (length lengths) entry ≡ rejected e))
      ⊎ HasChunks lengths entry
unfolding check_place
check_place_cases lengths entry = elim (Bool-cases (ltb_ℤ entry.start_chunk (pos 0))) [
  | inl e ↦ inl (Check.start_below_zero, rw e)
  | inr e ↦ elim (Bool-cases (leb_ℤ (pos (length lengths)) entry.end_chunk)) [
    | inl f ↦ inl (Check.end_past_chunks, rw (e, f))
    | inr f ↦ elim (Bool-cases (ltb_ℤ entry.end_chunk entry.start_chunk)) [
      | inl g ↦ inl (Check.end_before_start, rw (e, f, g))
      | inr g ↦ inr (HasChunks-of_tests lengths entry e f g)
    ]
  ]
]

check_place_never_panics :
    (lengths : List ℤ) (entry : Entry)
    → check_place (get_elem? lengths) (length lengths) entry ≢ panicked
check_place_never_panics lengths entry h = elim (check_place_cases lengths entry) [
  | inl (e, r) ↦ cc
  | inr c ↦ ground (
    arith,
    check_place_in_range lengths entry c.first c.last c.first_length c.last_length c.starts c.ends
        c.ordered c.in_range c.has_first c.has_last,
  )
]

IsPlaced-of_accepted :
    (lengths : List ℤ) (entry : Entry)
    → check_place (get_elem? lengths) (length lengths) entry ≡ accepted
    → IsPlaced lengths entry
IsPlaced-of_accepted lengths entry h = elim (check_place_cases lengths entry) [
  | inl (e, r) ↦ absurd (cc)
  | inr c ↦
      let run =
        check_place_in_range lengths entry c.first c.last c.first_length c.last_length c.starts
          c.ends c.ordered c.in_range c.has_first c.has_last in
      record {
        first = c.first;
        last = c.last;
        first_length = c.first_length;
        last_length = c.last_length;
        starts = c.starts;
        ends = c.ends;
        ordered = c.ordered;
        has_first = c.has_first;
        has_last = c.has_last;
        starts_inside = ground (arith, run);
        ends_inside = ground (arith, run);
        distance = ground (arith, run);
      }
]

accepted-of_IsPlaced :
    (lengths : List ℤ) (entry : Entry)
    → IsPlaced lengths entry
    → check_place (get_elem? lengths) (length lengths) entry ≡ accepted
accepted-of_IsPlaced lengths entry p =
    let in_range = in_range-of_get_elem? lengths p.last p.last_length p.has_last in
    ground (
      arith,
      check_place_in_range lengths entry p.first p.last p.first_length p.last_length p.starts p.ends
          p.ordered in_range p.has_first p.has_last,
    )

-- `check` reads no chunk length out of range, whatever the entry and the lengths.
pub check_never_panics : (lengths : List ℤ) (entry : Entry) → check lengths entry ≢ panicked
unfolding check check_with
check_never_panics lengths entry = ground (arith, check_place_never_panics lengths entry)

check_cases :
    (lengths : List ℤ) (entry : Entry)
    → check lengths entry ≡ accepted
    → (is_file entry ≡ false) ⊎ (entry.size ≡ pos 0) ⊎ IsPlaced lengths entry
unfolding check check_with
check_cases lengths entry h = elim (Bool-cases (is_file entry)) [
  | inr e ↦ inl e
  | inl e ↦ elim (Bool-cases (entry.size ==ℤ pos 0)) [
    | inl f ↦ inr (inl (ground arith))
    | inr f ↦ inr (inr (IsPlaced-of_accepted lengths entry (ground arith)))
  ]
]

-- `check` accepts an entry exactly when its size is not negative and it is not a file, or is an
-- empty one, or lies in existing chunks between two ends whose distance is its size.
pub check_iff :
    (lengths : List ℤ) (entry : Entry)
    → (check lengths entry ≡ accepted) ↔ (
        (pos 0 ≤ℤ entry.size)
        × ((is_file entry ≡ false) ⊎ (entry.size ≡ pos 0) ⊎ IsPlaced lengths entry))
unfolding check check_with
check_iff lengths entry = (
  λ h. (ground arith, check_cases lengths entry h),
  λ (nonneg, cases). elim cases [
    | inl e ↦ ground arith
    | inr (inl e) ↦ ground arith
    | inr (inr p) ↦ ground (arith, accepted-of_IsPlaced lengths entry p)
  ],
)
