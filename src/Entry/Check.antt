-- ===== src/Entry/Check.antt =====
-- `check` of src/duplicacy_entry.go, the sanity checks on a file's place in the chunks, in a form
-- that checkEntry of src/duplicacy_entrylist.go shares.
pub mod Place
pub mod Decides
use duplicacy.Prelude.{
  ℕ, zero, suc, ◌+◌, ◌-◌, ◌==◌, length, get_elem?, Bool, not, ◌||◌, List, Option, none, some,
  if◌then◌else◌,
}
use duplicacy.Prelude.Int.{ℤ, pos, ltb_ℤ, pos_part}
use duplicacy.Prelude.Int64.{◌==ℤ◌, leb_ℤ, add64, sub64}
use duplicacy.Entry.{Entry, is_file}

-- One error for each message.
pub data CheckError : Type 0 where
  invalid_size start_below_zero end_past_chunks end_before_start : CheckError
  start_past_chunk end_past_chunk wrong_total : CheckError

-- `panicked` is an index out of range.
pub data Verdict : Type 0 where
  accepted panicked : Verdict
  rejected : CheckError → Verdict

-- A read that panics if the index is out of range.
abbrev with_length : Option ℤ → (ℤ → Verdict) → Verdict
with_length none rest = panicked
with_length (some l) rest = rest l

module _ (at : ℕ → Option ℤ) where
  -- The loop over the chunks: `rounds` are left, `i` is the next index.
  unfoldable pub total_size : Entry → ℕ → ℕ → ℤ → Option ℤ
  total_size entry zero i total = some total
  total_size entry (suc rounds) i total = elim (at i) [
    | none ↦ none
    | some l ↦ total_size entry rounds (i + 1) (
        add64 total (
          sub64 (if pos i ==ℤ entry.end_chunk then entry.end_offset else l)
            (if pos i ==ℤ entry.start_chunk then entry.start_offset else pos 0)))
  ]

  -- The tests that follow the one for an empty file, for `n` chunks of the lengths `at`.
  unfoldable pub check_place : ℕ → Entry → Verdict
  unfolding total_size
  check_place n entry =
      let first = pos_part entry.start_chunk in
      let rounds = pos_part entry.end_chunk + 1 - first in
      let sizes =
        with_length (total_size entry rounds first (pos 0))
          (λ total. if entry.size ==ℤ total then accepted else rejected wrong_total) in
      let ends =
        with_length (at (pos_part entry.end_chunk))
          (λ l. if ltb_ℤ l entry.end_offset then rejected end_past_chunk else sizes) in
      let starts =
        with_length (at first)
          (λ l. if leb_ℤ l entry.start_offset then rejected start_past_chunk else ends) in
      if ltb_ℤ entry.start_chunk (pos 0)
      then rejected start_below_zero
      else if leb_ℤ (pos n) entry.end_chunk
      then rejected end_past_chunks
      else if ltb_ℤ entry.end_chunk entry.start_chunk
      then rejected end_before_start
      else starts

  unfoldable pub check_with : ℕ → Entry → Verdict
  check_with n entry =
      if ltb_ℤ entry.size (pos 0)
      then rejected invalid_size
      else if not (is_file entry) || entry.size ==ℤ pos 0
      then accepted
      else check_place n entry

unfoldable pub check : List ℤ → Entry → Verdict
unfolding check_with
check lengths entry = check_with (get_elem? lengths) (length lengths) entry
