-- ===== src/EntryList/Fill/Contiguous.antt =====
-- One call of fillAndSendEntry on a modified file: where the file lies, and where the next one begins.
use duplicacy.Prelude.{
  ℕ, ◌+◌, ◌^◌, ◌<◌, length, get_elem?, drop, Bool, false, Bool-cases, inl, inr, ◌≡◌, refl, ap, ◌∙◌,
  some, arith,
}
use native.Mathlib.Nat.{add_comm}
use native.Mathlib.Numerals.{add-one}
use duplicacy.Prelude.{Option-cases}
use duplicacy.Prelude.Bytes.{eq_text}
use duplicacy.Prelude.Int.{ℤ, pos, ◌+ℤ◌, ◌≤ℤ◌, int_laws, eq_of_parts}
use duplicacy.Prelude.Int64.{InRange64, add64_exact, add64, ◌==ℤ◌, leb_ℤ}
use duplicacy.Entry.{Entry, is_complete}
use duplicacy.Entry.Check.{Verdict}
use duplicacy.Entry.Check.Place.{offset, offset-suc}
use duplicacy.EntryList.{EntryList, ModifiedEntry}
use duplicacy.EntryList.Fill.{
  sent, Cursor, consume, moved, out, place, fill_modified, fill_and_send,
}
use duplicacy.EntryList.Fill.Tiling.{IsConsumed, consume-IsConsumed}

-- How far the uploaded chunks have been handed out.
abbrev pub position : EntryList → ℤ
position list =
    offset list.uploaded_chunk_lengths list.uploaded_chunk_index +ℤ list.uploaded_chunk_offset

pub record IsReady (list : EntryList) : Type 0 where
  pub room : length list.preserved_chunk_hashes + length list.uploaded_chunk_lengths < 2 ^ 63
  pub nonneg : (i : ℕ) (l : ℤ) → get_elem? list.uploaded_chunk_lengths i ≡ some l → pos 0 ≤ℤ l
  pub offset_nonneg : pos 0 ≤ℤ list.uploaded_chunk_offset

-- `entry` begins at the position of `before`, ends `entry.size` bytes later, and that is the
-- position of `after`.
pub record FollowsOn (before after : EntryList) (entry : Entry) : Type 0 where
  pub start_chunk :
      entry.start_chunk ≡ pos (before.uploaded_chunk_index + length before.preserved_chunk_hashes)
  pub start_offset : entry.start_offset ≡ before.uploaded_chunk_offset
  pub last : ℕ
  pub end_chunk : entry.end_chunk ≡ pos (length before.preserved_chunk_hashes + last)
  pub ends_at :
      offset before.uploaded_chunk_lengths last +ℤ entry.end_offset ≡ position before +ℤ entry.size
  pub next : position after ≡ position before +ℤ entry.size
  pub index : after.modified_entry_index ≡ before.modified_entry_index

position-moved :
    (c : Cursor) (l : ℤ) (list : EntryList)
    → get_elem? list.uploaded_chunk_lengths c.chunk_index ≡ some l
    → position (moved c l list) ≡ offset list.uploaded_chunk_lengths c.chunk_index +ℤ c.end_offset
position-moved c l list e = elim (Bool-cases (c.end_offset ==ℤ l)) [
  | inl at ↦
      let same : c.end_offset ≡ l = eq_of_parts _ _ (ground arith) in
      rw at (
        rw (add-one, offset-suc list.uploaded_chunk_lengths c.chunk_index l e, same)
          (eq_of_parts _ _ (omega int_laws)))
  | inr before ↦ rw before
]

module _ (entry_out : Entry → Bool) where
  start_of : EntryList → Entry → Cursor
  start_of list entry = record {
    chunk_index = list.uploaded_chunk_index;
    end_chunk = pos (list.uploaded_chunk_index + length list.preserved_chunk_hashes);
    end_offset = add64 list.uploaded_chunk_offset entry.size;
  }

  end_of : EntryList → Entry → Cursor
  end_of list entry =
      consume (drop list.uploaded_chunk_index list.uploaded_chunk_lengths) (start_of list entry)

  placed_in : EntryList → Entry → Entry
  placed_in list entry = record entry {
    start_chunk = pos (list.uploaded_chunk_index + length list.preserved_chunk_hashes);
    start_offset = list.uploaded_chunk_offset;
    end_chunk = (end_of list entry).end_chunk;
    end_offset = (end_of list entry).end_offset;
  }

  out-sent : (v : Verdict) (e p : Entry) → out entry_out v e ≡ sent p → e ≡ p
  out-sent Verdict.accepted e p h = ground arith
  out-sent Verdict.panicked e p h = absurd (cc)
  out-sent (Verdict.rejected x) e p h = absurd (cc)

  -- Only an entry that ends in an uploaded chunk is sent.
  place-sent :
      (list after : EntryList) (entry placed : Entry)
      → place entry_out list entry ≡ (after, sent placed)
      → (l : ℤ) × (get_elem? list.uploaded_chunk_lengths (end_of list entry).chunk_index ≡ some l)
        × (moved (end_of list entry) l list ≡ after)
        × (placed_in list entry ≡ placed)
  unfolding place start_of end_of placed_in
  place-sent list after entry placed h =
      elim (Option-cases (get_elem? list.uploaded_chunk_lengths (end_of list entry).chunk_index)) [
        | inl e ↦ absurd (ground arith)
        | inr (l, e) ↦
            let run = rw (e, place) at h in
            (l, e, ap (λ r. r.0) run, out-sent _ _ _ (ap (λ r. r.1) run))
      ]

  end_of-IsConsumed :
      (list : EntryList) (entry : Entry)
      → (ready : IsReady list) → pos 0 ≤ℤ entry.size
      → InRange64 (list.uploaded_chunk_offset +ℤ entry.size)
      → IsConsumed list.uploaded_chunk_lengths
          (length list.preserved_chunk_hashes)
          ready.room
          ready.nonneg
          (start_of list entry)
          (end_of list entry)
  unfolding end_of
  end_of-IsConsumed list entry ready size_nonneg fits =
      let from = ready.offset_nonneg in
      let exact = add64_exact list.uploaded_chunk_offset entry.size fits in
      consume-IsConsumed list.uploaded_chunk_lengths (length list.preserved_chunk_hashes) ready.room
        ready.nonneg _ (start_of list entry) (unfold start_of in refl)
        (unfold start_of in
          record {
            chunk =
                ap pos (add_comm list.uploaded_chunk_index (length list.preserved_chunk_hashes));
            bounded = rw exact fits;
            positive = rw exact (omega int_laws);
          })

  placed_in-FollowsOn :
      (list : EntryList) (entry : Entry) (l : ℤ)
      → IsReady list
      → pos 0 ≤ℤ entry.size
      → InRange64 (list.uploaded_chunk_offset +ℤ entry.size)
      → get_elem? list.uploaded_chunk_lengths (end_of list entry).chunk_index ≡ some l
      → FollowsOn list (moved (end_of list entry) l list) (placed_in list entry)
  unfolding placed_in
  placed_in-FollowsOn list entry l ready size_nonneg fits e =
      let consumed = end_of-IsConsumed list entry ready size_nonneg fits in
      let exact = add64_exact list.uploaded_chunk_offset entry.size fits in
      let ends : offset list.uploaded_chunk_lengths (end_of list entry).chunk_index
            +ℤ (end_of list entry).end_offset
          ≡ position list +ℤ entry.size =
        consumed.same_reach ∙ (unfold start_of in rw exact (eq_of_parts _ _ (omega int_laws))) in
      record {
        start_chunk = refl;
        start_offset = refl;
        last = (end_of list entry).chunk_index;
        end_chunk = consumed.is_cursor.chunk;
        ends_at = ends;
        next = position-moved (end_of list entry) l list e ∙ ends;
        index = ground arith;
      }

  place-FollowsOn :
      (list after : EntryList) (entry placed : Entry)
      → IsReady list
      → pos 0 ≤ℤ entry.size
      → InRange64 (list.uploaded_chunk_offset +ℤ entry.size)
      → place entry_out list entry ≡ (after, sent placed)
      → FollowsOn list after placed
  place-FollowsOn list after entry placed ready size_nonneg fits h =
      let (l, e, ea, ep) = place-sent list after entry placed h in
      rw (← ea, ← ep) (placed_in-FollowsOn list entry l ready size_nonneg fits e)

  fill_modified-FollowsOn :
      (list after : EntryList) (m : ModifiedEntry) (entry placed : Entry)
      → IsReady list
      → InRange64 (list.uploaded_chunk_offset +ℤ m.size)
      → fill_modified entry_out list m entry ≡ (after, sent placed)
      → FollowsOn list after placed
  unfolding fill_modified
  fill_modified-FollowsOn list after m entry placed ready fits h =
      elim (Bool-cases (eq_text m.path entry.path)) [
        | inr e ↦ absurd (ground arith)
        | inl e ↦ elim (Bool-cases (leb_ℤ m.size (pos 0))) [
          | inl f ↦ absurd (ground arith)
          | inr f ↦
              place-FollowsOn list after (record entry { size = m.size; hash = m.hash }) placed
                ready (ground arith) fits (rw (e, f) at h)
        ]
      ]

  -- A modified file that is sent out begins where the uploaded chunks had been handed out to, and
  -- ends its size later, which is where the next one begins; one modified entry is used up. The
  -- lengths of the chunks are not negative, and the sums fit 64 bits.
  pub fill_and_send-FollowsOn :
      (list after : EntryList) (m : ModifiedEntry) (entry placed : Entry)
      → IsReady list
      → is_complete entry ≡ false
      → get_elem? list.modified_entries list.modified_entry_index ≡ some m
      → InRange64 (list.uploaded_chunk_offset +ℤ m.size)
      → fill_and_send entry_out list entry ≡ (after, sent placed)
      → FollowsOn
          (record list { modified_entry_index = list.modified_entry_index + 1 })
          after
          placed
  unfolding fill_and_send
  fill_and_send-FollowsOn list after m entry placed ready incomplete e fits h =
      let found = record list { modified_entry_index = list.modified_entry_index + 1 } in
      let still_ready : IsReady found = record {
        room = ready.room;
        nonneg = ready.nonneg;
        offset_nonneg = ready.offset_nonneg;
      } in
      fill_modified-FollowsOn found after m entry placed still_ready fits
        (rw (incomplete, e, fill_and_send) at h)
