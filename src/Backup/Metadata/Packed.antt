-- ===== src/Backup/Metadata/Packed.antt =====
-- What UploadSnapshot packs of a file is what Backup preserves of it: the same chunks, in a list
-- that grows in the same way.
use mathlib.Core.Option
use mathlib.Core.Path.{subst}
use duplicacy.Prelude.{
  ℕ, zero, suc, ◌^◌, ◌<◌, length, Bool-cases, inl, inr, ◌≡◌, refl, [], some, arith, Option-cases,
}
use duplicacy.Prelude.Int.{ℤ, pos, ◌-ℤ◌, ◌+ℤ◌}
use duplicacy.Prelude.Int64.{◌==ℤ◌, add64, sub64, wrap64}
use duplicacy.EntryList.{EntryList, create_entry_list, add_preserved_chunk}
use duplicacy.Backup.{ChunkTable, chunk_at}
use duplicacy.Backup.Preserve.{
  Merging, copy_chunk, copy_chunks, first_chunk, place_chunks, rounds_after,
}
use duplicacy.Backup.Metadata.{Packing, append_chunk, append_chunks, first_packed, pack_chunks}

-- The list that Backup would have.
abbrev pub as_list : Packing → EntryList
as_list p = record (create_entry_list [] (pos 0)) {
  preserved_chunk_hashes = p.hashes;
  preserved_chunk_lengths = p.lengths;
}

abbrev pub as_merging : Packing → Merging
as_merging p = record {
  list = as_list p;
  last = p.last_chunk;
  preserved_size = pos 0;
  modified_size = pos 0;
}

abbrev pub with_list : Packing → EntryList → Packing
with_list p list = record p {
  hashes = list.preserved_chunk_hashes;
  lengths = list.preserved_chunk_lengths;
}

module _ (table : ChunkTable) where
  append_chunk-eq :
      (i : ℤ) (p : Packing)
      → append_chunk table i p ≡ Option.map (with_list p) (copy_chunk table i (as_list p))
  unfolding append_chunk copy_chunk add_preserved_chunk
  append_chunk-eq i p = elim (Option-cases (chunk_at table i)) [
    | inl e ↦ ground arith
    | inr ((hash, size), e) ↦ ground arith
  ]

  append_chunks-eq :
      (n : ℕ) (i : ℤ) (p : Packing)
      → append_chunks table n i p ≡ Option.map (with_list p) (copy_chunks table n i (as_list p))
  unfolding append_chunks copy_chunks append_chunk copy_chunk add_preserved_chunk
  append_chunks-eq zero i p = refl
  append_chunks-eq (suc n) i p = elim (Option-cases (chunk_at table i)) [
    | inl e ↦ ground arith
    | inr ((hash, size), e) ↦ ground (
      arith,
      append_chunks-eq n (add64 i (pos 1))
          (with_list p (add_preserved_chunk hash size (as_list p))),
    )
  ]

  -- The two ways to compute `delta`.
  sub64-add64_one :
      (s len : ℕ)
      → s < 2 ^ 62
      → len < 2 ^ 62
      → sub64 (add64 (sub64 (pos s) (pos len)) (pos 1)) (pos 1) ≡ sub64 (pos s) (pos len)
  unfolding sub64 add64 wrap64 ◌-ℤ◌ ◌+ℤ◌
  sub64-add64_one s len hs hl = ground arith

  abbrev with_delta : Packing → EntryList × ℤ → Packing × ℤ
  with_delta p (list, delta) = (with_list p list, delta)

  first_packed-eq :
      (p : Packing) (s : ℕ)
      → s < 2 ^ 62
      → length p.hashes < 2 ^ 62
      → first_packed table p (pos s)
        ≡ Option.map (with_delta p) (first_chunk table (as_merging p) (pos s))
  unfolding first_packed first_chunk
  first_packed-eq p s hs hl =
      let turned : (pos s ==ℤ p.last_chunk) ≡ (p.last_chunk ==ℤ pos s) = ground arith in
      elim (Bool-cases (p.last_chunk ==ℤ pos s)) [
        | inl joined ↦ rw (turned, joined, first_packed, first_chunk) refl
        | inr fresh ↦
            rw
              (
                turned,
                fresh,
                append_chunk-eq (pos s) p,
                sub64-add64_one s (length p.hashes) hs hl,
                first_packed,
                first_chunk,
              )
              (elim (Option-cases (copy_chunk table (pos s) (as_list p))) [
                | inl e ↦ rw e refl
                | inr (list, e) ↦ rw e refl
              ])
      ]

  -- The ghost list has no more than the two lists of chunks.
  as_list-first_chunk :
      (p : Packing) (s : ℕ) (list : EntryList) (delta : ℤ)
      → first_chunk table (as_merging p) (pos s) ≡ some (list, delta)
      → as_list (with_list p list) ≡ list
  unfolding first_chunk copy_chunk add_preserved_chunk
  as_list-first_chunk p s list delta h = elim (Bool-cases (p.last_chunk ==ℤ pos s)) [
    | inl joined ↦
        let e : as_list p ≡ list = ground arith in subst (λ l. as_list (with_list p l) ≡ l) e refl
    | inr fresh ↦ elim (Option-cases (chunk_at table (pos s))) [
      | inl none_there ↦ absurd (ground arith)
      | inr ((hash, size), there) ↦
          let e : add_preserved_chunk hash size (as_list p) ≡ list = ground arith in
          subst (λ l. as_list (with_list p l) ≡ l) e refl
    ]
  ]

  pub pack_chunks-eq :
      (p : Packing) (s e : ℕ)
      → s < 2 ^ 62
      → length p.hashes < 2 ^ 62
      → pack_chunks table p (pos s) (pos e)
        ≡ Option.map (with_delta p) (place_chunks table (as_merging p) (pos s) (pos e))
  unfolding pack_chunks place_chunks
  pack_chunks-eq p s e hs hl = elim (Option-cases (first_chunk table (as_merging p) (pos s))) [
    | inl e' ↦ ground (arith, first_packed-eq p s hs hl)
    | inr ((list, delta), e') ↦ ground (
      arith,
      first_packed-eq p s hs hl,
      as_list-first_chunk p s list delta e',
      append_chunks-eq (rounds_after table (pos s) (pos e)) (add64 (pos s) (pos 1))
          (with_list p list),
    )
  ]
