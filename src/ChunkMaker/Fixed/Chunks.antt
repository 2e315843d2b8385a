-- ===== src/ChunkMaker/Fixed/Chunks.antt =====
-- The chunks of a fixed size are the file.
use mathlib.Core.List.{append_assoc, append-nil}
use duplicacy.Prelude.{
  ℕ, zero, suc, ◌+◌, ◌≤◌, ◌<◌, ltb, ltb→lt, ==_iff, length, length-append, length-take, take, ◌≡◌,
  refl, sym, ap, ◌∙◌, List, [], ◌∷◌, ◌++◌, Bool, inl, inr, arith, true, false, Option, some, ◌⊎◌,
  Bool-cases,
}
use duplicacy.ChunkMaker.{Settings, ChunkMaker, start_new_chunk}
use duplicacy.ChunkMaker.Cuts.{flatten}
use duplicacy.ChunkMaker.Reader.{
  Answer, Reading, Reads, Added, returns, after_sending, start_reading,
}
use duplicacy.ChunkMaker.Reads.{
  IsReader, unread, unread_at_end, reads_left-le, ReadFailed, ReadFailed-trans,
}
use duplicacy.ChunkMaker.Fixed.{
  taken, begin_chunk, write_chunk, end_chunk, chunk_round, add_fixed, add_data,
}
use duplicacy.ChunkMaker.Fixed.Filling.{
  Puts, ChunkFilled, chunk_filled, not_chunk_filled, fill_chunk-ChunkFilled,
}
use duplicacy.ChunkMaker.Fixed.Sizes.{AreFixed-cons, AddedFixed, added_fixed, gave_up_fixed}

module _ (s : Settings) {R : Type 0} (read : R → ℕ → Answer R) (rest : R → List ℕ) where
  -- After the reads for a chunk.
  module _ (positive : 0 < s.minimum_chunk_size) (from full : Reading R)
      (m : Puts s read rest (begin_chunk s read from) full) where
    abbrev chunk : List ℕ
    chunk = (write_chunk s read full).maker.chunk

    chunk-eq : chunk ≡ taken s read full
    unfolding start_new_chunk
    chunk-eq = ap (λ t. t ++ taken s read full) m.same_chunk

    length-taken : length (taken s read full) ≡ full.maker.buffer_start
    length-taken = omega (
      arith,
      length-take full.maker.buffer_start full.maker.buffer,
      m.is_filling.room,
      m.is_filling.within,
    )

    all_there : taken s read full ++ unread rest full ≡ unread rest from
    unfolding start_new_chunk
    all_there = m.conserved

    hashed-write :
        (more : List ℕ)
        → (full.hashed ++ taken s read full) ++ more ≡ from.hashed ++ (taken s read full ++ more)
    unfolding start_new_chunk
    hashed-write more =
        append_assoc full.hashed (taken s read full) more
        ∙ ap (λ t. t ++ (taken s read full ++ more)) m.same_hashed

    size-write :
        full.file_size + full.maker.buffer_start + length (unread rest full)
        ≡ from.file_size + length (unread rest from)
    unfolding start_new_chunk
    size-write = omega (
      arith,
      m.same_size,
      length-taken,
      ap length all_there,
      length-append (taken s read full) (unread rest full),
    )

    -- The last chunk.
    last-AddedFixed :
        full.is_eof ≡ true
        → 0 < full.maker.buffer_start
        → AddedFixed s read rest from (some (returns (write_chunk s read full) (chunk ∷ [])))
    last-AddedFixed e p =
        let none_left : unread rest full ≡ [] = unread_at_end rest full e in
        let nothing : length (unread rest full) ≡ 0 = ap length none_left in
        let all : taken s read full ≡ unread rest from =
          sym (append-nil (taken s read full))
          ∙ ap (λ t. taken s read full ++ t) (sym none_left)
          ∙ all_there in
        added_fixed (write_chunk s read full) (chunk ∷ []) (append-nil chunk ∙ chunk-eq ∙ all)
          (sym (append-nil (full.hashed ++ taken s read full))
            ∙ hashed-write []
            ∙ ap (λ t. from.hashed ++ t) (append-nil (taken s read full) ∙ all))
          (omega (arith, size-write, nothing))
          (
            omega (arith, ap length chunk-eq, length-taken),
            omega (arith, ap length chunk-eq, length-taken, m.is_filling.within),
          )

    -- Nothing was left.
    empty-AddedFixed :
        full.is_eof ≡ true
        → full.maker.buffer_start ≡ 0
        → AddedFixed s read rest from (some (returns full []))
    unfolding start_new_chunk
    empty-AddedFixed e z =
        let none_left : unread rest full ≡ [] = unread_at_end rest full e in
        let nothing : length (unread rest full) ≡ 0 = ap length none_left in
        let none_taken : taken s read full ≡ [] = ap (λ n. take n full.maker.buffer) z in
        let all : [] ≡ unread rest from =
          sym none_left ∙ ap (λ t. t ++ unread rest full) (sym none_taken) ∙ all_there in
        added_fixed full [] all
          (m.same_hashed ∙ sym (append-nil from.hashed) ∙ ap (λ t. from.hashed ++ t) all)
          (omega (arith, size-write, nothing, z)) tt

    failed_hash : full.hashed ≡ from.hashed ++ []
    unfolding start_new_chunk
    failed_hash = m.same_hashed ∙ sym (append-nil from.hashed)

    failed_later :
        (to : Reading R) → ReadFailed read full.reader to → ReadFailed read from.reader to
    unfolding start_new_chunk
    failed_later to f = ReadFailed-trans read from.reader full.reader to m.reached f

    -- A full chunk, and what comes after it.
    next-AddedFixed :
        (result : Option (Added R))
        → full.maker.buffer_start ≡ s.minimum_chunk_size
        → AddedFixed s read rest (write_chunk s read full) result
        → AddedFixed s read rest from (after_sending s read (chunk ∷ []) result)
    next-AddedFixed result e (added_fixed to more all hashed size fixed) =
        added_fixed to (chunk ∷ more)
          (ap (λ t. t ++ flatten more) chunk-eq ∙ ap (λ t. taken s read full ++ t) all ∙ all_there)
          (hashed ∙ hashed-write (unread rest full) ∙ ap (λ t. from.hashed ++ t) all_there)
          (size ∙ size-write)
          (AreFixed-cons s chunk more positive (omega (arith, ap length chunk-eq, length-taken))
            fixed)
    next-AddedFixed result e (gave_up_fixed to more all hashed full_ones f) =
        gave_up_fixed to (chunk ∷ more)
          (append_assoc chunk (flatten more) (taken s read to ++ unread rest to)
            ∙ ap (λ t. chunk ++ t) all
            ∙ ap (λ t. t ++ unread rest full) chunk-eq
            ∙ all_there)
          (hashed
            ∙ hashed-write (flatten more)
            ∙ ap (λ t. from.hashed ++ (t ++ flatten more)) (sym chunk-eq))
          (omega (arith, ap length chunk-eq, length-taken), full_ones) (failed_later to f)

    module _ (add : Reading R → Option (Added R)) (fuel : ℕ)
        (ih : (next : Reading R)
          → s.minimum_chunk_size ≤ length next.maker.buffer
          → length (unread rest next) + 2 < fuel
          → AddedFixed s read rest next (add next))
        (enough : length (unread rest from) + 2 < suc fuel) where
      wrote-AddedFixed :
          (is_eof : Bool)
          → full.is_eof ≡ is_eof
          → (full.is_eof ≡ true)
            ⊎ ((full.is_eof ≡ false) × (full.maker.buffer_start ≡ s.minimum_chunk_size))
          → 0 < full.maker.buffer_start
          → AddedFixed s read rest from
              (end_chunk s read add (write_chunk s read full) (chunk ∷ []) is_eof)
      wrote-AddedFixed true e stop p = last-AddedFixed e p
      wrote-AddedFixed false e (inl t) p = absurd (cc)
      wrote-AddedFixed false e (inr stop) p =
          next-AddedFixed (add (write_chunk s read full)) (stop.1) (
            ih (write_chunk s read full) m.is_filling.room (
              omega (
                arith,
                ap length all_there,
                length-append (taken s read full) (unread rest full),
                length-taken,
                stop.1,
              )))

      none-AddedFixed :
          (is_eof : Bool)
          → full.is_eof ≡ is_eof
          → (full.is_eof ≡ true)
            ⊎ ((full.is_eof ≡ false) × (full.maker.buffer_start ≡ s.minimum_chunk_size))
          → full.maker.buffer_start ≡ 0
          → AddedFixed s read rest from (end_chunk s read add full [] is_eof)
      none-AddedFixed true e stop z = empty-AddedFixed e z
      none-AddedFixed false e (inl t) z = absurd (cc)
      none-AddedFixed false e (inr stop) z = absurd (omega (arith, stop.1))

  module _ (positive : 0 < s.minimum_chunk_size) where
    chunk_round-AddedFixed :
        (add : Reading R → Option (Added R)) (fuel : ℕ)
        → ((next : Reading R)
            → s.minimum_chunk_size ≤ length next.maker.buffer
            → length (unread rest next) + 2 < fuel
            → AddedFixed s read rest next (add next))
        → (from : Reading R) → (result : Option (Reads R))
        → length (unread rest from) + 2 < suc fuel
        → ChunkFilled s read rest (begin_chunk s read from) result
        → AddedFixed s read rest from (chunk_round s read add result)
    chunk_round-AddedFixed add fuel ih from result h (chunk_filled full m stop) =
        elim (Bool-cases (ltb 0 full.maker.buffer_start)) [
          | inl e ↦ rw e (
              wrote-AddedFixed positive from full m add fuel ih h full.is_eof refl stop
                (ltb→lt _ _ e))
          | inr e ↦ rw e (
              none-AddedFixed positive from full m add fuel ih h full.is_eof refl stop
                (ground arith))
        ]
    chunk_round-AddedFixed add fuel ih from result h (not_chunk_filled to m f) =
        gave_up_fixed to [] (all_there positive from to m) (failed_hash positive from to m) tt f

    add_fixed-AddedFixed :
        (fuel : ℕ) (reading : Reading R)
        → IsReader read rest
        → s.minimum_chunk_size ≤ length reading.maker.buffer
        → length (unread rest reading) + 2 < fuel
        → AddedFixed s read rest reading (add_fixed s read fuel reading)
    unfolding add_fixed start_new_chunk
    add_fixed-AddedFixed zero reading law room h = absurd (omega arith)
    add_fixed-AddedFixed (suc fuel) reading law room h =
        chunk_round-AddedFixed (add_fixed s read fuel) fuel
          (λ next r less. add_fixed-AddedFixed fuel next law r less) reading _ h
          (fill_chunk-ChunkFilled s read rest law fuel (begin_chunk s read reading)
            (record { room = room; within = omega arith })
            (omega (arith, reads_left-le rest reading)))

    -- Where the minimum is the maximum, above 0 and no more than the buffer, the reader keeps the
    -- contract of io.Reader, and there is fuel for its bytes and three more, AddData returns: the chunks
    -- are the bytes of the reader, all of the one size but the last, which is not empty or longer; all
    -- the bytes are hashed, and their number is the size. It gives up only where a read fails, after
    -- others of the same reader and before the end was met; then the chunks that were sent are full,
    -- hashed, and with what was read after them and what was not the bytes of the reader.
    pub add_data-AddedFixed :
        (fuel : ℕ) (reader : R) (maker : ChunkMaker)
        → s.minimum_chunk_size ≡ s.maximum_chunk_size
        → IsReader read rest
        → s.minimum_chunk_size ≤ length maker.buffer
        → length (rest reader) + 2 < fuel
        → AddedFixed s read rest (start_reading reader maker) (add_data s read fuel reader maker)
    unfolding add_data
    add_data-AddedFixed fuel reader maker e law room h =
        rw ((==_iff s.minimum_chunk_size s.maximum_chunk_size).1 e)
          (add_fixed-AddedFixed fuel (start_reading reader maker) law room h)
