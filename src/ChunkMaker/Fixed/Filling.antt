-- ===== src/ChunkMaker/Fixed/Filling.antt =====
-- The reads for a chunk of a fixed size.
use mathlib.Core.List.{append_assoc, append-nil}
use duplicacy.Prelude.{
  ℕ, zero, suc, ◌+◌, ◌≤◌, ◌<◌, length, length-append, take, ◌≡◌, refl, sym, ap, ◌∙◌, List, ◌++◌,
  Bool, inl, inr, arith, true, false, Option, some, ◌⊎◌, Bool-cases,
}
use duplicacy.ChunkMaker.{Settings}
use duplicacy.ChunkMaker.Reader.{Answer, Reading, Reads, read_on, read_failed, and_then}
use duplicacy.ChunkMaker.Reads.{
  Reaches, Reaches-trans, stays, after_some, after_last, ReadFailed, ReadFailed-trans, IsReader,
  IsAnswer, gets, gets_last, fails, unread, unread_of, reads_left, reads_of,
}
use duplicacy.ChunkMaker.Store.{take-overwritten, length-overwritten}
use duplicacy.ChunkMaker.Fixed.{
  taken, put_bytes, put_read, put_answer, chunk_room, chunk_wants_more, put_or_stop, fill_chunk,
}

module _ (s : Settings) {R : Type 0} (read : R → ℕ → Answer R) (rest : R → List ℕ) where
  -- No more than a chunk was read, and there is room for one.
  pub record IsFilling (reading : Reading R) : Type 0 where
    pub room : s.minimum_chunk_size ≤ length reading.maker.buffer
    pub within : reading.maker.buffer_start ≤ s.minimum_chunk_size

  -- From one point of the loop to another.
  pub record Puts (from to : Reading R) : Type 0 where
    pub conserved : taken s read to ++ unread rest to ≡ taken s read from ++ unread rest from
    pub same_hashed : to.hashed ≡ from.hashed
    pub same_size : to.file_size ≡ from.file_size
    pub same_chunk : to.maker.chunk ≡ from.maker.chunk
    pub is_filling : IsFilling to
    pub reached : Reaches read from.reader to.reader

  pub data ChunkFilled (from : Reading R) : Option (Reads R) → Type 0 where
    chunk_filled :
        (to : Reading R)
        → Puts from to
        → (to.is_eof ≡ true)
          ⊎ ((to.is_eof ≡ false) × (to.maker.buffer_start ≡ s.minimum_chunk_size))
        → ChunkFilled from (some (read_on to))
    not_chunk_filled :
        (to : Reading R)
        → Puts from to
        → ReadFailed read from.reader to
        → ChunkFilled from (some (read_failed to))

  Puts-refl : (reading : Reading R) → IsFilling reading → Puts reading reading
  Puts-refl reading v = record {
    conserved = refl;
    same_hashed = refl;
    same_size = refl;
    same_chunk = refl;
    is_filling = v;
    reached = stays reading.reader;
  }

  Puts-trans : (a b c : Reading R) → Puts a b → Puts b c → Puts a c
  Puts-trans a b c p q = record {
    conserved = q.conserved ∙ p.conserved;
    same_hashed = q.same_hashed ∙ p.same_hashed;
    same_size = q.same_size ∙ p.same_size;
    same_chunk = q.same_chunk ∙ p.same_chunk;
    is_filling = q.is_filling;
    reached = Reaches-trans read a.reader b.reader c.reader p.reached q.reached;
  }

  Puts-put_read :
      (reading : Reading R) (bytes : List ℕ) (next : R) (is_eof : Bool)
      → IsFilling reading
      → reading.is_eof ≡ false
      → length bytes ≤ chunk_room s read reading
      → bytes ++ unread_of rest is_eof next ≡ rest reading.reader
      → Reaches read reading.reader next
      → Puts reading (put_read s read bytes next is_eof reading)
  unfolding put_bytes
  Puts-put_read reading bytes next is_eof v e fits same reached =
      let start : ℕ = reading.maker.buffer_start in
      let fit : start + length bytes ≤ length reading.maker.buffer =
        omega (arith, v.room, v.within) in
      record {
        conserved =
            ap (λ t. t ++ unread_of rest is_eof next)
              (take-overwritten reading.maker.buffer bytes start fit)
            ∙ append_assoc (take start reading.maker.buffer) bytes (unread_of rest is_eof next)
            ∙ ap (λ t. take start reading.maker.buffer ++ t)
                (same ∙ sym (ap (λ b. unread_of rest b reading.reader) e));
        same_hashed = refl;
        same_size = refl;
        same_chunk = refl;
        is_filling = record {
          room = omega (arith, length-overwritten reading.maker.buffer bytes start fit, v.room);
          within = omega (arith, v.within);
        };
        reached = reached;
      }

  then-ChunkFilled :
      (from to : Reading R) (result : Option (Reads R))
      → Puts from to
      → ChunkFilled to result
      → ChunkFilled from result
  then-ChunkFilled from to result m (chunk_filled last n stop) =
      chunk_filled last (Puts-trans from to last m n) stop
  then-ChunkFilled from to result m (not_chunk_filled last n f) =
      not_chunk_filled last (Puts-trans from to last m n)
        (ReadFailed-trans read from.reader to.reader last m.reached f)

  module _ (next_reads : Reading R → Option (Reads R)) (fuel : ℕ)
      (ih : (next : Reading R)
        → IsFilling next
        → reads_left rest next < fuel
        → ChunkFilled next (next_reads next)) where
    put_answer-ChunkFilled :
        (reading : Reading R) (answer : Answer R)
        → IsFilling reading
        → reading.is_eof ≡ false
        → reads_left rest reading < suc fuel
        → read reading.reader (chunk_room s read reading) ≡ answer
        → IsAnswer rest reading.reader (chunk_room s read reading) answer
        → ChunkFilled reading (and_then s read next_reads (put_answer s read answer reading))
    put_answer-ChunkFilled reading answer v e h asked (gets bytes next progress fits same) =
        let to : Reading R = put_read s read bytes next false reading in
        let m : Puts reading to = Puts-put_read reading bytes next false v e fits same (
          after_some reading.reader next next (chunk_room s read reading) bytes asked
            (stays next)) in
        let before : reads_left rest reading ≡ suc (length (rest reading.reader)) =
          ap (λ b. reads_of rest b reading.reader) e in
        then-ChunkFilled reading to _ m (
          ih to m.is_filling
            (omega (arith, before, ap length same, length-append bytes (rest next))))
    put_answer-ChunkFilled reading answer v e h asked (gets_last bytes next fits same) =
        let to : Reading R = put_read s read bytes next true reading in
        let m : Puts reading to =
          Puts-put_read reading bytes next true v e fits (append-nil bytes ∙ same) (
            after_last reading.reader next next (chunk_room s read reading) bytes asked
              (stays next)) in
        let before : reads_left rest reading ≡ suc (length (rest reading.reader)) =
          ap (λ b. reads_of rest b reading.reader) e in
        then-ChunkFilled reading to _ m (ih to m.is_filling (omega (arith, before)))
    put_answer-ChunkFilled reading answer v e h asked fails =
        not_chunk_filled reading (Puts-refl reading v) (record {
          reaches = stays reading.reader;
          open_end = e;
          room = chunk_room s read reading;
          fails_there = asked;
        })

  module _ (law : IsReader read rest) where
    put_or_stop-ChunkFilled :
        (fuel : ℕ) (reading : Reading R) (wants : Bool)
        → chunk_wants_more s read reading ≡ wants
        → ((next : Reading R)
            → IsFilling next
            → reads_left rest next < fuel
            → ChunkFilled next (fill_chunk s read fuel next))
        → IsFilling reading
        → reads_left rest reading < suc fuel
        → ChunkFilled reading (put_or_stop s read (fill_chunk s read fuel) reading wants)
    put_or_stop-ChunkFilled fuel reading true w ih v h =
        put_answer-ChunkFilled (fill_chunk s read fuel) fuel ih reading
          (read reading.reader (chunk_room s read reading)) v (ground arith) h refl
          (law reading.reader (chunk_room s read reading) (ground arith))
    put_or_stop-ChunkFilled fuel reading false w ih v h =
        chunk_filled reading (Puts-refl reading v) (elim (Bool-cases reading.is_eof) [
          | inl e ↦ inl e
          | inr e ↦ inr (e, ground (arith, v.within))
        ])

    pub fill_chunk-ChunkFilled :
        (fuel : ℕ) (reading : Reading R)
        → IsFilling reading
        → reads_left rest reading < fuel
        → ChunkFilled reading (fill_chunk s read fuel reading)
    unfolding fill_chunk
    fill_chunk-ChunkFilled zero reading v h = absurd (omega arith)
    fill_chunk-ChunkFilled (suc fuel) reading v h =
        put_or_stop-ChunkFilled fuel reading (chunk_wants_more s read reading) refl
          (fill_chunk-ChunkFilled fuel) v h
