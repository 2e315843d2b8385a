-- ===== src/ChunkMaker/Files.antt =====
-- AddData with a reader loses nothing of a file, and hashes all of it.
use mathlib.Core.List.{append_assoc, append-nil}
use duplicacy.Prelude.{
  ℕ, zero, suc, ◌==◌, ◌+◌, ◌<◌, length, ◌≡◌, refl, sym, ap, ◌∙◌, List, [], ◌∷◌, ◌++◌, Bool, arith,
  true, false, Option, some,
}
use duplicacy.ChunkMaker.{Settings, ChunkMaker}
use duplicacy.ChunkMaker.AddData.{Round, cut}
use duplicacy.ChunkMaker.Cuts.{IsSound, IsMaker, Cuts, pending, flatten, AllBounded}
use duplicacy.ChunkMaker.Rounds.{cut-Cuts}
use duplicacy.ChunkMaker.Flushed.{flatten-append}
use duplicacy.ChunkMaker.Reader.{
  Answer, Reading, Reads, Added, returns, gives_up, after_sending, next_round, add_round,
  add_reading, add_variable, start_reading,
}
use duplicacy.ChunkMaker.Progress.{Progress, done, shrinks, cut-Progress}
use duplicacy.ChunkMaker.Fixed.{add_data}
use duplicacy.ChunkMaker.Reads.{
  IsReader, unread, IsReading, Moves, Filled, filled, not_filled, fill_buffer-Filled, unread_at_end,
  reads_left-le, ReadFailed, ReadFailed-trans,
}

module _ (s : Settings) {R : Type 0} (read : R → ℕ → Answer R) (rest : R → List ℕ) where
  -- What AddData has done when it returns, or gives up since a read of the reader failed.
  pub data AddedAll (from : Reading R) : Option (Added R) → Type 0 where
    added_all :
        (to : Reading R) (sent : List (List ℕ))
        → flatten sent ++ pending to.maker ≡ pending from.maker ++ unread rest from
        → to.hashed ≡ from.hashed ++ unread rest from
        → IsReading s read to
        → AllBounded s sent
        → AddedAll from (some (returns to sent))
    gave_up :
        (to : Reading R) (sent : List (List ℕ))
        → flatten sent ++ (pending to.maker ++ unread rest to)
          ≡ pending from.maker ++ unread rest from
        → to.hashed ++ unread rest to ≡ from.hashed ++ unread rest from
        → IsReading s read to
        → AllBounded s sent
        → ReadFailed read from.reader to
        → AddedAll from (some (gives_up to sent))

  AllBounded-append :
      (xs ys : List (List ℕ)) → AllBounded s xs → AllBounded s ys → AllBounded s (xs ++ ys)
  AllBounded-append [] ys b c = c
  AllBounded-append (x ∷ xs) ys (l, h, b) c = (l, h, AllBounded-append xs ys b c)

  -- A round sends its chunks before those of what comes after it.
  flatten-sending :
      (sent more : List (List ℕ)) (left now unsent all : List ℕ)
      → flatten more ++ left ≡ now ++ unsent
      → flatten sent ++ now ≡ all
      → flatten (sent ++ more) ++ left ≡ all ++ unsent
  flatten-sending sent more left now unsent all h e =
      ap (λ t. t ++ left) (flatten-append sent more)
      ∙ append_assoc (flatten sent) (flatten more) left
      ∙ ap (λ t. flatten sent ++ t) h
      ∙ sym (append_assoc (flatten sent) now unsent)
      ∙ ap (λ t. t ++ unsent) e

  after_sending-AddedAll :
      (from full : Reading R) (round : Round) (result : Option (Added R))
      → Moves s read rest from full
      → Cuts s full.maker round
      → AddedAll (record full { maker = round.maker }) result
      → AddedAll from (after_sending s read round.sent result)
  after_sending-AddedAll from full round result m c (added_all to more all hashed v b) =
      added_all to (round.sent ++ more)
        (flatten-sending round.sent more (pending to.maker) (pending round.maker) (unread rest full)
            (pending full.maker) all c.conserved
          ∙ m.conserved)
        (hashed ∙ m.hashed_all) v (AllBounded-append round.sent more c.bounded b)
  after_sending-AddedAll from full round result m c (gave_up to more all hashed v b f) =
      gave_up to (round.sent ++ more)
        (flatten-sending round.sent more (pending to.maker ++ unread rest to) (pending round.maker)
            (unread rest full) (pending full.maker) all c.conserved
          ∙ m.conserved)
        (hashed ∙ m.hashed_all) v (AllBounded-append round.sent more c.bounded b)
        (ReadFailed-trans read from.reader full.reader to m.reached f)

  -- The bytes that AddData has still to put into chunks.
  abbrev pub work : Reading R → ℕ
  work reading = length (unread rest reading) + reading.maker.buffer_size

  module _ (sound : IsSound s) (add : Reading R → Option (Added R)) (fuel : ℕ)
      (ih : (next : Reading R)
        → IsReading s read next
        → work next + 2 < fuel
        → AddedAll next (add next)) where
    next_round-AddedAll :
        (from full : Reading R) (round : Round) (is_done : Bool)
        → Moves s read rest from full
        → work from + 2 < suc fuel
        → Cuts s full.maker round
        → Progress s full.is_eof full.maker round
        → round.finished ≡ is_done
        → AddedAll from (next_round s read add full round is_done)
    next_round-AddedAll from full round true m h c (done f e) d =
        let none_left : unread rest full ≡ [] = unread_at_end rest full e in
        added_all (record full { maker = round.maker }) round.sent
          (c.conserved
            ∙ sym (append-nil (pending full.maker))
            ∙ ap (λ t. pending full.maker ++ t) (sym none_left)
            ∙ m.conserved)
          (sym (append-nil full.hashed) ∙ ap (λ t. full.hashed ++ t) (sym none_left) ∙ m.hashed_all)
          (record { valid = c.valid; counted = m.reading_valid.counted }) c.bounded
    next_round-AddedAll from full round true m h c (shrinks f less) d = absurd (cc)
    next_round-AddedAll from full round false m h c (done f e) d = absurd (cc)
    next_round-AddedAll from full round false m h c (shrinks f less) d =
        let next : Reading R = record full { maker = round.maker } in
        after_sending-AddedAll from full round (add next) m c (
          ih next (record { valid = c.valid; counted = m.reading_valid.counted })
            (omega (arith, m.same_size)))

    add_round-AddedAll :
        (from : Reading R) (result : Option (Reads R))
        → work from + 2 < suc fuel
        → Filled s read rest from result
        → AddedAll from (add_round s read add result)
    unfolding add_round
    add_round-AddedAll from result h (filled full m stop) =
        let round : Round = cut s true full.is_eof full.maker in
        next_round-AddedAll from full round round.finished m h
          (cut-Cuts s sound full.maker full.is_eof m.reading_valid.valid)
          (cut-Progress s sound full.maker full.is_eof m.reading_valid.valid stop) refl
    add_round-AddedAll from result h (not_filled to m f) =
        gave_up to [] m.conserved m.hashed_all m.reading_valid tt f

  add_reading-AddedAll :
      (fuel : ℕ) (reading : Reading R)
      → IsSound s
      → IsReader read rest
      → IsReading s read reading
      → work reading + 2 < fuel
      → AddedAll reading (add_reading s read fuel reading)
  unfolding add_reading
  add_reading-AddedAll zero reading sound law v h = absurd (omega arith)
  add_reading-AddedAll (suc fuel) reading sound law v h =
      add_round-AddedAll sound (add_reading s read fuel) fuel
        (λ next w less. add_reading-AddedAll fuel next sound law w less) reading _ h
        (fill_buffer-Filled s read rest law fuel reading v
          (omega (arith, reads_left-le rest reading)))

  sizes_differ : IsSound s → (s.minimum_chunk_size == s.maximum_chunk_size) ≡ false
  sizes_differ sound = ground (arith, sound.below_maximum)

  -- With sound settings, a sound maker, a reader that keeps the contract of io.Reader, and fuel for
  -- the bytes of the reader and the buffer and three more, AddData returns. The chunks that it sent,
  -- of sizes within the bounds, and what it leaves in the maker are the data that the maker had and
  -- then all the bytes of the reader; these bytes are hashed, and their number is the size. It gives
  -- up only where a read fails, after others of the same reader and before the end was met; then this
  -- holds of the bytes that were read before.
  pub add_data-AddedAll :
      (fuel : ℕ) (reader : R) (maker : ChunkMaker)
      → IsSound s
      → IsReader read rest
      → IsMaker s maker
      → length (rest reader) + maker.buffer_size + 2 < fuel
      → AddedAll (start_reading reader maker) (add_data s read fuel reader maker)
  unfolding add_data add_variable
  add_data-AddedAll fuel reader maker sound law v h = rw (sizes_differ sound) (
      add_reading-AddedAll fuel (start_reading reader maker) sound law
        (record { valid = v; counted = refl }) h)
