-- ===== src/ChunkMaker/Reads.antt =====
-- The reads that fill the buffer of the chunk maker lose nothing of the file.
use mathlib.Core.List.{append_assoc, append-nil}
use duplicacy.Prelude.{
  ℕ, zero, suc, ◌+◌, ◌≤◌, ◌<◌, length, length-append, ◌≡◌, refl, sym, ap, ◌∙◌, List, [], ◌++◌, Bool,
  inl, inr, arith, true, false, Option, some, ◌⊎◌, Bool-cases,
}
use duplicacy.ChunkMaker.{Settings, ChunkMaker}
use duplicacy.ChunkMaker.Window.{contents}
use duplicacy.ChunkMaker.Cuts.{IsMaker, pending}
use duplicacy.ChunkMaker.Reader.{
  Answer, got, got_last, failed, Reading, Reads, read_on, read_failed, read_room, store, stored,
  answered, wants_more, and_then, read_or_stop, fill_buffer,
}
use duplicacy.ChunkMaker.Store.{contents-store, IsBuffer-store}

-- What a reader may answer that has the bytes `rest reader` to give: some of them at a time, as many
-- as there is room for, and io.EOF with the last of them or after them.
pub data IsAnswer {R : Type 0} (rest : R → List ℕ) (reader : R) (room : ℕ) : Answer R → Type 0 where
  gets :
      (bytes : List ℕ) (next : R)
      → 0 < length bytes
      → length bytes ≤ room
      → bytes ++ rest next ≡ rest reader
      → IsAnswer rest reader room (got bytes next)
  gets_last :
      (bytes : List ℕ) (next : R)
      → length bytes ≤ room
      → bytes ≡ rest reader
      → IsAnswer rest reader room (got_last bytes next)
  fails : IsAnswer rest reader room failed

-- The contract of io.Reader: an error may always come, but a read without one makes progress.
abbrev pub IsReader : {R : Type 0} → (R → ℕ → Answer R) → (R → List ℕ) → Type 0
IsReader {R} read rest =
    (reader : R) (room : ℕ) → 0 < room → IsAnswer rest reader room (read reader room)

-- The reader that reads of `from` have led to.
pub data Reaches {R : Type 0} (read : R → ℕ → Answer R) : R → R → Type 0 where
  stays : (reader : R) → Reaches read reader reader
  after_some :
      (from next to : R) (room : ℕ) (bytes : List ℕ)
      → read from room ≡ got bytes next
      → Reaches read next to
      → Reaches read from to
  after_last :
      (from next to : R) (room : ℕ) (bytes : List ℕ)
      → read from room ≡ got_last bytes next
      → Reaches read next to
      → Reaches read from to

pub Reaches-trans :
    {R : Type 0} (read : R → ℕ → Answer R) (a b c : R)
    → Reaches read a b
    → Reaches read b c
    → Reaches read a c
Reaches-trans read a b c (stays reader) q = q
Reaches-trans read a b c (after_some from next to room bytes e p) q =
    after_some a next c room bytes e (Reaches-trans read next b c p q)
Reaches-trans read a b c (after_last from next to room bytes e p) q =
    after_last a next c room bytes e (Reaches-trans read next b c p q)

-- Reads of `from` have led to a reader whose next read failed, before the end was noted.
pub record ReadFailed {R : Type 0} (read : R → ℕ → Answer R) (from : R) (to : Reading R)
    : Type 0 where
  pub reaches : Reaches read from to.reader
  pub open_end : to.is_eof ≡ false
  pub room : ℕ
  pub fails_there : read to.reader room ≡ failed

pub ReadFailed-trans :
    {R : Type 0} (read : R → ℕ → Answer R) (from next : R) (to : Reading R)
    → Reaches read from next
    → ReadFailed read next to
    → ReadFailed read from to
ReadFailed-trans read from next to p f = record {
  reaches = Reaches-trans read from next to.reader p f.reaches;
  open_end = f.open_end;
  room = f.room;
  fails_there = f.fails_there;
}

module _ {R : Type 0} (rest : R → List ℕ) where
  abbrev pub unread_of : Bool → R → List ℕ
  unread_of true reader = []
  unread_of false reader = rest reader

  -- What the reader has still to give.
  abbrev pub unread : Reading R → List ℕ
  unread reading = unread_of reading.is_eof reading.reader

  abbrev pub reads_of : Bool → R → ℕ
  reads_of true reader = 0
  reads_of false reader = suc (length (rest reader))

  -- No more reads than this are made.
  abbrev pub reads_left : Reading R → ℕ
  reads_left reading = reads_of reading.is_eof reading.reader

  pub unread_at_end : (reading : Reading R) → reading.is_eof ≡ true → unread reading ≡ []
  unread_at_end reading e = rw e refl

  pub reads_left-le : (reading : Reading R) → reads_left reading ≤ suc (length (unread reading))
  reads_left-le reading = elim (Bool-cases reading.is_eof) [
    | inl e ↦ rw e (omega arith)
    | inr e ↦ rw e (omega arith)
  ]

module _ (s : Settings) where
  IsMaker-store :
      (maker : ChunkMaker) (bytes : List ℕ)
      → IsMaker s maker
      → length bytes ≤ read_room s maker
      → IsMaker s (store s bytes maker)
  unfolding store
  IsMaker-store maker bytes v fits = record {
    is_buffer = IsBuffer-store s maker v.is_buffer bytes fits;
    fresh = v.fresh;
    enough = λ e. omega (arith, v.enough e);
    not_full = v.not_full;
  }

  pending-store :
      (maker : ChunkMaker) (bytes more : List ℕ)
      → IsMaker s maker
      → length bytes ≤ read_room s maker
      → pending (store s bytes maker) ++ more ≡ pending maker ++ (bytes ++ more)
  unfolding store
  pending-store maker bytes more v fits =
      append_assoc maker.chunk (contents (store s bytes maker)) more
      ∙ ap (λ t. maker.chunk ++ (t ++ more)) (contents-store s maker v.is_buffer bytes fits)
      ∙ ap (λ t. maker.chunk ++ t) (append_assoc (contents maker) bytes more)
      ∙ sym (append_assoc maker.chunk (contents maker) (bytes ++ more))

module _ (s : Settings) {R : Type 0} (read : R → ℕ → Answer R) where
  pub record IsReading (reading : Reading R) : Type 0 where
    pub valid : IsMaker s reading.maker
    pub counted : reading.file_size ≡ length reading.hashed

  -- From one point of AddData to another, when no chunk is sent.
  pub record Moves (rest : R → List ℕ) (from to : Reading R) : Type 0 where
    pub conserved : pending to.maker ++ unread rest to ≡ pending from.maker ++ unread rest from
    pub hashed_all : to.hashed ++ unread rest to ≡ from.hashed ++ unread rest from
    pub same_size :
        to.maker.buffer_size + length (unread rest to)
        ≡ from.maker.buffer_size + length (unread rest from)
    pub reading_valid : IsReading to
    pub reached : Reaches read from.reader to.reader

  pub data Filled (rest : R → List ℕ) (from : Reading R) : Option (Reads R) → Type 0 where
    filled :
        (to : Reading R)
        → Moves rest from to
        → (to.is_eof ≡ true) ⊎ (s.buffer_capacity ≤ to.maker.buffer_size)
        → Filled rest from (some (read_on to))
    not_filled :
        (to : Reading R)
        → Moves rest from to
        → ReadFailed read from.reader to
        → Filled rest from (some (read_failed to))

  Moves-refl :
      (rest : R → List ℕ) (reading : Reading R) → IsReading reading → Moves rest reading reading
  Moves-refl rest reading v = record {
    conserved = refl;
    hashed_all = refl;
    same_size = refl;
    reading_valid = v;
    reached = stays reading.reader;
  }

  Moves-trans :
      (rest : R → List ℕ) (a b c : Reading R) → Moves rest a b → Moves rest b c → Moves rest a c
  Moves-trans rest a b c p q = record {
    conserved = q.conserved ∙ p.conserved;
    hashed_all = q.hashed_all ∙ p.hashed_all;
    same_size = q.same_size ∙ p.same_size;
    reading_valid = q.reading_valid;
    reached = Reaches-trans read a.reader b.reader c.reader p.reached q.reached;
  }

  Moves-stored :
      (rest : R → List ℕ) (reading : Reading R) (bytes : List ℕ) (next : R) (is_eof : Bool)
      → IsReading reading
      → reading.is_eof ≡ false
      → length bytes ≤ read_room s reading.maker
      → bytes ++ unread_of rest is_eof next ≡ rest reading.reader
      → Reaches read reading.reader next
      → Moves rest reading (stored s read bytes next is_eof reading)
  unfolding store
  Moves-stored rest reading bytes next is_eof v e fits same reached =
      let before : unread rest reading ≡ rest reading.reader =
        ap (λ b. unread_of rest b reading.reader) e in
      record {
        conserved =
            pending-store s reading.maker bytes (unread_of rest is_eof next) v.valid fits
            ∙ ap (λ t. pending reading.maker ++ t) (same ∙ sym before);
        hashed_all =
            append_assoc reading.hashed bytes (unread_of rest is_eof next)
            ∙ ap (λ t. reading.hashed ++ t) (same ∙ sym before);
        same_size = omega (
          arith,
          ap length same,
          ap length before,
          length-append bytes (unread_of rest is_eof next),
        );
        reading_valid = record {
          valid = IsMaker-store s reading.maker bytes v.valid fits;
          counted = omega (arith, v.counted, length-append reading.hashed bytes);
        };
        reached = reached;
      }

  then-Filled :
      (rest : R → List ℕ) (from to : Reading R) (result : Option (Reads R))
      → Moves rest from to
      → Filled rest to result
      → Filled rest from result
  then-Filled rest from to result m (filled last n stop) =
      filled last (Moves-trans rest from to last m n) stop
  then-Filled rest from to result m (not_filled last n f) =
      not_filled last (Moves-trans rest from to last m n)
        (ReadFailed-trans read from.reader to.reader last m.reached f)

  module _ (rest : R → List ℕ) (fill : Reading R → Option (Reads R)) (fuel : ℕ)
      (ih : (next : Reading R)
        → IsReading next
        → reads_left rest next < fuel
        → Filled rest next (fill next)) where
    answered-Filled :
        (reading : Reading R) (answer : Answer R)
        → IsReading reading
        → reading.is_eof ≡ false
        → reads_left rest reading < suc fuel
        → read reading.reader (read_room s reading.maker) ≡ answer
        → IsAnswer rest reading.reader (read_room s reading.maker) answer
        → Filled rest reading (and_then s read fill (answered s read answer reading))
    answered-Filled reading answer v e h asked (gets bytes next progress fits same) =
        let to : Reading R = stored s read bytes next false reading in
        let m : Moves rest reading to = Moves-stored rest reading bytes next false v e fits same (
          after_some reading.reader next next (read_room s reading.maker) bytes asked
            (stays next)) in
        let before : reads_left rest reading ≡ suc (length (rest reading.reader)) =
          ap (λ b. reads_of rest b reading.reader) e in
        then-Filled rest reading to _ m (
          ih to m.reading_valid
            (omega (arith, before, ap length same, length-append bytes (rest next))))
    answered-Filled reading answer v e h asked (gets_last bytes next fits same) =
        let to : Reading R = stored s read bytes next true reading in
        let m : Moves rest reading to =
          Moves-stored rest reading bytes next true v e fits (append-nil bytes ∙ same) (
            after_last reading.reader next next (read_room s reading.maker) bytes asked
              (stays next)) in
        let before : reads_left rest reading ≡ suc (length (rest reading.reader)) =
          ap (λ b. reads_of rest b reading.reader) e in
        then-Filled rest reading to _ m (ih to m.reading_valid (omega (arith, before)))
    answered-Filled reading answer v e h asked fails =
        not_filled reading (Moves-refl rest reading v) (record {
          reaches = stays reading.reader;
          open_end = e;
          room = read_room s reading.maker;
          fails_there = asked;
        })

  module _ (rest : R → List ℕ) (law : IsReader read rest) where
    fill_step-Filled :
        (fuel : ℕ) (reading : Reading R) (wants : Bool)
        → wants_more s read reading ≡ wants
        → ((next : Reading R)
            → IsReading next
            → reads_left rest next < fuel
            → Filled rest next (fill_buffer s read fuel next))
        → IsReading reading
        → reads_left rest reading < suc fuel
        → Filled rest reading (read_or_stop s read (fill_buffer s read fuel) reading wants)
    fill_step-Filled fuel reading true w ih v h =
        let open_end : reading.is_eof ≡ false = ground arith in
        answered-Filled rest (fill_buffer s read fuel) fuel ih reading
          (read reading.reader (read_room s reading.maker)) v open_end h refl
          (law reading.reader (read_room s reading.maker)
            (ground (arith, v.valid.is_buffer.start_in)))
    fill_step-Filled fuel reading false w ih v h =
        filled reading (Moves-refl rest reading v)
          (elim (Bool-cases reading.is_eof) [ inl e ↦ inl e | inr e ↦ inr (ground arith) ])

    -- With more fuel than reads that are left, the loop returns, unless a read fails.
    pub fill_buffer-Filled :
        (fuel : ℕ) (reading : Reading R)
        → IsReading reading
        → reads_left rest reading < fuel
        → Filled rest reading (fill_buffer s read fuel reading)
    unfolding fill_buffer
    fill_buffer-Filled zero reading v h = absurd (omega arith)
    fill_buffer-Filled (suc fuel) reading v h =
        fill_step-Filled fuel reading (wants_more s read reading) refl (fill_buffer-Filled fuel) v h
