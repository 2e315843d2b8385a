-- ===== src/ChunkMaker/Store.antt =====
-- What is read goes behind the data that are in the buffer.
use mathlib.Core.List.{append_assoc}
use duplicacy.Prelude.{
  ℕ, ◌+◌, ◌-◌, ◌≤◌, ◌<◌, ltb, length, take, drop, length-append, length-take, length-drop, ◌≡◌, sym,
  ap, ◌∙◌, List, ◌++◌, Bool-cases, inl, inr, arith, ltb→lt,
}
use duplicacy.Prelude.Slices.{
  take-append, drop-append, take-append_past, drop-append_past, drop-take, drop-drop, take-whole,
}
use duplicacy.ChunkMaker.{Settings, ChunkMaker}
use duplicacy.ChunkMaker.Window.{contents, IsBuffer}
use duplicacy.ChunkMaker.Reader.{store, read_start, read_room}

-- A list of which the part from `p` on is written over.
module _ (xs ys : List ℕ) (p : ℕ) (within : p + length ys ≤ length xs) where
  abbrev head : List ℕ
  head = take p xs ++ ys

  abbrev pub overwritten : List ℕ
  overwritten = head ++ drop (p + length ys) xs

  length-head : length head ≡ p + length ys
  length-head = omega (arith, length-append (take p xs) ys, length-take p xs)

  pub length-overwritten : length overwritten ≡ length xs
  length-overwritten = omega (
    arith,
    length-append head (drop (p + length ys) xs),
    length-head,
    length-drop (p + length ys) xs,
  )

  pub take-overwritten : take (p + length ys) overwritten ≡ take p xs ++ ys
  take-overwritten = take-whole (p + length ys) head (drop (p + length ys) xs) (sym length-head)

  -- The part from a place before `p` on, up to the end of what was written.
  pub slice-overwritten :
      (start : ℕ) (more : List ℕ)
      → start ≤ p
      → take (p + length ys - start) (drop start (overwritten ++ more))
        ≡ take (p - start) (drop start xs) ++ ys
  slice-overwritten start more h =
      ap (λ t. take (p + length ys - start) (drop start t))
        (append_assoc head (drop (p + length ys) xs) more)
      ∙ ap (take (p + length ys - start))
          (drop-append start head (drop (p + length ys) xs ++ more) (omega (arith, length-head)))
      ∙ take-whole (p + length ys - start) (drop start head) (drop (p + length ys) xs ++ more)
          (omega (arith, length-drop start head, length-head))
      ∙ drop-append start (take p xs) ys (omega (arith, length-take p xs))
      ∙ ap (λ t. t ++ ys) (drop-take start p xs h)

  -- The part that comes after what was written is as before.
  pub drop-overwritten :
      (start : ℕ) → p + length ys ≤ start → drop start overwritten ≡ drop start xs
  drop-overwritten start h =
      drop-append_past start head (drop (p + length ys) xs) (omega (arith, length-head))
      ∙ drop-drop (start - length head) (p + length ys) xs
      ∙ ap (λ k. drop k xs) (omega (arith, length-head, h))

module _ (s : Settings) (maker : ChunkMaker) (v : IsBuffer s maker) (bytes : List ℕ)
    (fits : length bytes ≤ read_room s maker) where
  abbrev start : ℕ
  start = maker.buffer_start

  abbrev size : ℕ
  size = maker.buffer_size

  abbrev begin : ℕ
  begin = read_start s maker

  in_buffer : begin + length bytes ≤ length maker.buffer
  in_buffer = ground (arith, v.room, v.start_in, v.size_in, fits)

  abbrev buffer : List ℕ
  buffer = overwritten maker.buffer bytes begin in_buffer

  length-tail : length (drop start maker.buffer) ≡ s.buffer_capacity - start
  length-tail = omega (arith, length-drop start maker.buffer, v.room)

  -- The data do not go round, and neither do those that are stored.
  contents-store_before :
      start + size < s.buffer_capacity → contents (store s bytes maker) ≡ contents maker ++ bytes
  unfolding store
  contents-store_before h =
      let same : begin ≡ start + size = ground arith in
      let long : begin + length bytes - start ≡ size + length bytes = omega arith in
      let short : begin - start ≡ size = omega arith in
      ap (λ k. take k (drop start (buffer ++ buffer))) (sym long)
      ∙ slice-overwritten maker.buffer bytes begin in_buffer start buffer (omega arith)
      ∙ ap (λ k. take k (drop start maker.buffer) ++ bytes) short
      ∙ ap (λ t. t ++ bytes)
          (sym (
            ap (take size)
              (drop-append start maker.buffer maker.buffer (omega (arith, v.room, v.start_in)))
            ∙ take-append size (drop start maker.buffer) maker.buffer (omega (arith, length-tail))))

  contents-store_round :
      s.buffer_capacity ≤ start + size → contents (store s bytes maker) ≡ contents maker ++ bytes
  unfolding store
  contents-store_round h =
      let same : begin + s.buffer_capacity ≡ start + size = ground arith in
      let free : begin + length bytes ≤ start = ground (arith, fits) in
      let tail : List ℕ = drop start maker.buffer in
      let room : length buffer ≡ s.buffer_capacity =
        length-overwritten maker.buffer bytes begin in_buffer ∙ v.room in
      let past : size + length bytes - length tail ≡ begin + length bytes =
        omega (arith, length-tail, v.start_in) in
      let past' : size - length tail ≡ begin = omega (arith, length-tail, v.start_in) in
      ap (take (size + length bytes)) (
        drop-append start buffer buffer (omega (arith, room, v.start_in))
        ∙ ap (λ t. t ++ buffer) (drop-overwritten maker.buffer bytes begin in_buffer start free))
      ∙ take-append_past (size + length bytes) tail buffer (omega (arith, length-tail))
      ∙ ap (λ k. tail ++ take k buffer) past
      ∙ ap (λ t. tail ++ t) (take-overwritten maker.buffer bytes begin in_buffer)
      ∙ sym (
          ap (λ t. t ++ bytes)
            (ap (take size)
                (drop-append start maker.buffer maker.buffer (omega (arith, v.room, v.start_in)))
              ∙ take-append_past size tail maker.buffer (omega (arith, length-tail))
              ∙ ap (λ k. tail ++ take k maker.buffer) past')
          ∙ append_assoc tail (take begin maker.buffer) bytes)

  pub contents-store : contents (store s bytes maker) ≡ contents maker ++ bytes
  contents-store = elim (Bool-cases (ltb (start + size) s.buffer_capacity)) [
    | inl e ↦ contents-store_before (ltb→lt _ _ e)
    | inr e ↦ contents-store_round (ground arith)
  ]

  pub IsBuffer-store : IsBuffer s (store s bytes maker)
  unfolding store
  IsBuffer-store = record {
    room = length-overwritten maker.buffer bytes begin in_buffer ∙ v.room;
    start_in = v.start_in;
    size_in = ground (arith, v.start_in, v.size_in, fits);
  }
