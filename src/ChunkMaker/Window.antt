-- ===== src/ChunkMaker/Window.antt =====
-- What the circular buffer of the chunk maker holds, and how filling a chunk takes from its front.
use mathlib.Core.List.{append_assoc}
use duplicacy.Prelude.{
  ℕ, ◌+◌, ◌-◌, ◌≤◌, ◌<◌, ltb, length, take, drop, length-append, length-take, length-drop, ◌≡◌, sym,
  ap, ◌∙◌, List, ◌++◌, Bool-cases, inl, inr, arith, ltb→lt,
}
use duplicacy.Prelude.Slices.{
  take-append, drop-append, take-append_past, drop-append_past, take-take, drop-take, drop-drop,
}
use duplicacy.ChunkMaker.{Settings, ChunkMaker, fill}

-- The data from the start of the buffer on, going round.
abbrev pub contents : ChunkMaker → List ℕ
contents maker = take maker.buffer_size (drop maker.buffer_start (maker.buffer ++ maker.buffer))

pub record IsBuffer (s : Settings) (maker : ChunkMaker) : Type 0 where
  pub room : length maker.buffer ≡ s.buffer_capacity
  pub start_in : maker.buffer_start < s.buffer_capacity
  pub size_in : maker.buffer_size ≤ s.buffer_capacity

module _ (s : Settings) (maker : ChunkMaker) (v : IsBuffer s maker) where
  abbrev start : ℕ
  start = maker.buffer_start

  abbrev buffer : List ℕ
  buffer = maker.buffer

  from_start : drop start (buffer ++ buffer) ≡ drop start buffer ++ buffer
  from_start = drop-append start buffer buffer (omega (arith, v.room, v.start_in))

  -- A slice that ends before the end of the buffer, and one that goes round.
  front_before :
      (count : ℕ)
      → count ≤ maker.buffer_size
      → start + count < s.buffer_capacity
      → take count (contents maker) ≡ take count (drop start buffer)
  front_before count c h =
      take-take count maker.buffer_size (drop start (buffer ++ buffer)) c
      ∙ ap (take count) from_start
      ∙ take-append count (drop start buffer) buffer
          (omega (arith, length-drop start buffer, v.room))

  front_round :
      (count : ℕ)
      → count ≤ maker.buffer_size
      → s.buffer_capacity ≤ start + count
      → take count (contents maker)
        ≡ drop start buffer ++ take (count - (s.buffer_capacity - start)) buffer
  front_round count c h =
      let tail : length (drop start buffer) ≡ s.buffer_capacity - start =
        omega (arith, length-drop start buffer, v.room) in
      take-take count maker.buffer_size (drop start (buffer ++ buffer)) c
      ∙ ap (take count) from_start
      ∙ take-append_past count (drop start buffer) buffer (omega (arith, tail))
      ∙ ap (λ k. drop start buffer ++ take (count - k) buffer) tail

  pub chunk-fill :
      (count : ℕ)
      → count ≤ maker.buffer_size
      → (fill s count maker).chunk ≡ maker.chunk ++ take count (contents maker)
  unfolding fill
  chunk-fill count c = elim (Bool-cases (ltb (start + count) s.buffer_capacity)) [
    | inl e ↦ rw e (ap (λ t. maker.chunk ++ t) (sym (front_before count c (ltb→lt _ _ e))))
    | inr e ↦ rw e (
        append_assoc maker.chunk (drop start buffer)
          (take (count - (s.buffer_capacity - start)) buffer)
        ∙ ap (λ t. maker.chunk ++ t) (sym (front_round count c (ground arith))))
  ]

  rest_of :
      (count : ℕ)
      → count ≤ maker.buffer_size
      → drop count (contents maker)
        ≡ take (maker.buffer_size - count) (drop (start + count) (buffer ++ buffer))
  rest_of count c =
      drop-take count maker.buffer_size (drop start (buffer ++ buffer)) c
      ∙ ap (take (maker.buffer_size - count)) (drop-drop count start (buffer ++ buffer))

  pub contents-fill :
      (count : ℕ)
      → count ≤ maker.buffer_size
      → contents (fill s count maker) ≡ drop count (contents maker)
  unfolding fill
  contents-fill count c = elim (Bool-cases (ltb (start + count) s.buffer_capacity)) [
    | inl e ↦ rw e (sym (rest_of count c))
    | inr e ↦
        let past : s.buffer_capacity ≤ start + count = ground arith in
        let begin : ℕ = count - (s.buffer_capacity - start) in
        let left : ℕ = maker.buffer_size - count in
        let same : start + count - length buffer ≡ begin =
          omega (arith, v.room, v.start_in, past) in
        rw e (
          ap (take left)
            (drop-append begin buffer buffer (omega (arith, v.room, v.size_in, c, v.start_in)))
          ∙ take-append left (drop begin buffer) buffer
              (omega (arith, length-drop begin buffer, v.room, v.size_in, v.start_in, past))
          ∙ sym (
              rest_of count c
              ∙ ap (take left) (
                  drop-append_past (start + count) buffer buffer (omega (arith, v.room, past))
                  ∙ ap (λ k. drop k buffer) same)))
  ]

  pub IsBuffer-fill : (count : ℕ) → count ≤ maker.buffer_size → IsBuffer s (fill s count maker)
  unfolding fill
  IsBuffer-fill count c = ground arith

  pub size-fill : (count : ℕ) → (fill s count maker).buffer_size ≡ maker.buffer_size - count
  unfolding fill
  size-fill count = ground arith

  pub length-contents : length (contents maker) ≡ maker.buffer_size
  length-contents = omega (
    arith,
    length-take maker.buffer_size (drop start (buffer ++ buffer)),
    length-drop start (buffer ++ buffer),
    length-append buffer buffer,
    v.room,
    v.start_in,
    v.size_in,
  )
