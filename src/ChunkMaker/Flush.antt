-- ===== src/ChunkMaker/Flush.antt =====
-- AddData without a reader, which sends the rest of the data.
use duplicacy.Prelude.{ℕ, zero, suc, ◌<◌, ◌≡◌, refl, ap, ◌∙◌, List, ◌++◌, arith, false, some}
use duplicacy.ChunkMaker.{Settings, ChunkMaker}
use duplicacy.ChunkMaker.AddData.{Round, cut, flush, before}
use duplicacy.ChunkMaker.Cuts.{IsSound, IsMaker, pending, flatten}
use duplicacy.ChunkMaker.Flushed.{
  AreChunks, AreChunks-append, flatten-append, goes_on, ends, cut-Flushed,
}

module _ (s : Settings) (sound : IsSound s) where
  -- With settings and a maker that are sound, and more fuel than there are bytes in the buffer, a flush
  -- returns: it has sent all that was in the chunk and the buffer, in order and in chunks none of which
  -- is empty or longer than the maximum, and only the last of which may be shorter than the minimum.
  pub flush-AreChunks :
      (fuel : ℕ) (maker : ChunkMaker)
      → IsMaker s maker
      → maker.buffer_size < fuel
      → (after : ChunkMaker) × (sent : List (List ℕ)) × (flush s fuel maker ≡ some (after, sent))
        × (flatten sent ≡ pending maker)
        × AreChunks s sent
  unfolding flush
  flush-AreChunks zero maker v h = absurd (omega arith)
  flush-AreChunks (suc fuel) maker v h = elim (cut-Flushed s sound maker v) [
    | goes_on f c less ↦
        let round : Round = cut s false false maker in
        let rest = flush-AreChunks fuel round.maker c.valid (omega arith) in
        (
          rest.0,
          round.sent ++ rest.1,
          rw f (ap (before s round.sent) (rest.2)),
          flatten-append round.sent (rest.1)
              ∙ ap (λ t. flatten round.sent ++ t) (rest.3)
              ∙ c.conserved,
          AreChunks-append s sound round.sent (rest.1) c.bounded (rest.4),
        )
    | ends f all c ↦
        let round : Round = cut s false false maker in (round.maker, round.sent, rw f refl, all, c)
  ]
