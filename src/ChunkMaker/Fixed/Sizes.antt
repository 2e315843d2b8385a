-- ===== src/ChunkMaker/Fixed/Sizes.antt =====
-- What AddData comes to for chunks of a fixed size.
use duplicacy.Prelude.{ℕ, ◌+◌, ◌≤◌, ◌<◌, length, ◌≡◌, List, [], ◌∷◌, ◌++◌, arith, Option, some}
use duplicacy.ChunkMaker.{Settings}
use duplicacy.ChunkMaker.Cuts.{flatten}
use duplicacy.ChunkMaker.Reader.{Answer, Reading, Added, returns, gives_up}
use duplicacy.ChunkMaker.Reads.{unread, ReadFailed}
use duplicacy.ChunkMaker.Fixed.{taken}

abbrev pub AreFull : Settings → List (List ℕ) → Type 0
AreFull s [] = Unit
AreFull s (chunk ∷ rest) = (length chunk ≡ s.minimum_chunk_size) × AreFull s rest

-- The last chunk may be shorter, but has some bytes.
abbrev pub AreFixed : Settings → List (List ℕ) → Type 0
AreFixed s [] = Unit
AreFixed s (chunk ∷ []) = (0 < length chunk) × (length chunk ≤ s.minimum_chunk_size)
AreFixed s (chunk ∷ next ∷ rest) = (length chunk ≡ s.minimum_chunk_size) × AreFixed s (next ∷ rest)

pub AreFixed-cons :
    (s : Settings) (chunk : List ℕ) (rest : List (List ℕ))
    → 0 < s.minimum_chunk_size
    → length chunk ≡ s.minimum_chunk_size
    → AreFixed s rest
    → AreFixed s (chunk ∷ rest)
AreFixed-cons s chunk [] p e f = (omega arith, omega arith)
AreFixed-cons s chunk (next ∷ rest) p e f = (e, f)

module _ (s : Settings) {R : Type 0} (read : R → ℕ → Answer R) (rest : R → List ℕ) where
  -- What AddData has done when it returns, or gives up since a read of the reader failed.
  pub data AddedFixed (from : Reading R) : Option (Added R) → Type 0 where
    added_fixed :
        (to : Reading R) (sent : List (List ℕ))
        → flatten sent ≡ unread rest from
        → to.hashed ≡ from.hashed ++ unread rest from
        → to.file_size ≡ from.file_size + length (unread rest from)
        → AreFixed s sent
        → AddedFixed from (some (returns to sent))
    gave_up_fixed :
        (to : Reading R) (sent : List (List ℕ))
        → flatten sent ++ (taken s read to ++ unread rest to) ≡ unread rest from
        → to.hashed ≡ from.hashed ++ flatten sent
        → AreFull s sent
        → ReadFailed read from.reader to
        → AddedFixed from (some (gives_up to sent))
