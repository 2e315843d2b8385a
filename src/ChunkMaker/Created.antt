-- ===== src/ChunkMaker/Created.antt =====
-- A new chunk maker is one that AddData can start from.
use duplicacy.Prelude.{
  ℕ, zero, suc, ◌-◌, ◌*◌, ◌^◌, ◌≤◌, ◌<◌, ==_iff, leb, leb→le, length, length-replicate, ◌≡◌, ◌≢◌,
  refl, sym, ap, ◌∙◌, List, [], inl, inr, arith, Bool-cases, true, false, Option, some, none,
}
use duplicacy.ChunkMaker.{Settings, ChunkMaker, start_new_chunk}
use duplicacy.ChunkMaker.Cuts.{IsSound, IsMaker, pending}
use duplicacy.ChunkMaker.Create.{
  Config, double_up, is_power_of_2, settings_of, maker_of, create_file_chunk_maker, for_metadata,
  create_metadata_chunk_maker,
}

le→leb : (a b : ℕ) → a ≤ b → leb a b ≡ true
le→leb a b h = ground arith

lt-pow : (k : ℕ) → k < 2 ^ k
lt-pow zero = omega arith
lt-pow (suc k) = omega (arith, lt-pow k)

double-pow : (size k : ℕ) → size * 2 ^ (suc k) ≡ size * 2 * 2 ^ k
double-pow size k = grind arith

pow-positive : (k : ℕ) → 0 < 2 ^ k
pow-positive k = omega (arith, lt-pow k)

times-ge : (size m : ℕ) → 0 < m → size ≤ size * m
times-ge size zero h = absurd (omega arith)
times-ge size (suc m) h = grind arith

-- The loop goes up to a power of two times the size that it starts from.
double_up-eq :
    (k fuel size : ℕ) → 0 < size → k ≤ fuel → double_up fuel size (size * 2 ^ k) ≡ size * 2 ^ k
unfolding double_up
double_up-eq zero zero size p h = omega arith
double_up-eq zero (suc fuel) size p h = elim (Bool-cases (leb (size * 2) (size * 2 ^ 0))) [
  | inl e ↦ absurd (omega (arith, leb→le _ _ e))
  | inr e ↦ rw e (omega arith)
]
double_up-eq (suc k) zero size p h = absurd (omega arith)
double_up-eq (suc k) (suc fuel) size p h =
    let fits : leb (size * 2) (size * 2 * 2 ^ k) ≡ true =
      le→leb _ _ (times-ge (size * 2) (2 ^ k) (pow-positive k)) in
    rw (double-pow size k, fits) (double_up-eq k fuel (size * 2) (omega arith) (omega arith))

double_up-power : (fuel j average : ℕ) → (k : ℕ) × (double_up fuel (2 ^ j) average ≡ 2 ^ k)
unfolding double_up
double_up-power zero j average = (j, refl)
double_up-power (suc fuel) j average = elim (Bool-cases (leb (2 ^ j * 2) average)) [
  | inl e ↦
      let next : 2 ^ j * 2 ≡ 2 ^ (suc j) = omega arith in
      let rest = double_up-power fuel (suc j) average in
      (rest.0, rw e (ap (λ n. double_up fuel n average) next ∙ rest.1))
  | inr e ↦ (j, rw e refl)
]

power-of-is_power_of_2 : (n : ℕ) → is_power_of_2 n ≡ true → (k : ℕ) × (n ≡ 2 ^ k)
power-of-is_power_of_2 n h =
    let p = double_up-power n 0 n in (p.0, sym ((==_iff (double_up n 1 n) n).0 h) ∙ p.1)

is_power_of_2-pow : (k : ℕ) → is_power_of_2 (2 ^ k) ≡ true
is_power_of_2-pow k = (==_iff (double_up (2 ^ k) 1 (2 ^ k)) (2 ^ k)).1 (
    ap (λ n. double_up (2 ^ k) 1 n) (omega arith)
    ∙ double_up-eq k (2 ^ k) 1 (omega arith) (omega (arith, lt-pow k))
    ∙ omega arith)

-- What the creation of a maker for chunks of an average size comes to: a maker that has no data yet, or
-- a refusal.
pub data Creation (size : ℕ) : Option (Settings × ChunkMaker) → Type 0 where
  created :
      (k : ℕ) (s : Settings) (maker : ChunkMaker)
      → size ≡ 2 ^ k
      → s.hash_mask ≡ 2 ^ k - 1
      → IsSound s
      → IsMaker s maker
      → pending maker ≡ []
      → Creation size (some (s, maker))
  refused : ((k : ℕ) → size ≢ 2 ^ k) → Creation size none

not_power : (n : ℕ) → is_power_of_2 n ≡ false → (k : ℕ) → n ≢ 2 ^ k
not_power n h k e = let p : is_power_of_2 n ≡ true = ap is_power_of_2 e ∙ is_power_of_2-pow k in cc

pending-nothing :
    (maker : ChunkMaker) → maker.buffer_size ≡ 0 → maker.chunk ≡ [] → pending maker ≡ []
pending-nothing maker e f = rw (e, f) refl

-- A maker with an empty buffer of the right length.
IsMaker-empty :
    (s : Settings) (maker : ChunkMaker)
    → IsSound s
    → length maker.buffer ≡ s.buffer_capacity
    → maker.buffer_size ≡ 0
    → maker.buffer_start ≡ 0
    → maker.minimum_reached ≡ false
    → maker.chunk ≡ []
    → IsMaker s maker
IsMaker-empty s maker sound room size start fresh empty = record {
  is_buffer = record {
    room = room;
    start_in = omega (arith, sound.twice, sound.some_minimum);
    size_in = omega arith;
  };
  fresh = λ _. empty;
  enough = λ e. absurd (cc);
  not_full = λ e. absurd (cc);
}

module _ (sha256 : List ℕ → List ℕ) (config : Config) where
  -- A file chunk maker is created exactly when the average chunk size is a power of two, where the
  -- minimum is above 0 and below the maximum. Its hash mask is one less, it has no data, and it meets
  -- what AddData needs.
  pub create_file_chunk_maker-Creation :
      0 < config.minimum_chunk_size
      → config.minimum_chunk_size < config.maximum_chunk_size
      → Creation config.average_chunk_size (create_file_chunk_maker sha256 config)
  unfolding create_file_chunk_maker start_new_chunk
  create_file_chunk_maker-Creation low high =
      elim (Bool-cases (is_power_of_2 config.average_chunk_size)) [
        | inl e ↦
            let p = power-of-is_power_of_2 config.average_chunk_size e in
            let s : Settings = settings_of sha256 config in
            let maker : ChunkMaker = maker_of sha256 config.minimum_chunk_size in
            let sound : IsSound s = record {
              some_minimum = low;
              below_maximum = high;
              twice = refl;
            } in
            rw e (
              created (p.0) s maker (p.1) (ap (λ n. n - 1) (p.1)) sound
                (IsMaker-empty s maker sound (length-replicate _ 0) refl refl refl refl)
                (pending-nothing maker refl refl))
        | inr e ↦ rw e (refused (not_power config.average_chunk_size e))
      ]

  -- Where the average chunk size is a power of two, a maker for metadata with chunks of at least four
  -- bytes is created exactly when its chunk size is a power of two. Its hash mask is one less, it has no
  -- data, and it meets what AddData needs.
  create_metadata_chunk_maker-Creation :
      (k chunk_size : ℕ)
      → config.average_chunk_size ≡ 2 ^ k
      → 4 ≤ chunk_size
      → Creation chunk_size (create_metadata_chunk_maker sha256 config chunk_size)
  unfolding create_metadata_chunk_maker create_file_chunk_maker start_new_chunk
  create_metadata_chunk_maker-Creation k chunk_size e h =
      let made : is_power_of_2 config.average_chunk_size ≡ true =
        ap is_power_of_2 e ∙ is_power_of_2-pow k in
      elim (Bool-cases (is_power_of_2 chunk_size)) [
        | inl f ↦
            let p = power-of-is_power_of_2 chunk_size f in
            let new : Settings × ChunkMaker =
              for_metadata sha256 chunk_size
                (settings_of sha256 config, maker_of sha256 config.minimum_chunk_size) in
            let sound : IsSound (new.0) = record {
              some_minimum = omega arith;
              below_maximum = omega arith;
              twice = refl;
            } in
            rw (f, made)
              (created (p.0) (new.0) (new.1) (p.1) (ap (λ n. n - 1) (p.1)) sound
                (IsMaker-empty (new.0) (new.1) sound (length-replicate _ 0) refl refl refl refl)
                (pending-nothing (new.1) refl refl))
        | inr f ↦ rw f (refused (not_power chunk_size f))
      ]
