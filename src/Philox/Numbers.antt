-- ===== src/Philox/Numbers.antt =====
-- PhiloxSingle.hpp and PhiloxVector.hpp: the sequences of numbers that the two engines give.
use alpaka.Base.{
  ℕ, zero, suc, ◌*◌, ◌/◌, ◌%◌, ◌^◌, ◌<◌, ◌≡◌, refl, ap, ap₂, ◌∙◌, List, [], ◌∷◌, ◌++◌, arith, wrap,
}
use alpaka.Philox.{
  Counter, Key, SingleState, VectorState, next_number, next_vector, advance_state, advance_counter,
  n_rounds, shift, make_single, make_vector, skip4, skip_subsequence, zero_counter, seed_key,
  shift_times,
}
use alpaka.Philox.Skipping.{skip_fresh}

abbrev pub words : Counter → List ℕ
words c = c.c0 ∷ c.c1 ∷ c.c2 ∷ c.c3 ∷ []

-- The results of n calls of the engine with single numbers.
unfoldable pub numbers : ℕ → ℕ → SingleState → List ℕ
unfolding next_number
numbers rounds zero s = []
numbers rounds (suc n) s = let (x, next) = next_number rounds s in x ∷ numbers rounds n next

-- The numbers of n calls of the engine with vectors.
unfoldable pub vectors : ℕ → ℕ → VectorState → List ℕ
unfolding next_vector
vectors rounds zero s = []
vectors rounds (suc n) s = let (v, next) = next_vector rounds s in words v ++ vectors rounds n next

-- Four numbers are the words of the stored result; then the state advances.
four_numbers :
    (rounds n : ℕ) (c r : Counter) (k : Key)
    → numbers rounds
        (suc (suc (suc (suc n))))
        (record { counter = c; key = k; result = r; position = 0 })
      ≡ words r
        ++ numbers rounds n
            (advance_state rounds (record { counter = c; key = k; result = r; position = 0 }))
unfolding numbers next_number shift wrap advance_state
four_numbers rounds n c r k = refl

-- Where both engines have the same counter and key, the calls after an advance give the same numbers:
-- four of the single engine are one vector of the other.
pub numbers-vectors :
    (rounds n : ℕ) (s : SingleState) (v : VectorState)
    → s.counter ≡ v.vector_counter
    → s.key ≡ v.vector_key
    → numbers rounds (n * 4) (advance_state rounds s) ≡ vectors rounds n v
unfolding numbers vectors next_vector advance_state
numbers-vectors rounds zero s v h k = refl
numbers-vectors rounds (suc n) s v h k =
    ap (λ m. numbers rounds m (advance_state rounds s)) {y = suc (suc (suc (suc (n * 4))))}
      (omega arith)
    ∙ four_numbers rounds (n * 4) (advance_counter s.counter)
        (n_rounds rounds (advance_counter s.counter) s.key) s.key
    ∙ ap₂ (λ x y. words x ++ y) (ap₂ (λ c k. n_rounds rounds (advance_counter c) k) h k)
        (numbers-vectors rounds n (advance_state rounds s) (next_vector rounds v).1
          (ap advance_counter h) k)

-- The two engines from the same seed and subsequence, the single one with an offset of 4 * o numbers,
-- which has 64 bits, and the other with an offset of o vectors: the single engine first gives the four
-- numbers of one more block, which the constructor of the vector engine drops, and from then on the
-- numbers of the vectors.
pub make_single-make_vector :
    (rounds n seed subsequence o : ℕ)
    → 4 * o < 2 ^ 64
    → numbers rounds (suc n * 4) (make_single rounds seed subsequence (4 * o))
      ≡ words (
          n_rounds rounds
            (advance_counter (skip4 o (skip_subsequence subsequence zero_counter)))
            (seed_key seed))
        ++ vectors rounds n (make_vector rounds seed subsequence o)
unfolding make_single make_vector vectors
make_single-make_vector rounds n seed subsequence o h =
    ap (λ s. numbers rounds (suc n * 4) (advance_state rounds s)) (skip_fresh (4 * o) start h refl)
    ∙ ap (λ q. numbers rounds (suc n * 4) (advance_state rounds (moved q))) {x = 4 * o / 4} {y = o}
        (omega arith)
    ∙ numbers-vectors rounds (suc n) (moved o)
        (record { vector_counter = skip4 o start.counter; vector_key = seed_key seed }) refl refl
  where
    start : SingleState
    start = record {
      counter = skip_subsequence subsequence zero_counter;
      key = seed_key seed;
      result = zero_counter;
      position = 0;
    }

    moved : ℕ → SingleState
    moved q = record {
      counter = skip4 q start.counter;
      key = seed_key seed;
      result = shift_times (4 * o % 4) zero_counter;
      position = 4 * o % 4;
    }
