-- ===== src/Philox/Examples.antt =====
-- Concrete inputs for the theorems on include/alpaka/rand/engine/philox.
use alpaka.Base.{◌+◌, ◌*◌, ◌/◌, ◌%◌, ◌^◌, ◌≡◌, ◌++◌, refl, arith, ltb, if◌then◌else◌, wrap}
use alpaka.Philox.{
  Counter, Key, advance_counter, skip_subsequence, skip4, make_single, make_vector, n_rounds,
  seed_key, zero_counter, multiply_and_split,
}
use alpaka.Philox.Counting.{value, IsCounter, advance_counter-value}
use alpaka.Philox.Skipping.{skip4-value, make_single-offset}
use alpaka.Philox.Numbers.{numbers, vectors, words, make_single-make_vector}
use alpaka.Philox.Rounds.{multiply_and_split-product, n_rounds-schedule, apply_rounds, schedule}

-- The words 2 ^ 32 - 1, 2 ^ 32 - 1, 5, 7; and 0, 0, 5, 7.
abbrev carrying : Counter
carrying = record { c0 = 4294967295; c1 = 4294967295; c2 = 5; c3 = 7 }

abbrev carrying-IsCounter : IsCounter carrying
carrying-IsCounter = record {
  fits0 = omega arith;
  fits1 = omega arith;
  fits2 = omega arith;
  fits3 = omega arith;
}

abbrev fresh : Counter
fresh = record { c0 = 0; c1 = 0; c2 = 5; c3 = 7 }

abbrev fresh-IsCounter : IsCounter fresh
fresh-IsCounter = record {
  fits0 = omega arith;
  fits1 = omega arith;
  fits2 = omega arith;
  fits3 = omega arith;
}

advance_counter-value_example : value (advance_counter carrying) ≡ wrap 128 (value carrying + 1)
advance_counter-value_example = advance_counter-value carrying carrying-IsCounter

skip4-value_example :
    value (skip4 3 fresh) ≡ wrap 128 (value fresh + 3 + (if ltb (3 % 2 ^ 32) 5 then 2 ^ 96 else 0))
skip4-value_example = skip4-value 3 fresh fresh-IsCounter refl refl (omega arith)

make_single-offset_example : make_single 10 42 1 7 ≡ make_single 10 42 1 (4 * (7 / 4))
make_single-offset_example = make_single-offset 10 42 1 7 (omega arith)

make_single-make_vector_example :
    numbers 10 (3 * 4) (make_single 10 42 1 (4 * 2))
    ≡ words
        (n_rounds 10 (advance_counter (skip4 2 (skip_subsequence 1 zero_counter))) (seed_key 42))
      ++ vectors 10 2 (make_vector 10 42 1 2)
make_single-make_vector_example = make_single-make_vector 10 2 42 1 2 (omega arith)

multiply_and_split-product_example :
    (multiply_and_split 4294967295 4294967295).0 * 2 ^ 32
      + (multiply_and_split 4294967295 4294967295).1
    ≡ 4294967295 * 4294967295
multiply_and_split-product_example =
    multiply_and_split-product 4294967295 4294967295 (omega arith) (omega arith)

abbrev a_key : Key
a_key = record { k0 = 42; k1 = 0 }

n_rounds-schedule_example : n_rounds 10 fresh a_key ≡ apply_rounds (schedule a_key 0 11) fresh
n_rounds-schedule_example = n_rounds-schedule 10 fresh a_key (omega arith) (omega arith)
