-- ===== src/Philox.antt =====
-- include/alpaka/rand/engine/philox: the counter-based random number engine Philox4x32. A counter has
-- four 32-bit words, a key two; the lowest word comes first.
pub mod Counting
pub mod Numbers
pub mod Skipping
pub mod Rounds
mod Examples
use Prim.Native.Nat.{bit_xor}
use alpaka.Base.{
  ℕ, zero, suc, ◌+◌, ◌*◌, ◌/◌, ◌%◌, ◌^◌, ◌==◌, List, [], ◌∷◌, ltb, if◌then◌else◌, wrap, add_w,
  sub_w, mul_w,
}

pub record Counter : Type 0 where
  pub c0 : ℕ
  pub c1 : ℕ
  pub c2 : ℕ
  pub c3 : ℕ

pub record Key : Type 0 where
  pub k0 : ℕ
  pub k1 : ℕ

-- multiplyAndSplit64to32.hpp: `x >> 32` and `x & 0xffffffff`, both of a 64-bit number.
unfoldable pub high32_bits : ℕ → ℕ
high32_bits x = wrap 32 (x / 2 ^ 32)

unfoldable pub low32_bits : ℕ → ℕ
low32_bits x = x % 2 ^ 32

-- The high and the low half of the 64-bit product.
unfoldable pub multiply_and_split : ℕ → ℕ → ℕ × ℕ
unfolding high32_bits low32_bits
multiply_and_split a b = (high32_bits (mul_w 64 a b), low32_bits (mul_w 64 a b))

abbrev pub weyl_64_0 : ℕ
weyl_64_0 = 0x9E3779B97F4A7C15

abbrev pub weyl_64_1 : ℕ
weyl_64_1 = 0xBB67AE8584CAA73B

unfoldable pub weyl_32_0 : ℕ
unfolding high32_bits
weyl_32_0 = high32_bits weyl_64_0

unfoldable pub weyl_32_1 : ℕ
unfolding high32_bits
weyl_32_1 = high32_bits weyl_64_1

abbrev pub multiplier_0 : ℕ
multiplier_0 = 0xCD9E8D57

abbrev pub multiplier_1 : ℕ
multiplier_1 = 0xD2511F53

-- PhiloxStateless.hpp: one round of the shuffle, the step of the key, and all rounds.
unfoldable pub single_round : Counter → Key → Counter
unfolding multiply_and_split
single_round c k =
    let (h0, l0) = multiply_and_split c.c0 multiplier_0 in
    let (h1, l1) = multiply_and_split c.c2 multiplier_1 in
    record {
      c0 = bit_xor (bit_xor h1 c.c1) k.k0;
      c1 = l1;
      c2 = bit_xor (bit_xor h0 c.c3) k.k1;
      c3 = l0;
    }

unfoldable pub bump_key : Key → Key
unfolding weyl_32_0 weyl_32_1
bump_key k = record { k0 = add_w 32 k.k0 weyl_32_0; k1 = add_w 32 k.k1 weyl_32_1 }

-- The loop of `nRounds`, with the number of iterations left.
unfoldable pub round_loop : ℕ → Counter → Key → Counter
unfolding single_round bump_key
round_loop zero c k = c
round_loop (suc n) c k = round_loop n (single_round c (bump_key k)) (bump_key k)

unfoldable pub n_rounds : ℕ → Counter → Key → Counter
unfolding single_round round_loop
n_rounds rounds counter_in key_in = round_loop rounds (single_round counter_in key_in) key_in

-- PhiloxBaseCommon.hpp: the three ways to move the counter.
unfoldable pub advance_counter : Counter → Counter
advance_counter c =
    let d0 = add_w 32 c.c0 1 in
    let d1 = add_w 32 c.c1 1 in
    let d2 = add_w 32 c.c2 1 in
    let d3 = add_w 32 c.c3 1 in
    if d0 == 0
    then (if d1 == 0
        then (if d2 == 0
            then record { c0 = d0; c1 = d1; c2 = d2; c3 = d3 }
            else record { c0 = d0; c1 = d1; c2 = d2; c3 = c.c3 })
        else record { c0 = d0; c1 = d1; c2 = c.c2; c3 = c.c3 })
    else record { c0 = d0; c1 = c.c1; c2 = c.c2; c3 = c.c3 }

unfoldable pub skip4 : ℕ → Counter → Counter
unfolding high32_bits low32_bits
skip4 offset temp =
    let d0 = add_w 32 temp.c0 (low32_bits offset) in
    record {
      c0 = d0;
      c1 = add_w 32 temp.c1 (add_w 32 (high32_bits offset) (if ltb d0 temp.c0 then 1 else 0));
      c2 = add_w 32 temp.c2 (if ltb d0 temp.c1 then 1 else 0);
      c3 = add_w 32 temp.c3 (if ltb d0 temp.c2 then 1 else 0);
    }

unfoldable pub skip_subsequence : ℕ → Counter → Counter
unfolding high32_bits low32_bits
skip_subsequence subsequence temp =
    let d2 = add_w 32 temp.c2 (low32_bits subsequence) in
    record {
      c0 = temp.c0;
      c1 = temp.c1;
      c2 = d2;
      c3 = add_w 32 temp.c3 (add_w 32 (high32_bits subsequence) (if ltb d2 temp.c2 then 1 else 0));
    }

abbrev pub zero_counter : Counter
zero_counter = record { c0 = 0; c1 = 0; c2 = 0; c3 = 0 }

unfoldable pub seed_key : ℕ → Key
unfolding high32_bits low32_bits
seed_key seed = record { k0 = low32_bits seed; k1 = high32_bits seed }

-- PhiloxVector.hpp: the state is the counter and the key; a call returns four numbers.
pub record VectorState : Type 0 where
  pub vector_counter : Counter
  pub vector_key : Key

unfoldable pub next_vector : ℕ → VectorState → Counter × VectorState
unfolding advance_counter n_rounds
next_vector rounds s =
    let counter = advance_counter s.vector_counter in
    (n_rounds rounds counter s.vector_key, record s { vector_counter = counter })

unfoldable pub make_vector : ℕ → ℕ → ℕ → ℕ → VectorState
unfolding skip_subsequence skip4 seed_key next_vector
make_vector rounds seed subsequence offset =
    (next_vector rounds (record {
      vector_counter = skip4 offset (skip_subsequence subsequence zero_counter);
      vector_key = seed_key seed;
    })).1

-- PhiloxSingle.hpp: the state also has the last four numbers and the number of those given out.
pub record SingleState : Type 0 where
  pub counter : Counter
  pub key : Key
  pub result : Counter
  pub position : ℕ

unfoldable pub advance_state : ℕ → SingleState → SingleState
unfolding advance_counter n_rounds
advance_state rounds s =
    let counter = advance_counter s.counter in
    record { counter = counter; key = s.key; result = n_rounds rounds counter s.key; position = 0 }

-- The numbers move down by one, the last one stays.
unfoldable pub shift : Counter → Counter
shift r = record { c0 = r.c1; c1 = r.c2; c2 = r.c3; c3 = r.c3 }

unfoldable pub next_number : ℕ → SingleState → ℕ × SingleState
unfolding advance_state shift
next_number rounds s =
    let position = add_w 32 s.position 1 in
    (
      s.result.c0,
      if position == 4
          then advance_state rounds (record s { position = position })
          else record s { result = shift s.result; position = position },
    )

unfoldable pub shift_times : ℕ → Counter → Counter
unfolding shift
shift_times zero r = r
shift_times (suc n) r = shift_times n (shift r)

unfoldable pub skip : ℕ → SingleState → SingleState
unfolding shift_times skip4
skip offset s =
    let moved = add_w 32 s.position (offset % 4) in
    let past = add_w 64 offset (if ltb moved 4 then 0 else 4) in
    let position = sub_w 32 moved (if ltb moved 4 then 0 else 4) in
    record {
      counter = skip4 (past / 4) s.counter;
      key = s.key;
      result = shift_times position s.result;
      position = position;
    }

unfoldable pub make_single : ℕ → ℕ → ℕ → ℕ → SingleState
unfolding skip_subsequence skip advance_state seed_key
make_single rounds seed subsequence offset = advance_state rounds (
    skip offset (record {
      counter = skip_subsequence subsequence zero_counter;
      key = seed_key seed;
      result = zero_counter;
      position = 0;
    }))
