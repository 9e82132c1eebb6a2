-- ===== src/Philox/Skipping.antt =====
-- PhiloxBaseCommon.hpp and PhiloxSingle.hpp: what the offset of a skip does.
use alpaka.Base.{
  ℕ, ◌+◌, ◌*◌, ◌/◌, ◌%◌, ◌^◌, ◌<◌, ◌≡◌, refl, sym, ap, ap₂, ◌∙◌, arith, ltb, if◌then◌else◌, wrap,
  add_w, sub_w,
}
use alpaka.Philox.{
  Counter, zero_counter, skip_subsequence, skip4, low32_bits, high32_bits, SingleState, skip,
  make_single, advance_state, seed_key, shift_times,
}
use alpaka.Philox.Counting.{value, IsCounter}

-- For a counter whose two low words are zero, as it is after a skip of subsequences from zero, and an
-- offset of 64 bits, `skip4` adds the offset, but 2 ^ 96 more where the low half of the offset is below
-- the word c2, everything modulo 2 ^ 128.
pub skip4-value :
    (o : ℕ) (c : Counter)
    → IsCounter c
    → c.c0 ≡ 0
    → c.c1 ≡ 0
    → o < 2 ^ 64
    → value (skip4 o c) ≡ wrap 128 (value c + o + (if ltb (o % 2 ^ 32) c.c2 then 2 ^ 96 else 0))
unfolding skip4 low32_bits high32_bits wrap
skip4-value o c h p q k = ground arith

past_exact :
    (o q : ℕ) → o < 2 ^ 64 → q ≡ 0 → add_w 64 o (if ltb (add_w 32 q (o % 4)) 4 then 0 else 4) ≡ o
unfolding wrap
past_exact o q h p = ground arith

position_exact :
    (o q : ℕ)
    → q ≡ 0
    → sub_w 32 (add_w 32 q (o % 4)) (if ltb (add_w 32 q (o % 4)) 4 then 0 else 4) ≡ o % 4
unfolding wrap
position_exact o q p = ground arith

-- `skip` by an offset of 64 bits in a state that has not given out a number: the numbers that it
-- drops, and the counter.
pub skip_fresh :
    (o : ℕ) (s : SingleState)
    → o < 2 ^ 64
    → s.position ≡ 0
    → skip o s ≡ record s {
      counter = skip4 (o / 4) s.counter;
      result = shift_times (o % 4) s.result;
      position = o % 4;
    }
unfolding skip
skip_fresh o s h p = ap₂ moved_by (past_exact o s.position h p) (position_exact o s.position p)
  where
    moved_by : ℕ → ℕ → SingleState
    moved_by past position = record {
      counter = skip4 (past / 4) s.counter;
      key = s.key;
      result = shift_times position s.result;
      position = position;
    }

-- The constructor of the engine with single numbers ignores the offset's remainder by 4: it gives the
-- same state for an offset of 64 bits and for that offset rounded down to a multiple of 4.
pub make_single-offset :
    (rounds seed subsequence o : ℕ)
    → o < 2 ^ 64
    → make_single rounds seed subsequence o ≡ make_single rounds seed subsequence (4 * (o / 4))
unfolding make_single advance_state
make_single-offset rounds seed subsequence o h =
    ap (advance_state rounds) (skip_fresh o start h refl)
    ∙ ap (λ q. advanced (skip4 q start.counter)) (sym quotient)
    ∙ ap (advance_state rounds) (sym (skip_fresh (4 * (o / 4)) start (omega arith) refl))
  where
    start : SingleState
    start = record {
      counter = skip_subsequence subsequence zero_counter;
      key = seed_key seed;
      result = zero_counter;
      position = 0;
    }

    advanced : Counter → SingleState
    advanced c = advance_state rounds (record start { counter = c })

    quotient : 4 * (o / 4) / 4 ≡ o / 4
    quotient = omega arith
