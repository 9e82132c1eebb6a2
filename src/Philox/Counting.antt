-- ===== src/Philox/Counting.antt =====
-- PhiloxBaseCommon.hpp: what moving the counter does to the 128-bit number that it stands for.
use alpaka.Base.{ℕ, ◌+◌, ◌*◌, ◌^◌, ◌<◌, ◌≡◌, arith, wrap}
use alpaka.Philox.{Counter, advance_counter, skip_subsequence, low32_bits, high32_bits}

abbrev pub value : Counter → ℕ
value c = c.c0 + c.c1 * 2 ^ 32 + c.c2 * 2 ^ 64 + c.c3 * 2 ^ 96

pub record IsCounter (c : Counter) : Type 0 where
  pub fits0 : c.c0 < 2 ^ 32
  pub fits1 : c.c1 < 2 ^ 32
  pub fits2 : c.c2 < 2 ^ 32
  pub fits3 : c.c3 < 2 ^ 32

-- Advancing adds one to the counter's 128-bit number, modulo 2 ^ 128, if its words have 32 bits.
pub advance_counter-value :
    (c : Counter) → IsCounter c → value (advance_counter c) ≡ wrap 128 (value c + 1)
unfolding advance_counter wrap
advance_counter-value c h = ground arith

-- Skipping subsequences adds their number times 2 ^ 64, modulo 2 ^ 128, if the counter's words have 32
-- bits and the number has 64.
pub skip_subsequence-value :
    (s : ℕ) (c : Counter)
    → IsCounter c
    → s < 2 ^ 64
    → value (skip_subsequence s c) ≡ wrap 128 (value c + s * 2 ^ 64)
unfolding skip_subsequence low32_bits high32_bits wrap
skip_subsequence-value s c h k = ground arith
