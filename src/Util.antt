-- ===== src/Util.antt =====
-- include/alpaka/utility.hpp: integer helpers on w-bit unsigned integers.
pub mod Power
pub mod Root
pub mod Ceil
mod Examples
use alpaka.Base.{
  ℕ, zero, suc, ◌+◌, ◌-◌, ◌*◌, ◌/◌, ◌%◌, ◌<◌, ◌^◌, max, Bool, true, false, not, Option, none, some,
  ◌==◌, leb, ltb, if◌then◌else◌, add_w, sub_w, mul_w, wrap,
}

-- `(a + b - Integral{1}) / b`
unfoldable pub div_ceil : ℕ → ℕ → ℕ → ℕ
div_ceil w a b = sub_w w (add_w w a b) 1 / b

unfoldable pub div_ex_zero : ℕ → ℕ → ℕ
div_ex_zero a b = max (a / b) 1

-- The loop of `intPow`, with the number of rounds left.
unfoldable pub int_pow_loop : ℕ → ℕ → ℕ → ℕ → ℕ
int_pow_loop w base r zero = r
int_pow_loop w base r (suc rounds) = int_pow_loop w base (mul_w w r base) rounds

unfoldable pub int_pow : ℕ → ℕ → ℕ → ℕ
unfolding int_pow_loop
int_pow w base n = if n == 0 then 1 else int_pow_loop w base base (n - 1)

-- The loop of `nthRootFloor`: `while(L != R - 1)` with its bisection; `none` if the fuel runs out.
unfoldable pub root_loop : ℕ → ℕ → ℕ → ℕ → ℕ → ℕ → Option ℕ
unfolding int_pow
root_loop w zero value n l r = none
root_loop w (suc fuel) value n l r =
    let m = add_w w l r / 2 in
    elim (l == sub_w w r 1) [
      | true ↦ some l
      | false ↦ elim (leb (int_pow w m n) value) [
        | true ↦ root_loop w fuel value n m r
        | false ↦ root_loop w fuel value n l m
      ]
    ]

unfoldable pub nth_root_floor : ℕ → ℕ → ℕ → ℕ → Option ℕ
unfolding root_loop
nth_root_floor w fuel value n = root_loop w fuel value n 0 (add_w w value 1)

-- `ipow(base, exponent)`: the recursion halves the exponent; the fuel bounds its depth.
unfoldable pub ipow_fuel : ℕ → ℕ → ℕ → ℕ → ℕ
ipow_fuel w zero base exponent = 1
ipow_fuel w (suc fuel) base exponent =
    let half = ipow_fuel w fuel base (exponent / 2) in
    let square = mul_w w half half in
    if exponent == 0 then 1 else if exponent % 2 == 0 then square else mul_w w square base

unfoldable pub ipow : ℕ → ℕ → ℕ → ℕ
unfolding ipow_fuel
ipow w base exponent = ipow_fuel w (suc exponent) base exponent
