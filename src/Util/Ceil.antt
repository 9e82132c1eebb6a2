-- ===== src/Util/Ceil.antt =====
-- utility.hpp, divCeil: with no overflow in `a + b` it is the quotient rounded up.
use alpaka.Base.{
  ℕ, ◌+◌, ◌-◌, ◌/◌, ◌^◌, ◌<◌, ◌≤◌, ◌≡◌, ap, ◌∙◌, arith, wrap, wrap_small, wrap-add_left,
  wrap-add_modulus, pow_pos,
}
use alpaka.Util.{div_ceil}

-- For a positive divisor and a sum of the arguments of at most 2 ^ w, the result is the quotient of
-- a + b - 1 in unbounded arithmetic, the quotient rounded up.
pub div_ceil_exact : (w a b : ℕ) → 0 < b → a + b ≤ 2 ^ w → div_ceil w a b ≡ (a + b - 1) / b
unfolding div_ceil
div_ceil_exact w a b p fits =
    ap (λ t. wrap w t / b) {y = wrap w (a + b) + (2 ^ w - 1)} (omega (arith, pow_pos w))
    ∙ ap (λ t. t / b)
        (wrap-add_left w (a + b) (2 ^ w - 1)
          ∙ ap (wrap w) {y = (a + b - 1) + 2 ^ w} (omega (arith, pow_pos w))
          ∙ wrap-add_modulus w (a + b - 1)
          ∙ wrap_small w (omega arith))
