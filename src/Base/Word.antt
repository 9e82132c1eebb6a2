-- ===== src/Base/Word.antt =====
-- w-bit unsigned arithmetic: the wrap-around of C++'s unsigned integers.
use Prim.Native.Nat.{ℕ, ◌+◌, ◌-◌, ◌*◌, ◌/◌, ◌%◌, ◌^◌, ◌<◌}
use mathlib.Core.Path.{◌≡◌, sym, ap, ◌∙◌}
use native.Mathlib.Nat.{
  mod-eq_of_lt, mod-add-mod, add-mod-mod, mod-mod, mod-lt, add-mod_right, one-le-pow, mul_comm,
}
use native.Mathlib.Nat.{mod-add-div, add-mul-mod_self_left}
use native.Mathlib.Omega.{arith}

-- The value that a w-bit unsigned integer keeps of a number.
unfoldable pub wrap : ℕ → ℕ → ℕ
wrap w n = n % 2 ^ w

abbrev pub add_w : ℕ → ℕ → ℕ → ℕ
add_w w a b = wrap w (a + b)

abbrev pub mul_w : ℕ → ℕ → ℕ → ℕ
mul_w w a b = wrap w (a * b)

-- `a - b` on w bits; `-` on ℕ stops at 0, so the modulus is added first.
abbrev pub sub_w : ℕ → ℕ → ℕ → ℕ
sub_w w a b = wrap w (a + 2 ^ w - b)

pub pow_pos : (w : ℕ) → 0 < 2 ^ w
pow_pos w = one-le-pow w 2 (omega arith)

pub wrap-lt : (w n : ℕ) → wrap w n < 2 ^ w
unfolding wrap
wrap-lt w n = mod-lt n (pow_pos w)

pub wrap_small : (w : ℕ) {n : ℕ} → n < 2 ^ w → wrap w n ≡ n
unfolding wrap
wrap_small w h = mod-eq_of_lt h

pub wrap-wrap : (w n : ℕ) → wrap w (wrap w n) ≡ wrap w n
unfolding wrap
wrap-wrap w n = mod-mod n (2 ^ w)

pub wrap-add_left : (w a b : ℕ) → wrap w (wrap w a + b) ≡ wrap w (a + b)
unfolding wrap
wrap-add_left w a b = mod-add-mod a (2 ^ w) b

pub wrap-add_right : (w a b : ℕ) → wrap w (a + wrap w b) ≡ wrap w (a + b)
unfolding wrap
wrap-add_right w a b = add-mod-mod a b (2 ^ w)

split : (a b m : ℕ) → a * b ≡ a % m * b + m * (a / m * b)
split a b m = omega (arith, ap (λ (t : ℕ). t * b) (mod-add-div a m))

pub wrap-mul_left : (w a b : ℕ) → wrap w (wrap w a * b) ≡ wrap w (a * b)
unfolding wrap
wrap-mul_left w a b =
    sym (ap (λ t. t % 2 ^ w) (split a b (2 ^ w)) ∙ add-mul-mod_self_left (a % 2 ^ w * b) (2 ^ w) _)

pub wrap-mul_right : (w a b : ℕ) → wrap w (a * wrap w b) ≡ wrap w (a * b)
wrap-mul_right w a b =
    ap (wrap w) (mul_comm a (wrap w b)) ∙ wrap-mul_left w b a ∙ ap (wrap w) (mul_comm b a)

pub wrap-add_modulus : (w n : ℕ) → wrap w (n + 2 ^ w) ≡ wrap w n
unfolding wrap
wrap-add_modulus w n = add-mod_right n (2 ^ w)
