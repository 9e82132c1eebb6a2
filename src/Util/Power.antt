-- ===== src/Util/Power.antt =====
-- utility.hpp, the two integer powers: both compute the power modulo 2 ^ w.
use native.Mathlib.Nat.{pow-zero, pow-suc, mul_comm, mul_assoc}
use alpaka.Base.{
  ℕ, zero, suc, ◌+◌, ◌-◌, ◌*◌, ◌/◌, ◌%◌, ◌^◌, ◌<◌, ◌≡◌, ◌≢◌, sym, ap, ◌∙◌, arith, ◌==◌, ==_iff,
  if◌then◌else◌, Bool-cases, suc-==-zero, inl, inr, wrap, mul_w, wrap-lt, pow_pos, wrap-wrap,
  wrap-mul_left, wrap-mul_right,
}
use alpaka.Util.{int_pow, int_pow_loop, ipow, ipow_fuel}

pub pow-add : (b m n : ℕ) → b ^ (m + n) ≡ b ^ m * b ^ n
pow-add b m zero =
    ap (λ t. b ^ t) {y = m} (omega arith) ∙ omega (arith, ap (λ (t : ℕ). b ^ m * t) (pow-zero b))
pow-add b m (suc n) =
    ap (λ t. b ^ t) {y = suc (m + n)} (omega arith)
    ∙ pow-suc b (m + n)
    ∙ ap (λ t. t * b) (pow-add b m n)
    ∙ mul_assoc (b ^ m) (b ^ n) b
    ∙ ap (◌*◌ (b ^ m)) (sym (pow-suc b n))

int_pow_loop-wrap : (w b r n : ℕ) → wrap w (int_pow_loop w b r n) ≡ wrap w (r * b ^ n)
unfolding int_pow_loop
int_pow_loop-wrap w b r zero = ap (wrap w) (omega (arith, ap (λ (t : ℕ). r * t) (pow-zero b)))
int_pow_loop-wrap w b r (suc n) =
    int_pow_loop-wrap w b (mul_w w r b) n
    ∙ wrap-mul_left w (r * b) (b ^ n)
    ∙ ap (wrap w) (omega (arith, ap (λ (t : ℕ). r * t) (pow-suc b n)))

-- `intPow` is the power modulo 2 ^ w.
pub int_pow-wrap : (w b n : ℕ) → wrap w (int_pow w b n) ≡ wrap w (b ^ n)
unfolding int_pow
int_pow-wrap w b zero = ap (wrap w) (sym (pow-zero b))
int_pow-wrap w b (suc n) =
    ap (λ t. wrap w (if t then 1 else int_pow_loop w b b (suc n - 1))) (suc-==-zero n)
    ∙ ap (λ k. wrap w (int_pow_loop w b b k)) {x = suc n - 1} {y = n} (omega arith)
    ∙ int_pow_loop-wrap w b b n
    ∙ ap (wrap w) (mul_comm b (b ^ n) ∙ sym (pow-suc b n))

int_pow_loop-lt : (w b r n : ℕ) → r < 2 ^ w → int_pow_loop w b r n < 2 ^ w
unfolding int_pow_loop
int_pow_loop-lt w b r zero h = h
int_pow_loop-lt w b r (suc n) h = int_pow_loop-lt w b (mul_w w r b) n (wrap-lt w (r * b))

pub one-lt-pow : (k : ℕ) → 0 < k → 1 < 2 ^ k
one-lt-pow zero q = absurd (omega arith)
one-lt-pow (suc k) q = omega (arith, pow-suc 2 k, pow_pos k)

pub int_pow-lt : (w b n : ℕ) → 0 < w → b < 2 ^ w → int_pow w b n < 2 ^ w
unfolding int_pow
int_pow-lt w b n p h = ground (arith, int_pow_loop-lt w b b (n - 1) h, one-lt-pow w)

square-wrap : (w x y : ℕ) → wrap w x ≡ wrap w y → wrap w (x * x) ≡ wrap w (y * y)
square-wrap w x y h =
    sym (wrap-mul_left w x x)
    ∙ ap (λ t. wrap w (t * x)) h
    ∙ wrap-mul_left w y x
    ∙ sym (wrap-mul_right w y x)
    ∙ ap (λ t. wrap w (y * t)) h
    ∙ wrap-mul_right w y y

half_twice : (b e : ℕ) → e % 2 ≡ 0 → b ^ (e / 2) * b ^ (e / 2) ≡ b ^ e
half_twice b e h = sym (pow-add b (e / 2) (e / 2)) ∙ ap (λ t. b ^ t) (omega arith)

half_twice_odd : (b e : ℕ) → e % 2 ≢ 0 → b ^ (e / 2) * b ^ (e / 2) * b ≡ b ^ e
half_twice_odd b e h =
    ap (λ t. t * b) (sym (pow-add b (e / 2) (e / 2)))
    ∙ sym (pow-suc b (e / 2 + e / 2))
    ∙ ap (λ t. b ^ t) {x = suc (e / 2 + e / 2)} (omega arith)

-- One call of `ipow` at a nonzero exponent, from the square of its recursive call.
ipow_round :
    (w b e half : ℕ)
    → wrap w (half * half) ≡ wrap w (b ^ (e / 2) * b ^ (e / 2))
    → wrap w (if e % 2 == 0 then mul_w w half half else mul_w w (mul_w w half half) b)
      ≡ wrap w (b ^ e)
ipow_round w b e half h = elim (Bool-cases (e % 2 == 0)) [
  | inl even ↦
      rw even (wrap-wrap w (half * half) ∙ h ∙ ap (wrap w) (half_twice b e ((==_iff _ _).0 even)))
  | inr odd ↦ rw odd (
      wrap-wrap w (mul_w w half half * b)
      ∙ ap (λ t. wrap w (t * b)) h
      ∙ wrap-mul_left w (b ^ (e / 2) * b ^ (e / 2)) b
      ∙ ap (wrap w) (half_twice_odd b e (ground (arith, odd))))
]

ipow_fuel-wrap : (w fuel b e : ℕ) → e < fuel → wrap w (ipow_fuel w fuel b e) ≡ wrap w (b ^ e)
unfolding ipow_fuel
ipow_fuel-wrap w zero b e h = absurd (omega arith)
ipow_fuel-wrap w (suc fuel) b zero h = ap (wrap w) (sym (pow-zero b))
ipow_fuel-wrap w (suc fuel) b (suc e) h =
    ap (λ t. wrap w (if t then 1 else round)) (suc-==-zero e)
    ∙ ipow_round w b (suc e) (ipow_fuel w fuel b (suc e / 2))
        (square-wrap w _ _ (ipow_fuel-wrap w fuel b (suc e / 2) (omega arith)))
  where
    half : ℕ
    half = ipow_fuel w fuel b (suc e / 2)

    round : ℕ
    round = if suc e % 2 == 0 then mul_w w half half else mul_w w (mul_w w half half) b

-- `ipow` is the power modulo 2 ^ w.
pub ipow-wrap : (w b e : ℕ) → wrap w (ipow w b e) ≡ wrap w (b ^ e)
unfolding ipow
ipow-wrap w b e = ipow_fuel-wrap w (suc e) b e (omega arith)
