-- ===== src/Scan/Rounds.antt =====
-- scan.hpp, scanMiniBlock: the rounds of the sweeps over a power of two elements.
use alpaka.Base.{
  ℕ, zero, suc, ◌+◌, ◌*◌, ◌/◌, ◌^◌, ◌<◌, ◌≤◌, ◌≡◌, refl, ap, ◌∙◌, arith, some, lt→ltb, ltb-false,
  pow_pos,
}
use alpaka.Scan.{Block, up_inner, up_sweep, down_inner, down_sweep}

module _ {A : Type 0} (add : A → A → A) where
  -- The stages of the sweeps over 2 ^ m elements.
  unfoldable pub up_all : ℕ → ℕ → Block A → Block A
  up_all zero s f = f
  up_all (suc m) s f = up_all m (s * 2) (up_inner add s (2 ^ m) 0 f)

  unfoldable pub down_all : ℕ → ℕ → Block A → Block A
  down_all zero s f = f
  down_all (suc m) s f = down_inner add s (2 ^ m) 0 (down_all m (s * 2) f)

  pub pow-le : (i r : ℕ) → 2 ^ i ≤ 2 ^ (i + r)
  pow-le i zero = omega (arith, ap (λ k. 2 ^ k) {x = i + 0} {y = i} (omega arith))
  pow-le i (suc r) =
      omega (arith, pow-le i r, ap (λ k. 2 ^ k) {x = i + suc r} {y = suc (i + r)} (omega arith))

  pub half_pow : (m : ℕ) → 2 ^ suc m / 2 ≡ 2 ^ m
  half_pow m = omega arith

  up_more :
      (fuel d s : ℕ) (f : Block A)
      → 0 < d
      → up_sweep add (suc fuel) d s f ≡ up_sweep add fuel (d / 2) (s * 2) (up_inner add s d 0 f)
  unfolding up_sweep
  up_more fuel d s f h = rw (lt→ltb 0 d h, up_sweep) refl

  down_more :
      (fuel extent d s : ℕ) (f : Block A)
      → d < extent
      → down_sweep add (suc fuel) extent d s f
        ≡ down_sweep add fuel extent (d * 2) (s / 2) (down_inner add s d 0 f)
  unfolding down_sweep
  down_more fuel extent d s f h = rw (lt→ltb d extent h, down_sweep) refl

  down_done :
      (fuel extent d s : ℕ) (f : Block A)
      → extent ≤ d
      → down_sweep add (suc fuel) extent d s f ≡ some f
  unfolding down_sweep
  down_done fuel extent d s f h = rw (ltb-false d extent h, down_sweep) refl

  pow-lt : (i r : ℕ) → 2 ^ i < 2 ^ (i + suc r)
  pow-lt i r = omega (
    arith,
    pow_pos (i + r),
    pow-le i r,
    ap (λ k. 2 ^ k) {x = i + suc r} {y = suc (i + r)} (omega arith),
  )

  pub up_sweep-up_all :
      (m s : ℕ) (f : Block A) → up_sweep add (suc m) (2 ^ m / 2) s f ≡ some (up_all m s f)
  unfolding up_sweep up_all
  up_sweep-up_all zero s f = refl
  up_sweep-up_all (suc m) s f =
      up_more (suc m) (2 ^ suc m / 2) s f (omega (arith, half_pow m, pow_pos m))
      ∙ ap (λ d. up_sweep add (suc m) (d / 2) (s * 2) (up_inner add s d 0 f)) (half_pow m)
      ∙ up_sweep-up_all m (s * 2) (up_inner add s (2 ^ m) 0 f)

  pub down_sweep-down_all :
      (i r : ℕ) (f : Block A)
      → down_sweep add (suc r) (2 ^ (i + r)) (2 ^ i) (2 ^ r / 2) (down_all i (2 ^ r) f)
        ≡ some (down_all (i + r) 1 f)
  unfolding down_sweep down_all
  down_sweep-down_all i zero f =
      down_done 0 (2 ^ (i + 0)) (2 ^ i) (2 ^ 0 / 2) (down_all i 1 f)
        (omega (arith, ap (λ k. 2 ^ k) {x = i + 0} {y = i} (omega arith)))
      ∙ ap (λ k. some (down_all k 1 f)) {x = i} {y = i + 0} (omega arith)
  down_sweep-down_all i (suc r) f =
      down_more (suc r) (2 ^ (i + suc r)) (2 ^ i) (2 ^ suc r / 2) (down_all i (2 ^ suc r) f)
        (pow-lt i r)
      ∙ ap
          (λ o.
            down_sweep add (suc r) (2 ^ (i + suc r)) (2 ^ i * 2) (o / 2)
              (down_inner add o (2 ^ i) 0 (down_all i (2 ^ suc r) f)))
          (half_pow r)
      ∙ ap
          (λ o.
            down_sweep add (suc r) (2 ^ (i + suc r)) (2 ^ i * 2) (2 ^ r / 2)
              (down_inner add (2 ^ r) (2 ^ i) 0 (down_all i o f)))
          {y = 2 ^ r * 2} (omega arith)
      ∙ ap
          (λ k. down_sweep add (suc r) (2 ^ k) (2 ^ i * 2) (2 ^ r / 2) (down_all (suc i) (2 ^ r) f))
          {y = suc i + r} (omega arith)
      ∙ ap
          (λ d. down_sweep add (suc r) (2 ^ (suc i + r)) d (2 ^ r / 2) (down_all (suc i) (2 ^ r) f))
          {y = 2 ^ suc i} (omega arith)
      ∙ down_sweep-down_all (suc i) r f
      ∙ ap (λ k. some (down_all k 1 f)) {x = suc i + r} {y = i + suc r} (omega arith)
