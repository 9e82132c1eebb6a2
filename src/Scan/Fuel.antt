-- ===== src/Scan/Fuel.antt =====
-- scan.hpp: the sweeps give the same with more fuel.
use alpaka.Base.{ℕ, zero, suc, ◌*◌, ◌/◌, ◌≤◌, ◌≡◌, arith, some, ltb, Bool-cases, inl, inr}
use alpaka.Scan.{Block, up_inner, up_sweep, down_inner, down_sweep}

module _ {A : Type 0} (add : A → A → A) where
  pub up_sweep-more :
      (fuel more d offset : ℕ) (f g : Block A)
      → up_sweep add fuel d offset f ≡ some g
      → fuel ≤ more
      → up_sweep add more d offset f ≡ some g
  unfolding up_sweep
  up_sweep-more zero more d offset f g h le = cc
  up_sweep-more (suc fuel) zero d offset f g h le = absurd (omega arith)
  up_sweep-more (suc fuel) (suc more) d offset f g h le = elim (Bool-cases (ltb 0 d)) [
    | inl t ↦
        rw (t, up_sweep)
          (up_sweep-more fuel more (d / 2) (offset * 2) (up_inner add offset d 0 f) g
            (rw (t, up_sweep) at h) (omega arith))
    | inr t ↦ rw (t, up_sweep) (rw (t, up_sweep) at h)
  ]

  pub down_sweep-more :
      (fuel more extent d offset : ℕ) (f g : Block A)
      → down_sweep add fuel extent d offset f ≡ some g
      → fuel ≤ more
      → down_sweep add more extent d offset f ≡ some g
  unfolding down_sweep
  down_sweep-more zero more extent d offset f g h le = cc
  down_sweep-more (suc fuel) zero extent d offset f g h le = absurd (omega arith)
  down_sweep-more (suc fuel) (suc more) extent d offset f g h le =
      elim (Bool-cases (ltb d extent)) [
        | inl t ↦
            rw (t, down_sweep)
              (down_sweep-more fuel more extent (d * 2) (offset / 2) (down_inner add offset d 0 f) g
                (rw (t, down_sweep) at h) (omega arith))
        | inr t ↦ rw (t, down_sweep) (rw (t, down_sweep) at h)
      ]
