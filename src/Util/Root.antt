-- ===== src/Util/Root.antt =====
-- utility.hpp, nthRootFloor: the bisection finds the floor of the root, except at the largest value.
use native.Mathlib.Nat.{pow-suc, pow-le-pow_left, one-le-pow}
use alpaka.Base.{
  ℕ, zero, suc, ◌+◌, ◌-◌, ◌*◌, ◌/◌, ◌^◌, ◌<◌, ◌≤◌, ◌≡◌, refl, sym, subst, ap, ◌∙◌, arith, ◌==◌,
  ==_iff, Option, some, none, false, Bool-cases, inl, inr, wrap, add_w, sub_w, wrap_small,
  wrap-add_modulus, dec_le, le→leb, lt→leb_false, pow_pos,
}
use alpaka.Util.{int_pow, root_loop, nth_root_floor}
use alpaka.Util.Power.{int_pow-wrap, int_pow-lt, one-lt-pow}

-- The floor of the n-th root.
abbrev pub IsRootFloor : ℕ → ℕ → Option ℕ → Type 0
IsRootFloor value n none = ⊥
IsRootFloor value n (some l) = (l ^ n ≤ value) × (value < (l + 1) ^ n)

int_pow_exact : (w b n : ℕ) → 0 < w → b < 2 ^ w → b ^ n < 2 ^ w → int_pow w b n ≡ b ^ n
int_pow_exact w b n p fb fits =
    sym (wrap_small w (int_pow-lt w b n p fb)) ∙ int_pow-wrap w b n ∙ wrap_small w fits

root_done : (w fuel value n l r : ℕ) → l ≡ sub_w w r 1 → root_loop w (suc fuel) value n l r ≡ some l
unfolding root_loop
root_done w fuel value n l r e = rw ((==_iff l (sub_w w r 1)).1 e, root_loop) refl

module _ (w fuel value n l r : ℕ) (open_gap : (l == sub_w w r 1) ≡ false) where
  root_lower :
      int_pow w (add_w w l r / 2) n ≤ value
      → root_loop w (suc fuel) value n l r ≡ root_loop w fuel value n (add_w w l r / 2) r
  unfolding root_loop
  root_lower h = rw (open_gap, le→leb _ value h, root_loop) refl

  root_upper :
      value < int_pow w (add_w w l r / 2) n
      → root_loop w (suc fuel) value n l r ≡ root_loop w fuel value n l (add_w w l r / 2)
  unfolding root_loop
  root_upper h = rw (open_gap, lt→leb_false _ value h, root_loop) refl

sub_one_exact : (w r : ℕ) → 0 < r → r < 2 ^ w → sub_w w r 1 ≡ r - 1
sub_one_exact w r p fits =
    ap (wrap w) {y = (r - 1) + 2 ^ w} (omega arith)
    ∙ wrap-add_modulus w (r - 1)
    ∙ wrap_small w (omega arith)

-- The invariant of the bisection: the root lies between the two ends.
root_loop-IsRootFloor :
    (w fuel value n l r : ℕ)
    → 0 < w
    → 2 * value + 1 < 2 ^ w
    → value ^ n < 2 ^ w
    → l < r
    → r ≤ value + 1
    → r ≤ l + fuel
    → l ^ n ≤ value
    → value < r ^ n
    → IsRootFloor value n (root_loop w fuel value n l r)
root_loop-IsRootFloor w zero value n l r p fits small lt le f lo hi = absurd (omega arith)
root_loop-IsRootFloor w (suc fuel) value n l r p fits small lt le f lo hi =
    elim (Bool-cases (l == sub_w w r 1)) [
      | inl done ↦
          let e : l + 1 ≡ r = omega (arith, (==_iff l (sub_w w r 1)).0 done, minus) in
          rw (root_done w fuel value n l r ((==_iff l (sub_w w r 1)).0 done))
            (lo, subst (λ t. value < t ^ n) (sym e) hi)
      | inr more ↦
          let gap : l + 1 < r = gap_of more in
          elim (dec_le (int_pow w (add_w w l r / 2) n) value) [
            | yes q ↦ rw (root_lower w fuel value n l r more q) (
                root_loop-IsRootFloor w fuel value n (add_w w l r / 2) r p fits small
                  (omega (arith, mid)) le (omega (arith, mid))
                  (subst (λ t. t ≤ value) (power gap) q) hi)
            | no q ↦ rw (root_upper w fuel value n l r more (omega arith)) (
                root_loop-IsRootFloor w fuel value n l (add_w w l r / 2) p fits small
                  (omega (arith, mid)) (omega (arith, mid)) (omega (arith, mid)) lo
                  (subst (λ t. value < t) (power gap) (omega arith)))
          ]
    ]
  where
    minus : sub_w w r 1 ≡ r - 1
    minus = sub_one_exact w r (omega arith) (omega arith)

    gap_of : (l == sub_w w r 1) ≡ false → l + 1 < r
    gap_of m = ground (arith, m, minus)

    mid : add_w w l r ≡ l + r
    mid = wrap_small w (omega arith)

    power : l + 1 < r → int_pow w (add_w w l r / 2) n ≡ (add_w w l r / 2) ^ n
    power g =
        int_pow_exact w (add_w w l r / 2) n p (omega (arith, mid))
          (omega (arith, pow-le-pow_left {n = add_w w l r / 2} {m = value} (omega (arith, mid)) n))

-- For a positive width and exponent, and a value whose power and whose double plus one are below 2 ^ w,
-- the loop ends after at most value + 1 rounds with the floor of the root.
pub nth_root_floor-IsRootFloor :
    (w value n : ℕ)
    → 0 < w
    → 0 < n
    → 2 * value + 1 < 2 ^ w
    → value ^ n < 2 ^ w
    → IsRootFloor value n (nth_root_floor w (suc value) value n)
unfolding nth_root_floor
nth_root_floor-IsRootFloor w value n p q fits small =
    rw (wrap_small w {n = value + 1} (omega arith)) (
      root_loop-IsRootFloor w (suc value) value n 0 (value + 1) p fits small (omega arith)
        (omega arith) (omega arith) (omega (arith, zero_pow n q)) (above value n q))
  where
    zero_pow : (n : ℕ) → 0 < n → 0 ^ n ≡ 0
    zero_pow zero h = absurd (omega arith)
    zero_pow (suc n) h = pow-suc 0 n ∙ omega arith

    above : (v n : ℕ) → 0 < n → v < (v + 1) ^ n
    above v zero h = absurd (omega arith)
    above v (suc n) h = grind (arith, pow-suc (v + 1) n, one-le-pow n (v + 1))

root_loop_stuck : (w fuel n : ℕ) → 0 < w → root_loop w fuel (2 ^ w - 1) n 0 0 ≡ none
root_loop_stuck w zero n p = unfold root_loop in refl
root_loop_stuck w (suc fuel) n p =
    root_lower w fuel (2 ^ w - 1) n 0 0 (ground (arith, last, two))
      (omega (arith, int_pow-lt w (add_w w 0 0 / 2) n p (omega (arith, mid, two))))
    ∙ ap (λ m. root_loop w fuel (2 ^ w - 1) n m 0) {x = add_w w 0 0 / 2} {y = 0}
        (omega (arith, mid))
    ∙ root_loop_stuck w fuel n p
  where
    two : 1 < 2 ^ w
    two = one-lt-pow w p

    last : sub_w w 0 1 ≡ 2 ^ w - 1
    last = ap (wrap w) {y = 2 ^ w - 1} (omega arith) ∙ wrap_small w (omega (arith, two))

    mid : add_w w 0 0 ≡ 0
    mid = wrap_small w (omega (arith, two))

-- At the largest value of the type `value + 1` wraps around to 0, and the loop never ends: no amount
-- of fuel is enough.
pub nth_root_floor-diverges : (w fuel n : ℕ) → 0 < w → nth_root_floor w fuel (2 ^ w - 1) n ≡ none
unfolding nth_root_floor
nth_root_floor-diverges w fuel n p =
    ap (root_loop w fuel (2 ^ w - 1) n 0) (
      ap (wrap w) {y = 0 + 2 ^ w} (omega (arith, pow_pos w))
      ∙ wrap-add_modulus w 0
      ∙ wrap_small w (pow_pos w))
    ∙ root_loop_stuck w fuel n p
