-- ===== src/Flat/Slots.antt =====
-- The split of a linear domain into slots whose sizes differ by one at most: which slot holds which
-- number.
use native.Mathlib.Nat.{div-add-mod, mod-lt, div-lt_iff_lt-mul}
use alpaka.Base.{
  ℕ, zero, suc, ◌+◌, ◌-◌, ◌*◌, ◌/◌, ◌%◌, ◌^◌, ◌≤◌, ◌<◌, ◌≡◌, min, sym, subst, ap, ◌∙◌, arith,
  wrap_small, dec_lt, ltb, lt→ltb, ltb-false, if◌then◌else◌, wrap,
}
use alpaka.Flat.{slot_begin}

-- The first number of slot s in unbounded arithmetic: n numbers over m slots.
unfoldable pub slot_start : ℕ → ℕ → ℕ → ℕ
slot_start n m s = s * (n / m) + min s (n % m)

-- The slot that holds number k.
unfoldable pub slot_owner : ℕ → ℕ → ℕ → ℕ
slot_owner n m k =
    let base = n / m in
    let rem = n % m in
    if ltb k (rem * (base + 1)) then k / (base + 1) else rem + (k - rem * (base + 1)) / base

pub slot_start_mono : (n m s t : ℕ) → s ≤ t → slot_start n m s ≤ slot_start n m t
unfolding slot_start
slot_start_mono n m s t h = grind arith

pub slot_start_last : (n m : ℕ) → 0 < m → slot_start n m m ≡ n
unfolding slot_start
slot_start_last n m h = omega (arith, div-add-mod n m, mod-lt n h)

slot_start-le : (n m s : ℕ) → 0 < m → s ≤ m → s * (n / m) + min s (n % m) ≤ n
unfolding slot_start
slot_start-le n m s p h = omega (arith, slot_start_mono n m s m h, slot_start_last n m p)

-- `slot_begin` does not wrap around.
pub slot_begin_exact :
    (w n m s : ℕ) → 0 < m → s ≤ m → n < 2 ^ w → slot_begin w n m s ≡ slot_start n m s
unfolding slot_begin slot_start
slot_begin_exact w n m s p h fits =
    ap (λ t. wrap w (t + min s (n % m))) (wrap_small w (omega (arith, slot_start-le n m s p h)))
    ∙ wrap_small w (omega (arith, slot_start-le n m s p h))

-- A slot of `len + 1` numbers, before the remainder is used up.
large_slot :
    (b r k : ℕ)
    → k < r * (b + 1)
    → (k / (b + 1) < r)
      × (k / (b + 1) * b + min (k / (b + 1)) r ≤ k)
      × (k < (k / (b + 1) + 1) * b + min (k / (b + 1) + 1) r)
large_slot b r k h = (below, omega (arith, below, whole), omega (arith, below, whole, left))
  where
    below : k / (b + 1) < r
    below = (div-lt_iff_lt-mul {k = b + 1} (omega arith)).1 h

    whole : (b + 1) * (k / (b + 1)) + k % (b + 1) ≡ k
    whole = div-add-mod k (b + 1)

    left : k % (b + 1) < b + 1
    left = mod-lt k (omega arith)

quotient_below :
    (c r d k : ℕ)
    → r * (suc c + 1) ≤ k
    → k < (r + d) * suc c + r
    → r + (k - r * (suc c + 1)) / suc c < r + d
quotient_below c r d k h q = omega (arith, quotient)
  where
    quotient : (k - r * (suc c + 1)) / suc c < d
    quotient = (div-lt_iff_lt-mul {k = suc c} (omega arith)).1 (omega arith)

few_large : (c r m k : ℕ) → r * (suc c + 1) ≤ k → k < m * suc c + r → m ≤ r → ⊥
few_large c r m k h q le = grind arith

small_below :
    (c r m k : ℕ) → r * (suc c + 1) ≤ k → k < m * suc c + r → r + (k - r * (suc c + 1)) / suc c < m
small_below c r m k h q = elim (dec_lt r m) [
  | yes lt ↦
      let e : r + (m - r) ≡ m = omega arith in
      subst (λ t. r + (k - r * (suc c + 1)) / suc c < t) e
        (quotient_below c r (m - r) k h (subst (λ t. k < t * suc c + r) (sym e) q))
  | no ge ↦ absurd (few_large c r m k h q (omega arith))
]

-- A slot of `len` numbers, after the remainder is used up.
small_slot :
    (b r m k : ℕ)
    → r * (b + 1) ≤ k
    → k < m * b + r
    → (r + (k - r * (b + 1)) / b < m)
      × ((r + (k - r * (b + 1)) / b) * b + min (r + (k - r * (b + 1)) / b) r ≤ k)
      × (k < (r + (k - r * (b + 1)) / b + 1) * b + min (r + (k - r * (b + 1)) / b + 1) r)
small_slot zero r m k h q = absurd (omega arith)
small_slot (suc c) r m k h q = (below, omega (arith, whole), omega (arith, whole, left))
  where
    b : ℕ
    b = suc c

    j : ℕ
    j = k - r * (suc c + 1)

    whole : suc c * (j / suc c) + j % suc c ≡ j
    whole = div-add-mod j (suc c)

    left : j % suc c < suc c
    left = mod-lt j (omega arith)

    below : r + j / suc c < m
    below = small_below c r m k h q

-- Slot s holds number k exactly if s is the owner: the slots are a partition.
pub slot_owner_bounds :
    (n m k : ℕ)
    → 0 < m
    → k < n
    → (slot_owner n m k < m)
      × (slot_start n m (slot_owner n m k) ≤ k)
      × (k < slot_start n m (slot_owner n m k + 1))
unfolding slot_owner slot_start
slot_owner_bounds n m k p h = elim (dec_lt k (n % m * (n / m + 1))) [
  | yes q ↦
      let t = large_slot (n / m) (n % m) k q in
      rw (lt→ltb k _ q) (omega (arith, t, mod-lt n p), t.1, t.2)
  | no q ↦
      rw (ltb-false k (n % m * (n / m + 1)) (omega arith))
        (small_slot (n / m) (n % m) m k (omega arith) (omega (arith, div-add-mod n m)))
]

-- No other slot holds it.
pub slot_owner_unique :
    (n m k s : ℕ)
    → 0 < m
    → k < n
    → slot_start n m s ≤ k
    → k < slot_start n m (s + 1)
    → slot_owner n m k ≡ s
slot_owner_unique n m k s p h lo hi = elim (dec_lt (slot_owner n m k) s) [
  | yes a ↦ absurd (
      omega (
        arith,
        slot_owner_bounds n m k p h,
        slot_start_mono n m (slot_owner n m k + 1) s (omega arith),
      ))
  | no a ↦ elim (dec_lt s (slot_owner n m k)) [
    | yes b ↦ absurd (
        omega (
          arith,
          slot_owner_bounds n m k p h,
          slot_start_mono n m (s + 1) (slot_owner n m k) (omega arith),
        ))
    | no b ↦ omega arith
  ]
]
