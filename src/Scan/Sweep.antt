-- ===== src/Scan/Sweep.antt =====
-- scan.hpp, scanMiniBlock: what one stage of the sweeps does to the elements of a view of the block, which
-- are those at `offset * (k + 1) - 1`.
use alpaka.Base.{
  ℕ, zero, suc, ◌+◌, ◌-◌, ◌*◌, ◌<◌, ◌≤◌, ◌≡◌, ◌≢◌, refl, sym, ap, ap₂, ◌∙◌, arith, true, false,
  ◌==◌, ==_iff, dec_lt, subst,
}
use native.Mathlib.Nat.{mul-le-mul_left}
use alpaka.Scan.{Block, store, up_inner, down_inner}

-- The place of element k of the view.
abbrev pub place : ℕ → ℕ → ℕ
place s k = s * (k + 1) - 1

place-lt : (s a b : ℕ) → 0 < s → a < b → place s a < place s b
place-lt s a b p h =
    omega (arith, p, mul-le-mul_left {m = a + 2} {n = b + 1} s (omega arith), grows)
  where
    grows : 0 < s * (a + 1)
    grows = grind (arith, p)

pub place-apart : (s a b : ℕ) → 0 < s → a ≢ b → place s a ≢ place s b
place-apart s a b p h e = elim (dec_lt a b) [
  | yes less ↦ omega (arith, place-lt s a b p less, e)
  | no more ↦ elim (dec_lt b a) [
    | yes less ↦ omega (arith, place-lt s b a p less, e)
    | no same ↦ h (omega arith)
  ]
]

pub place_double : (s k : ℕ) → place (s * 2) k ≡ place s (2 * k + 1)
place_double s k = omega arith

right_place : (s j : ℕ) → s * (2 * j + 2) - 1 ≡ place s (2 * j + 1)
right_place s j = omega arith

module _ {A : Type 0} where
  pub store_same : (f : Block A) (i : ℕ) (v : A) → store f i v i ≡ v
  unfolding store
  store_same f i v = let e : (i == i) ≡ true = (==_iff i i).1 refl in rw e refl

  pub store_other : (f : Block A) (i j : ℕ) (v : A) → j ≢ i → store f i v j ≡ f j
  unfolding store
  store_other f i j v h = let e : (j == i) ≡ false = ground (arith, h) in rw e refl

module _ {A : Type 0} (add : A → A → A) (s : ℕ) (pos : 0 < s) where
  -- One round.
  abbrev step : ℕ → Block A → Block A
  step j f = store f (place s (2 * j + 1)) (add (f (place s (2 * j + 1))) (f (place s (2 * j))))

  up_step :
      (rounds j : ℕ) (f : Block A)
      → up_inner add s (suc rounds) j f ≡ up_inner add s rounds (j + 1) (step j f)
  unfolding up_inner
  up_step rounds j f =
      ap (λ r. up_inner add s rounds (j + 1) (store f r (add (f r) (f (place s (2 * j))))))
        (right_place s j)

  -- A stage of the up-sweep leaves all but the right elements.
  pub up_rest :
      (rounds j p : ℕ) (f : Block A)
      → ((i : ℕ) → j ≤ i → i < j + rounds → p ≢ place s (2 * i + 1))
      → up_inner add s rounds j f p ≡ f p
  unfolding up_inner
  up_rest zero j p f h = refl
  up_rest (suc rounds) j p f h =
      ap (λ g. g p) (up_step rounds j f)
      ∙ up_rest rounds (j + 1) p (step j f) (λ i q r. h i (omega arith) (omega arith))
      ∙ store_other f (place s (2 * j + 1)) p _ (h j (omega arith) (omega arith))

  pub up_right :
      (rounds j i : ℕ) (f : Block A)
      → j ≤ i
      → i < j + rounds
      → up_inner add s rounds j f (place s (2 * i + 1))
        ≡ add (f (place s (2 * i + 1))) (f (place s (2 * i)))
  unfolding up_inner
  up_right zero j i f lo hi = absurd (omega arith)
  up_right (suc rounds) j i f lo hi =
      ap (λ g. g (place s (2 * i + 1))) (up_step rounds j f) ∙ elim (dec_lt j i) [
        | yes later ↦
            up_right rounds (j + 1) i (step j f) (omega arith) (omega arith)
            ∙ ap₂ add
                (store_other f (place s (2 * j + 1)) (place s (2 * i + 1)) _
                  (place-apart s (2 * i + 1) (2 * j + 1) pos (λ e. omega (arith, e))))
                (store_other f (place s (2 * j + 1)) (place s (2 * i)) _
                  (place-apart s (2 * i) (2 * j + 1) pos (λ e. omega (arith, e))))
        | no now ↦
            up_rest rounds (j + 1) (place s (2 * i + 1)) (step j f)
              (λ k q r. place-apart s (2 * i + 1) (2 * k + 1) pos (λ e. omega (arith, e)))
            ∙ ap (λ k. step k f (place s (2 * i + 1))) {x = j} {y = i} (omega arith)
            ∙ store_same f (place s (2 * i + 1)) _
      ]

  -- The rounds of a stage of the down-sweep.
  abbrev swap_at : ℕ → ℕ → Block A → Block A
  swap_at r j f =
      store (store f (place s (2 * j)) (f r)) r
        (add (store f (place s (2 * j)) (f r) r) (f (place s (2 * j))))

  abbrev swap : ℕ → Block A → Block A
  swap j f = swap_at (place s (2 * j + 1)) j f

  down_step :
      (rounds j : ℕ) (f : Block A)
      → down_inner add s (suc rounds) j f ≡ down_inner add s rounds (j + 1) (swap j f)
  unfolding down_inner
  down_step rounds j f = ap (λ r. down_inner add s rounds (j + 1) (swap_at r j f)) (right_place s j)

  pub down_rest :
      (rounds j p : ℕ) (f : Block A)
      → ((k : ℕ) → 2 * j ≤ k → k < 2 * (j + rounds) → p ≢ place s k)
      → down_inner add s rounds j f p ≡ f p
  unfolding down_inner
  down_rest zero j p f h = refl
  down_rest (suc rounds) j p f h =
      ap (λ g. g p) (down_step rounds j f)
      ∙ down_rest rounds (j + 1) p (swap j f) (λ k q r. h k (omega arith) (omega arith))
      ∙ store_other (store f (place s (2 * j)) (f (place s (2 * j + 1)))) (place s (2 * j + 1)) p _
          (h (2 * j + 1) (omega arith) (omega arith))
      ∙ store_other f (place s (2 * j)) p (f (place s (2 * j + 1)))
          (h (2 * j) (omega arith) (omega arith))

  untouched :
      (j k : ℕ) (f : Block A) → k ≢ 2 * j → k ≢ 2 * j + 1 → swap j f (place s k) ≡ f (place s k)
  untouched j k f a b =
      store_other (store f (place s (2 * j)) (f (place s (2 * j + 1)))) (place s (2 * j + 1))
        (place s k) _ (place-apart s k (2 * j + 1) pos b)
      ∙ store_other f (place s (2 * j)) (place s k) _ (place-apart s k (2 * j) pos a)

  swapped :
      (j : ℕ) (f : Block A)
      → (swap j f (place s (2 * j)) ≡ f (place s (2 * j + 1)))
        × (swap j f (place s (2 * j + 1)) ≡ add (f (place s (2 * j + 1))) (f (place s (2 * j))))
  swapped j f = (
    store_other (store f (place s (2 * j)) (f (place s (2 * j + 1)))) (place s (2 * j + 1))
          (place s (2 * j)) _ (place-apart s (2 * j) (2 * j + 1) pos (λ e. omega (arith, e)))
        ∙ store_same f (place s (2 * j)) (f (place s (2 * j + 1))),
    store_same (store f (place s (2 * j)) (f (place s (2 * j + 1)))) (place s (2 * j + 1)) _
        ∙ ap (λ x. add x (f (place s (2 * j))))
            (store_other f (place s (2 * j)) (place s (2 * j + 1)) _
              (place-apart s (2 * j + 1) (2 * j) pos (λ e. omega (arith, e)))),
  )

  down_after :
      (rounds j k : ℕ) (f : Block A)
      → k < 2 * (j + 1)
      → down_inner add s rounds (j + 1) (swap j f) (place s k) ≡ swap j f (place s k)
  down_after rounds j k f h =
      down_rest rounds (j + 1) (place s k) (swap j f)
        (λ m q r. place-apart s k m pos (λ e. omega (arith, e)))

  -- What a stage of the down-sweep makes of pair i.
  abbrev Pair : Block A → Block A → ℕ → Type 0
  Pair g f i =
      (g (place s (2 * i)) ≡ f (place s (2 * i + 1)))
      × (g (place s (2 * i + 1)) ≡ add (f (place s (2 * i + 1))) (f (place s (2 * i))))

  pub down_pair :
      (rounds j i : ℕ) (f : Block A)
      → j ≤ i
      → i < j + rounds
      → (down_inner add s rounds j f (place s (2 * i)) ≡ f (place s (2 * i + 1)))
        × (down_inner add s rounds j f (place s (2 * i + 1))
            ≡ add (f (place s (2 * i + 1))) (f (place s (2 * i))))
  down_pair zero j i f lo hi = absurd (omega arith)
  down_pair (suc rounds) j i f lo hi =
      subst (λ g. Pair g f i) (sym (down_step rounds j f))
        (elim (dec_lt j i) [
          | yes later ↦
              let rest = down_pair rounds (j + 1) i (swap j f) (omega arith) (omega arith) in
              let right =
                untouched j (2 * i + 1) f (λ e. omega (arith, e)) (λ e. omega (arith, e)) in
              let left = untouched j (2 * i) f (λ e. omega (arith, e)) (λ e. omega (arith, e)) in
              (rest.0 ∙ right, rest.1 ∙ ap₂ add right left)
          | no now ↦ now_pair (omega arith)
        ])
    where
      now_pair : i ≡ j → Pair (down_inner add s rounds (j + 1) (swap j f)) f i
      now_pair e = subst (Pair (down_inner add s rounds (j + 1) (swap j f)) f) (sym e) (
        down_after rounds j (2 * j) f (omega arith) ∙ (swapped j f).0,
        down_after rounds j (2 * j + 1) f (omega arith) ∙ (swapped j f).1,
      )
