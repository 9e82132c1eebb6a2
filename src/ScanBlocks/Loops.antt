-- ===== src/ScanBlocks/Loops.antt =====
-- scan.hpp: rules for the counted loops of the kernels.
use alpaka.Base.{
  ℕ, zero, suc, ◌+◌, ◌<◌, ◌≤◌, ◌≡◌, ◌≢◌, refl, ap, ◌∙◌, arith, Option, some, dec_lt, subst,
}
use alpaka.Scan.{Block, store}
use alpaka.Scan.Sweep.{store_same, store_other}
use alpaka.ScanBlocks.{for_in, for_try}

module _ {S : Type 0} (P : ℕ → S → Type 0) where
  pub for_in_inv :
      (body : ℕ → S → S) (rounds i : ℕ) (s : S)
      → ((k : ℕ) (t : S) → i ≤ k → k < i + rounds → P k t → P (k + 1) (body k t))
      → P i s
      → P (i + rounds) (for_in rounds body i s)
  unfolding for_in
  for_in_inv body zero i s keep h = subst (λ n. P n s) {x = i} {y = i + 0} (omega arith) h
  for_in_inv body (suc rounds) i s keep h =
      subst (λ n. P n (for_in rounds body (i + 1) (body i s))) {x = i + 1 + rounds}
        {y = i + suc rounds} (omega arith)
        (for_in_inv body rounds (i + 1) (body i s)
          (λ k t lo hi. keep k t (omega arith) (omega arith))
          (keep i s (omega arith) (omega arith) h))

  -- From 0 on.
  pub for_in-each :
      (body : ℕ → S → S) (rounds : ℕ) (s : S)
      → ((k : ℕ) (t : S) → k < rounds → P k t → P (k + 1) (body k t))
      → P 0 s
      → P rounds (for_in rounds body 0 s)
  for_in-each body rounds s keep h =
      subst (λ n. P n (for_in rounds body 0 s)) {x = 0 + rounds} {y = rounds} (omega arith)
        (for_in_inv body rounds 0 s (λ k t lo hi. keep k t (omega arith)) h)

  pub for_try_inv :
      (body : ℕ → S → Option S) (rounds i : ℕ) (s : S)
      → ((k : ℕ) (t : S)
          → i ≤ k
          → k < i + rounds
          → P k t
          → (u : S) × (body k t ≡ some u) × P (k + 1) u)
      → P i s
      → (u : S) × (for_try rounds body i s ≡ some u) × P (i + rounds) u
  unfolding for_try
  for_try_inv body zero i s keep h =
      (s, refl, subst (λ n. P n s) {x = i} {y = i + 0} (omega arith) h)
  for_try_inv body (suc rounds) i s keep h =
      let (t, e, p) = keep i s (omega arith) (omega arith) h in
      let (u, f, q) =
        for_try_inv body rounds (i + 1) t (λ k x lo hi. keep k x (omega arith) (omega arith)) p in
      (u, rw e f, subst (λ n. P n u) {x = i + 1 + rounds} {y = i + suc rounds} (omega arith) q)

  pub for_try-each :
      (body : ℕ → S → Option S) (rounds : ℕ) (s : S)
      → ((k : ℕ) (t : S) → k < rounds → P k t → (u : S) × (body k t ≡ some u) × P (k + 1) u)
      → P 0 s
      → (u : S) × (for_try rounds body 0 s ≡ some u) × P rounds u
  for_try-each body rounds s keep h =
      let (u, e, p) = for_try_inv body rounds 0 s (λ k t lo hi. keep k t (omega arith)) h in
      (u, e, subst (λ n. P n u) {x = 0 + rounds} {y = rounds} (omega arith) p)

-- The elements from `base` on are v, and the others those of f.
abbrev pub Filled : {A : Type 0} → ℕ → ℕ → (ℕ → A) → Block A → Block A → Type 0
Filled base count v f g =
    ((i : ℕ) → i < count → g (base + i) ≡ v i)
    × ((j : ℕ) → ((i : ℕ) → i < count → j ≢ base + i) → g j ≡ f j)

module _ {A : Type 0} (base : ℕ) (v : ℕ → A) (f : Block A) where
  pub Filled-store :
      (k : ℕ) (g : Block A)
      → Filled base k v f g
      → Filled base (k + 1) v f (store g (base + k) (v k))
  Filled-store k g (inside, outside) = (
    λ i h. elim (dec_lt i k) [
      | yes less ↦ store_other g (base + k) (base + i) (v k) (λ e. omega (arith, e)) ∙ inside i less
      | no more ↦
          ap (λ n. store g (base + k) (v k) (base + n)) {y = k} (omega arith)
          ∙ store_same g (base + k) (v k)
          ∙ ap v (omega arith)
    ],
    λ j h.
        store_other g (base + k) j (v k) (h k (omega arith)) ∙ outside j (λ i q. h i (omega arith)),
  )

  -- A loop that stores one value a round.
  pub for_in-Filled :
      (count : ℕ) → Filled base count v f (for_in count (λ i g. store g (base + i) (v i)) 0 f)
  for_in-Filled count =
      for_in-each (λ k g. Filled base k v f g) (λ i g. store g (base + i) (v i)) count f
        (λ k g h p. Filled-store k g p) (λ i h. absurd (omega arith), λ j h. refl)
