-- ===== src/Reduce/Sums.antt =====
-- Sums for an associative and commutative operation: over numbers, over two of them in either order,
-- and over lists by how often each number occurs.
use alpaka.Base.{
  ℕ, zero, suc, ◌+◌, ◌<◌, ◌≤◌, ◌≡◌, refl, sym, ap, ap₂, ◌∙◌, arith, List, [], ◌∷◌, ◌==◌,
  if◌then◌else◌, ℕ_discrete,
}
use mathlib.Core.List.{foldl}
use alpaka.Flat.Steps.{count}
use alpaka.Scan.Prefix.{IsSum, prefix, total, total-ext}

module _ {A : Type 0} (add : A → A → A) (nil : A) (laws : IsSum add nil) where
  abbrev pub sum : ℕ → (ℕ → A) → A
  sum = total add nil laws

  add_nil : (x : A) → add x nil ≡ x
  add_nil x = laws.add_comm x nil ∙ laws.nil_add x

  pub add_middle : (a b c d : A) → add (add a b) (add c d) ≡ add (add a c) (add b d)
  add_middle a b c d =
      laws.add_assoc a b (add c d)
      ∙ ap (add a) (
          sym (laws.add_assoc b c d) ∙ ap (λ x. add x d) (laws.add_comm b c) ∙ laws.add_assoc c b d)
      ∙ sym (laws.add_assoc a c (add b d))

  pub sum-add : (n : ℕ) (x y : ℕ → A) → sum n (λ i. add (x i) (y i)) ≡ add (sum n x) (sum n y)
  unfolding prefix
  sum-add zero x y = sym (laws.nil_add nil)
  sum-add (suc n) x y =
      ap (λ z. add z (add (x n) (y n))) (sum-add n x y) ∙ add_middle (sum n x) (sum n y) (x n) (y n)

  pub sum-nil : (n : ℕ) → sum n (λ i. nil) ≡ nil
  unfolding prefix
  sum-nil zero = refl
  sum-nil (suc n) = ap (λ z. add z nil) (sum-nil n) ∙ laws.nil_add nil

  pub sum-append : (m n : ℕ) (x : ℕ → A) → sum (m + n) x ≡ add (sum m x) (sum n (λ i. x (m + i)))
  unfolding prefix
  sum-append m zero x =
      ap (λ k. sum k x) {x = m + 0} {y = m} (omega arith) ∙ sym (add_nil (sum m x))
  sum-append m (suc n) x =
      ap (λ k. sum k x) {x = m + suc n} {y = suc (m + n)} (omega arith)
      ∙ ap (λ z. add z (x (m + n))) (sum-append m n x)
      ∙ laws.add_assoc (sum m x) (sum n (λ i. x (m + i))) (x (m + n))

  pub sum-swap :
      (m n : ℕ) (x : ℕ → ℕ → A) → sum m (λ i. sum n (λ j. x i j)) ≡ sum n (λ j. sum m (λ i. x i j))
  unfolding prefix
  sum-swap zero n x = sym (sum-nil n)
  sum-swap (suc m) n x =
      ap (λ z. add z (sum n (x m))) (sum-swap m n x)
      ∙ sym (sum-add n (λ j. sum m (λ i. x i j)) (x m))

  -- x, as often as the number says.
  unfoldable pub times : ℕ → A → A
  times zero x = nil
  times (suc n) x = add x (times n x)

  times-add : (m n : ℕ) (x : A) → times (m + n) x ≡ add (times m x) (times n x)
  unfolding times
  times-add zero n x = ap (λ k. times k x) {x = 0 + n} {y = n} (omega arith) ∙ sym (laws.nil_add _)
  times-add (suc m) n x =
      ap (λ k. times k x) {x = suc m + n} {y = suc (m + n)} (omega arith)
      ∙ ap (add x) (times-add m n x)
      ∙ sym (laws.add_assoc x (times m x) (times n x))

  times-zero : (x : A) → times 0 x ≡ nil
  unfolding times
  times-zero x = refl

  pub times-one : (x : A) → times 1 x ≡ x
  unfolding times
  times-one x = add_nil x

  -- The terms at which the flag is set are one.
  sum-none :
      (n k : ℕ) (x : ℕ → A) → n ≤ k → sum n (λ i. times (if i == k then 1 else 0) (x i)) ≡ nil
  sum-none n k x h =
      total-ext add nil laws n _ (λ i. nil)
        (λ i q. ap (λ c. times c (x i)) {y = 0} (ground arith) ∙ times-zero _)
      ∙ sum-nil n

  pub sum-pick :
      (n k : ℕ) (x : ℕ → A) → k < n → sum n (λ i. times (if i == k then 1 else 0) (x i)) ≡ x k
  unfolding prefix
  sum-pick zero k x h = absurd (omega arith)
  sum-pick (suc n) k x h = elim (ℕ_discrete k n) [
    | yes e ↦
        ap₂ add (sum-none n k x (omega (arith, e)))
          (ap (λ c. times c (x n)) {y = 1} (ground (arith, e)) ∙ times-one (x n))
        ∙ laws.nil_add (x n)
        ∙ ap x (sym e)
    | no other ↦
        ap₂ add (sum-pick n k x (omega (arith, other)))
          (ap (λ c. times c (x n)) {y = 0} (ground (arith, other)) ∙ times-zero _)
        ∙ add_nil (x k)
  ]

  -- A list of numbers below n is summed by how often each occurs.
  pub foldl-count :
      (n : ℕ) (ks : List ℕ) (a : A) (x : ℕ → A)
      → ((k : ℕ) → 0 < count k ks → k < n)
      → foldl (λ b k. add b (x k)) a ks ≡ add a (sum n (λ k. times (count k ks) (x k)))
  unfolding count
  foldl-count n [] a x h =
      sym (add_nil a)
      ∙ ap (add a) (
          sym (sum-nil n)
          ∙ total-ext add nil laws n (λ i. nil) (λ i. times 0 (x i))
              (λ i q. sym (times-zero (x i))))
  foldl-count n (j ∷ ks) a x h =
      foldl-count n ks (add a (x j)) x (λ k p. h k (omega (arith, p)))
      ∙ laws.add_assoc a (x j) _
      ∙ ap (add a) (
          ap (λ z. add z (sum n (λ k. times (count k ks) (x k))))
            (sym (sum-pick n j x (h j (ground arith))))
          ∙ sym (
              sum-add n (λ k. times (if k == j then 1 else 0) (x k))
                (λ k. times (count k ks) (x k)))
          ∙ total-ext add nil laws n _ _
              (λ k q. sym (times-add (if k == j then 1 else 0) (count k ks) (x k))))
