-- ===== src/Reduce/Result.antt =====
-- transformReduce.hpp: the reduction of a block and of the grid.
use mathlib.Core.List.{foldl}
use alpaka.Base.{
  ℕ, suc, ◌/◌, ◌^◌, ◌<◌, ◌≤◌, ◌≡◌, refl, sym, ap, ◌∙◌, arith, List, [], ◌∷◌, some, ◌>>=◌, pow_pos,
}
use alpaka.Flat.{Layout}
use alpaka.Scan.{Block}
use alpaka.Scan.Prefix.{IsSum, total-ext}
use alpaka.Frames.Powers.{IsPower}
use alpaka.Reduce.{tree_loop, reduce_block, reduce_blocks}
use alpaka.Reduce.Sums.{sum, times, times-one, foldl-count}
use alpaka.Reduce.Threads.{EachOnce, EachOnce-below, EachOnce-count}
use alpaka.Reduce.Aggregate.{aggregate_threads-sum}
use alpaka.Reduce.Tree.{tree_loop-sum}

module _ {A : Type 0} (add : A → A → A) (nil : A) (laws : IsSum add nil) (w : ℕ) (layout : Layout)
    (b p : ℕ) (power : IsPower b) (le : b ≤ p) (fits : p < 2 ^ w) where
  block_lem :
      (orders : ℕ → List ℕ) (d : Block A)
      → ((k : ℕ) → EachOnce b (orders k))
      → reduce_block add w layout b p orders d ≡ some (sum add nil laws p d)
  unfolding reduce_block
  block_lem orders d once =
      let (m, e) = power in
      let (a, ended, sum_a) =
        aggregate_threads-sum add w layout b p le fits nil laws (orders 0) d
          (omega (arith, e, pow_pos m)) (once 0) in
      let (r, ended', sum_r) =
        tree_loop-sum add nil laws w b m (suc (b / 2)) (λ k. orders (suc k)) a (λ k. once (suc k))
          (omega (arith, e)) (omega (arith, e)) (omega (arith, e)) in
      ap
        (λ o. o >>= (λ x.
          tree_loop add w (suc (b / 2)) (λ k. orders (suc k)) (b / 2) x >>= (λ y. some (y 0))))
        ended
      ∙ ap (λ o. o >>= (λ y. some (y 0)))
          (ap (λ n. tree_loop add w (suc (b / 2)) (λ k. orders (suc k)) (n / 2) a) e ∙ ended')
      ∙ ap some (sum_r ∙ ap (λ n. sum add nil laws n a) (sym e) ∙ sum_a)

  blocks_lem :
      (orders : ℕ → ℕ → List ℕ) (d : ℕ → Block A) (blocks : List ℕ) (output : A)
      → ((i k : ℕ) → EachOnce b (orders i k))
      → reduce_blocks add w layout b p orders d blocks output
        ≡ some (foldl (λ a i. add a (sum add nil laws p (d i))) output blocks)
  unfolding reduce_blocks
  blocks_lem orders d [] output once = refl
  blocks_lem orders d (i ∷ blocks) output once =
      ap (λ o. o >>= (λ x. reduce_blocks add w layout b p orders d blocks (add output x)))
        (block_lem (orders i) (d i) (once i))
      ∙ blocks_lem orders d blocks (add output (sum add nil laws p (d i))) once

  -- For an associative and commutative function with its neutral element, blocks whose number of threads
  -- is a power of two and not above the number of slots, and slots that the index type can count: the
  -- kernel's reduction of the shared memories ends, and it leaves in the output the sum of all slots of
  -- all blocks, whatever the layout, the order of the threads between two barriers and the order of
  -- the atomic updates.
  pub reduce_blocks-sum :
      (orders : ℕ → ℕ → List ℕ) (d : ℕ → Block A) (n : ℕ) (blocks : List ℕ)
      → ((i k : ℕ) → EachOnce b (orders i k))
      → EachOnce n blocks
      → reduce_blocks add w layout b p orders d blocks nil
        ≡ some (sum add nil laws n (λ i. sum add nil laws p (d i)))
  reduce_blocks-sum orders d n blocks once each =
      blocks_lem orders d blocks nil once
      ∙ ap some (
          foldl-count add nil laws n blocks nil (λ i. sum add nil laws p (d i))
            (EachOnce-below n blocks each)
          ∙ laws.nil_add _
          ∙ total-ext add nil laws n _ _ (λ i h.
            ap (λ c. times add nil laws c (sum add nil laws p (d i)))
              (EachOnce-count n blocks each i h)
            ∙ times-one add nil laws (sum add nil laws p (d i))))
