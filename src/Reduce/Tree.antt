-- ===== src/Reduce/Tree.antt =====
-- transformReduce.hpp: the tree over the slots of a block.
use mathlib.Core.List.{foldl}
use alpaka.Base.{
  ℕ, zero, suc, ◌+◌, ◌/◌, ◌^◌, ◌<◌, ◌≤◌, ◌≡◌, refl, sym, ap, ap₂, ◌∙◌, arith, List, some, ltb-false,
  lt→ltb, wrap_small, dec_lt, pow_pos,
}
use alpaka.Scan.{Block, store}
use alpaka.Scan.Prefix.{IsSum, prefix, total-ext}
use alpaka.Scan.Sweep.{store_same, store_other}
use alpaka.Reduce.{tree_thread, tree_loop}
use alpaka.Reduce.Sums.{sum, sum-add, sum-append}
use alpaka.Reduce.Threads.{EachOnce, EachOnce-below, EachOnce-count, IsLocal, present}

module _ {A : Type 0} (add : A → A → A) (nil : A) (laws : IsSum add nil) where
  tree_thread_on :
      (w offset l : ℕ) (d : Block A)
      → l < offset
      → offset + offset ≤ 2 ^ w
      → tree_thread add w offset l d ≡ store d l (add (d l) (d (l + offset)))
  unfolding tree_thread
  tree_thread_on w offset l d h fits =
      rw (lt→ltb l offset h) (ap (λ k. store d l (add (d l) (d k))) (wrap_small w (omega arith)))

  tree_thread_off : (w offset l : ℕ) (d : Block A) → offset ≤ l → tree_thread add w offset l d ≡ d
  unfolding tree_thread
  tree_thread_off w offset l d h = rw (ltb-false l offset h) refl

  at_slot : {d d' : Block A} (i : ℕ) → d ≡ d' → d i ≡ d' i
  at_slot i e = ap (λ f. f i) e

  tree_thread-IsLocal :
      (w n offset : ℕ) → offset + offset ≤ 2 ^ w → IsLocal n offset (tree_thread add w offset)
  tree_thread-IsLocal w n offset fits = record {
    others = λ l i d ne. elim (dec_lt l offset) [
      | yes h ↦
          at_slot i (tree_thread_on w offset l d h fits)
          ∙ store_other d l i (add (d l) (d (l + offset))) ne
      | no h ↦ at_slot i (tree_thread_off w offset l d (omega arith))
    ];
    sources = λ l j d p q. elim (dec_lt l offset) [
      | yes h ↦
          at_slot j (tree_thread_on w offset l d h fits)
          ∙ store_other d l j (add (d l) (d (l + offset))) (λ e. omega (arith, e))
      | no h ↦ at_slot j (tree_thread_off w offset l d (omega arith))
    ];
    depends = λ l d d' p e same. elim (dec_lt l offset) [
      | yes h ↦
          at_slot l (tree_thread_on w offset l d h fits)
          ∙ store_same d l (add (d l) (d (l + offset)))
          ∙ ap₂ add e (same (l + offset) (omega arith))
          ∙ sym (store_same d' l (add (d' l) (d' (l + offset))))
          ∙ sym (at_slot l (tree_thread_on w offset l d' h fits))
      | no h ↦
          at_slot l (tree_thread_off w offset l d (omega arith))
          ∙ e
          ∙ sym (at_slot l (tree_thread_off w offset l d' (omega arith)))
    ];
  }

  -- A step of the tree keeps the sum of the slots.
  stage_sum :
      (w n offset : ℕ) (lanes : List ℕ) (d : Block A)
      → EachOnce n lanes
      → offset ≤ n
      → offset + offset ≤ 2 ^ w
      → sum add nil laws offset (foldl (λ e l. tree_thread add w offset l e) d lanes)
        ≡ sum add nil laws (offset + offset) d
  stage_sum w n offset lanes d once le fits =
      total-ext add nil laws offset _ (λ i. add (d i) (d (offset + i)))
        (λ i h.
          present n offset (tree_thread add w offset) (tree_thread-IsLocal w n offset fits) lanes d
            i (EachOnce-below n lanes once) (EachOnce-count n lanes once i (omega arith))
          ∙ at_slot i (tree_thread_on w offset i d h fits)
          ∙ store_same d i (add (d i) (d (i + offset)))
          ∙ ap (λ k. add (d i) (d k)) {x = i + offset} {y = offset + i} (omega arith))
      ∙ sum-add add nil laws offset d (λ i. d (offset + i))
      ∙ sym (sum-append add nil laws offset offset d)

  tree_more :
      (w fuel : ℕ) (orders : ℕ → List ℕ) (offset : ℕ) (d : Block A)
      → 0 < offset
      → tree_loop add w (suc fuel) orders offset d
        ≡ tree_loop add w fuel
            (λ k. orders (suc k))
            (offset / 2)
            (foldl (λ e l. tree_thread add w offset l e) d (orders 0))
  unfolding tree_loop
  tree_more w fuel orders offset d h = rw (lt→ltb 0 offset h, tree_loop) refl

  pub tree_loop-sum :
      (w n m fuel : ℕ) (orders : ℕ → List ℕ) (d : Block A)
      → ((k : ℕ) → EachOnce n (orders k))
      → 2 ^ m ≤ n
      → 2 ^ m ≤ 2 ^ w
      → 2 ^ m / 2 < fuel
      → (r : Block A) × (tree_loop add w fuel orders (2 ^ m / 2) d ≡ some r)
        × (r 0 ≡ sum add nil laws (2 ^ m) d)
  unfolding tree_loop prefix
  tree_loop-sum w n m zero orders d once le fits f = absurd (omega arith)
  tree_loop-sum w n zero (suc fuel) orders d once le fits f = (d, refl, sym (laws.nil_add (d 0)))
  tree_loop-sum w n (suc m) (suc fuel) orders d once le fits f =
      let half : 2 ^ suc m / 2 ≡ 2 ^ m = omega arith in
      let next = foldl (λ e l. tree_thread add w (2 ^ m) l e) d (orders 0) in
      let (r, e, total_of) =
        tree_loop-sum w n m fuel (λ k. orders (suc k)) next (λ k. once (suc k)) (omega arith)
          (omega arith) (omega (arith, pow_pos m)) in
      (
        r,
        ap (λ o. tree_loop add w (suc fuel) orders o d) half
            ∙ tree_more w fuel orders (2 ^ m) d (pow_pos m)
            ∙ e,
        total_of
            ∙ stage_sum w n (2 ^ m) (orders 0) d (once 0) (omega arith) (omega arith)
            ∙ ap (λ k. sum add nil laws k d) {y = 2 ^ suc m} (omega arith),
      )
