-- ===== src/Reduce/Aggregate.antt =====
-- transformReduce.hpp: the threads of a block add the slots beyond their number to their own slots.
use mathlib.Core.List.{foldl}
use mathlib.Core.Option
use alpaka.Base.{
  ℕ, ◌+◌, ◌-◌, ◌^◌, ◌<◌, ◌≤◌, ◌≡◌, ◌≢◌, refl, sym, ap, ◌∙◌, arith, List, [], ◌∷◌, map, Option, none,
  some, ltb, ◌==◌, ◌&&◌, if◌then◌else◌, ◌>>=◌,
}
use alpaka.Vec.{Vec, back}
use alpaka.Flat.{Layout}
use alpaka.Flat.Steps.{count}
use alpaka.Scan.{Block, store}
use alpaka.Scan.Prefix.{IsSum, total-ext}
use alpaka.Scan.Sweep.{store_same, store_other}
use alpaka.Reduce.{shared_elements, aggregate_element, aggregate_thread, aggregate_threads}
use alpaka.Reduce.Sums.{sum, sum-add, sum-append, sum-swap, sum-pick, times, foldl-count}
use alpaka.Reduce.Threads.{EachOnce, EachOnce-below, EachOnce-count, IsLocal, present}
use alpaka.Reduce.Elements.{owner, owner-lt, shared_elements_lem}

-- The indices that a thread visits, or none where the loop would not end.
abbrev found : Option (List Vec) → List Vec
found none = []
found (some v) = v

module _ {A : Type 0} (add : A → A → A) where
  fold_other :
      (l : ℕ) (vs : List Vec) (d : Block A) (i : ℕ)
      → i ≢ l
      → foldl (aggregate_element add l) d vs i ≡ d i
  unfolding aggregate_element
  fold_other l [] d i ne = refl
  fold_other l (v ∷ vs) d i ne =
      fold_other l vs _ i ne ∙ store_other d l i (add (d l) (d (back v))) ne

  fold_slot :
      (l b : ℕ) (ks : List ℕ) (d : Block A) (x : ℕ → A)
      → l < b
      → ((k : ℕ) → d (b + k) ≡ x k)
      → foldl (aggregate_element add l) d (map (λ k. (b + k) ∷ []) ks) l
        ≡ foldl (λ a k. add a (x k)) (d l) ks
  unfolding aggregate_element back
  fold_slot l b [] d x h same = refl
  fold_slot l b (k ∷ ks) d x h same =
      fold_slot l b ks (store d l (add (d l) (d (b + k)))) x h
        (λ j. store_other d l (b + j) (add (d l) (d (b + k))) (λ e. omega (arith, e)) ∙ same j)
      ∙ ap (λ a. foldl (λ a k. add a (x k)) a ks)
          (store_same d l (add (d l) (d (b + k))) ∙ ap (add (d l)) (same k))

  module _ (w : ℕ) (layout : Layout) (b p : ℕ) (le : b ≤ p) (fits : p < 2 ^ w) where
    abbrev elements : ℕ → List Vec
    elements l = found (shared_elements w layout b p l)

    abbrev step : ℕ → Block A → Block A
    step l d = foldl (aggregate_element add l) d (elements l)

    abbrev slots_of : (l : ℕ) → l < b → List ℕ
    slots_of l h = (shared_elements_lem w b p l h le fits layout).0

    step-slot :
        (l : ℕ) (d : Block A) (x : ℕ → A) (h : l < b)
        → ((k : ℕ) → d (b + k) ≡ x k)
        → step l d l ≡ foldl (λ a k. add a (x k)) (d l) (slots_of l h)
    step-slot l d x h same =
        ap (λ o. foldl (aggregate_element add l) d (found o) l)
          (shared_elements_lem w b p l h le fits layout).1
        ∙ fold_slot l b (slots_of l h) d x h same

    step-IsLocal : IsLocal b b step
    step-IsLocal = record {
      others = λ l i d ne. fold_other l (elements l) d i ne;
      sources = λ l j d h q. fold_other l (elements l) d j (λ e. omega (arith, e));
      depends = λ l d d' h e same.
          step-slot l d (λ k. d' (b + k)) h (λ k. same (b + k) (omega arith))
          ∙ ap (λ a. foldl (λ a k. add a (d' (b + k))) a (slots_of l h)) e
          ∙ sym (step-slot l d' (λ k. d' (b + k)) h (λ k. refl));
    }

    aggregate_threads-run :
        (lanes : List ℕ) (d : Block A)
        → ((k : ℕ) → 0 < count k lanes → k < b)
        → aggregate_threads add w layout b p lanes d ≡ some (foldl (λ e l. step l e) d lanes)
    unfolding aggregate_threads aggregate_thread count
    aggregate_threads-run [] d below = refl
    aggregate_threads-run (l ∷ lanes) d below =
        ap
          (λ o.
            Option.map (foldl (aggregate_element add l) d) o
            >>= aggregate_threads add w layout b p lanes)
          ends
        ∙ aggregate_threads-run lanes (step l d) (λ k q. below k (omega (arith, q)))
      where
        ends : shared_elements w layout b p l ≡ some (elements l)
        ends =
            let e = (shared_elements_lem w b p l (below l (ground arith)) le fits layout).1 in
            e ∙ ap some (sym (ap found e))

    module _ (nil : A) (laws : IsSum add nil) where
      counted : ℕ → ℕ → ℕ
      counted l k = if ltb k (p - b) && (owner layout b (p - b) k == l) then 1 else 0

      step-sum :
          (l : ℕ) (d : Block A)
          → l < b
          → step l d l
            ≡ add
                (d l)
                (sum add nil laws (p - b) (λ k. times add nil laws (counted l k) (d (b + k))))
      unfolding counted
      step-sum l d h =
          let counts = (shared_elements_lem w b p l h le fits layout).2 in
          step-slot l d (λ k. d (b + k)) h (λ k. refl)
          ∙ foldl-count add nil laws (p - b) (slots_of l h) (d l) (λ k. d (b + k))
              (λ k q. let c = counts k in ground (arith, q, c))
          ∙ ap (add (d l)) (
              total-ext add nil laws (p - b) _ _
                (λ k q. ap (λ n. times add nil laws n (d (b + k))) (counts k)))

      -- A slot beyond the threads is added by one thread.
      owned_once :
          (d : Block A) (k : ℕ)
          → 0 < b
          → k < p - b
          → sum add nil laws b (λ l. times add nil laws (counted l k) (d (b + k))) ≡ d (b + k)
      unfolding counted
      owned_once d k q h =
          total-ext add nil laws b _
            (λ l. times add nil laws (if l == owner layout b (p - b) k then 1 else 0) (d (b + k)))
            (λ l _. ap (λ n. times add nil laws n (d (b + k))) (ground (arith, h)))
          ∙ sum-pick add nil laws b (owner layout b (p - b) k) (λ l. d (b + k))
              (owner-lt layout b (p - b) k q h)

      pub aggregate_threads-sum :
          (lanes : List ℕ) (d : Block A)
          → 0 < b
          → EachOnce b lanes
          → (r : Block A) × (aggregate_threads add w layout b p lanes d ≡ some r)
            × (sum add nil laws b r ≡ sum add nil laws p d)
      aggregate_threads-sum lanes d q once = (
        foldl (λ e l. step l e) d lanes,
        aggregate_threads-run lanes d (EachOnce-below b lanes once),
        total-ext add nil laws b _ _ (λ l h.
              present b b step step-IsLocal lanes d l (EachOnce-below b lanes once)
                (EachOnce-count b lanes once l h)
              ∙ step-sum l d h)
            ∙ sum-add add nil laws b d _
            ∙ ap (add (sum add nil laws b d)) (
                sum-swap add nil laws b (p - b)
                  (λ l k. times add nil laws (counted l k) (d (b + k)))
                ∙ total-ext add nil laws (p - b) _ (λ k. d (b + k)) (λ k h. owned_once d k q h))
            ∙ sym (sum-append add nil laws b (p - b) d)
            ∙ ap (λ n. sum add nil laws n d) {y = p} (omega arith),
      )
