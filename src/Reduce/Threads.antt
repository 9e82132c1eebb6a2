-- ===== src/Reduce/Threads.antt =====
-- transformReduce.hpp: what the threads of a block do to the shared memory between two barriers, in
-- any order, when each writes its own slot and reads besides it only slots that no thread writes.
use mathlib.Core.List.{foldl}
use alpaka.Base.{
  ℕ, ◌<◌, ◌≤◌, ◌≡◌, ◌≢◌, refl, sym, ap, ◌∙◌, arith, List, [], ◌∷◌, if◌then◌else◌, ℕ_discrete, ltb,
}
use alpaka.Flat.Steps.{count}
use alpaka.Scan.{Block}

-- Each of the n threads occurs once.
abbrev pub EachOnce : ℕ → List ℕ → Type 0
EachOnce n lanes = (k : ℕ) → count k lanes ≡ (if ltb k n then 1 else 0)

pub EachOnce-below :
    (n : ℕ) (lanes : List ℕ) → EachOnce n lanes → (k : ℕ) → 0 < count k lanes → k < n
EachOnce-below n lanes once k h = let e = once k in ground (arith, e)

pub EachOnce-count :
    (n : ℕ) (lanes : List ℕ) → EachOnce n lanes → (k : ℕ) → k < n → count k lanes ≡ 1
EachOnce-count n lanes once k h = once k ∙ ground arith

-- A thread l below n writes slot l alone, which is no source, and its value depends on that slot and
-- the sources, those from s on.
pub record IsLocal {A : Type 0} (n s : ℕ) (step : ℕ → Block A → Block A) : Type 0 where
  pub others : (l i : ℕ) (d : Block A) → i ≢ l → step l d i ≡ d i
  pub sources : (l j : ℕ) (d : Block A) → l < n → s ≤ j → step l d j ≡ d j
  pub depends :
      (l : ℕ) (d d' : Block A)
      → l < n
      → d l ≡ d' l
      → ((j : ℕ) → s ≤ j → d j ≡ d' j)
      → step l d l ≡ step l d' l

module _ {A : Type 0} (n s : ℕ) (step : ℕ → Block A → Block A) (local : IsLocal n s step) where
  abbrev run_lanes : List ℕ → Block A → Block A
  run_lanes lanes d = foldl (λ e l. step l e) d lanes

  absent : (lanes : List ℕ) (d : Block A) (i : ℕ) → count i lanes ≡ 0 → run_lanes lanes d i ≡ d i
  unfolding count
  absent [] d i h = refl
  absent (l ∷ lanes) d i h =
      absent lanes (step l d) i (omega (arith, h)) ∙ local.others l i d (λ e. ground (arith, h, e))

  pub present :
      (lanes : List ℕ) (d : Block A) (i : ℕ)
      → ((k : ℕ) → 0 < count k lanes → k < n)
      → count i lanes ≡ 1
      → run_lanes lanes d i ≡ step i d i
  unfolding count
  present [] d i below h = absurd (omega (arith, h))
  present (l ∷ lanes) d i below h = elim (ℕ_discrete i l) [
    | yes e ↦ absent lanes (step l d) i (ground (arith, h, e)) ∙ ap (λ k. step k d i) (sym e)
    | no other ↦
        present lanes (step l d) i (λ k p. below k (omega (arith, p))) (ground (arith, h, other))
        ∙ local.depends i (step l d) d (below i (omega (arith, h))) (local.others l i d other)
            (λ j p. local.sources l j d (below l (ground arith)) p)
  ]
