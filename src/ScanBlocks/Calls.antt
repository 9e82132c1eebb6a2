-- ===== src/ScanBlocks/Calls.antt =====
-- scan.hpp, Scan_AddIncrementsKernel: the calls in any order.
use alpaka.Base.{
  ℕ, ◌+◌, ◌-◌, ◌/◌, ◌<◌, ◌≤◌, ◌≡◌, ◌≢◌, ◌⊎◌, inl, inr, refl, ap, ap₂, ◌∙◌, arith, List, [], ◌∷◌,
}
use alpaka.Scan.{Block, store}
use alpaka.ScanBlocks.{Config, for_in, chunk_extent, add_increments_kernel}
use alpaka.ScanBlocks.Loops.{Filled, for_in-Filled}
use alpaka.ScanBlocks.Tuned.{IsTuned}

abbrev pub Covers : ℕ × ℕ → ℕ → Type 0
Covers (idx, width) i = (idx ≤ i) × (i < idx + width)

abbrev pub Touched : ℕ → List (ℕ × ℕ) → Type 0
Touched i [] = ⊥
Touched i (call ∷ calls) = Covers call i ⊎ Touched i calls

-- No element has two calls, and the pack of a call lies in one chunk.
abbrev pub Separate : List (ℕ × ℕ) → Type 0
Separate [] = Unit {0}
Separate (call ∷ calls) =
    ((i : ℕ) → Covers call i → (Touched i calls → ⊥) × (call.0 / 2048 ≡ i / 2048)) × Separate calls

-- The calls of `SimdAlgo::concurrent` for a number of elements.
pub record AreCalls (n : ℕ) (calls : List (ℕ × ℕ)) : Type 0 where
  pub below : (i : ℕ) → Touched i calls → i < n
  pub separate : Separate calls
  pub complete : (i : ℕ) → i < n → Touched i calls

module _ {A : Type 0} (add : A → A → A) (nil : A) (c : Config) (u : IsTuned c) (sums output n : ℕ)
    (room : output + n ≤ sums) where
  -- What the calls leave.
  pub record AreIncremented (calls : List (ℕ × ℕ)) (memory after : Block A) : Type 0 where
    pub inside :
        (i : ℕ)
        → Touched i calls
        → after (output + i) ≡ add (memory (output + i)) (memory (sums + i / 2048))
    pub outside : (a : ℕ) → ((i : ℕ) → Touched i calls → a ≢ output + i) → after a ≡ memory a

  module _ (idx width : ℕ) (calls : List (ℕ × ℕ)) (memory middle after : Block A)
      (below : (i : ℕ) → Touched i ((idx, width) ∷ calls) → i < n)
      (separate : Separate ((idx, width) ∷ calls))
      (first : Filled
        (output + idx)
        width
        (λ l. add (memory (output + idx + l)) (memory (sums + idx / chunk_extent c)))
        memory
        middle)
      (rest : AreIncremented calls middle after) where
    untouched : (i : ℕ) → Touched i calls → middle (output + i) ≡ memory (output + i)
    untouched i q =
        first.1 (output + i)
          (λ l z e. absurd ((separate.0 i (omega (arith, e), omega (arith, e, z))).0 q))

    sums_kept : (j : ℕ) → middle (sums + j) ≡ memory (sums + j)
    sums_kept j =
        first.1 (sums + j)
          (λ l z e. omega (arith, room, e, below (idx + l) (inl (omega arith, omega arith))))

    incremented :
        (i : ℕ)
        → Touched i ((idx, width) ∷ calls)
        → after (output + i) ≡ add (memory (output + i)) (memory (sums + i / 2048))
    incremented i (inl q) =
        rest.outside (output + i)
          (λ j z e. absurd ((separate.0 j (omega (arith, e, q.0), omega (arith, e, q.1))).0 z))
        ∙ ap middle {x = output + i} {y = output + idx + (i - idx)} (omega (arith, q.0))
        ∙ first.0 (i - idx) (omega (arith, q.0, q.1))
        ∙ ap (λ x. add (memory x) (memory (sums + idx / chunk_extent c)))
            {x = output + idx + (i - idx)} {y = output + i} (omega (arith, q.0))
        ∙ ap (λ y. add (memory (output + i)) (memory (sums + y)))
            (ap (λ m. idx / m) u.whole ∙ (separate.0 i q).1)
    incremented i (inr q) = rest.inside i q ∙ ap₂ add (untouched i q) (sums_kept (i / 2048))

    AreIncremented-cons : AreIncremented ((idx, width) ∷ calls) memory after
    AreIncremented-cons = record {
      inside = incremented;
      outside = λ a h.
          rest.outside a (λ i q. h i (inr q))
          ∙ first.1 a (λ l z e. h (idx + l) (inl (omega arith, omega arith)) (e ∙ omega arith));
    }

  pub add_increments_kernel_lem :
      (calls : List (ℕ × ℕ)) (memory : Block A)
      → ((i : ℕ) → Touched i calls → i < n)
      → Separate calls
      → AreIncremented calls memory (add_increments_kernel add nil c sums output calls memory)
  unfolding add_increments_kernel
  add_increments_kernel_lem [] memory below separate = record {
    inside = λ i q. absurd q;
    outside = λ a h. refl;
  }
  add_increments_kernel_lem ((idx, width) ∷ calls) memory below separate =
      AreIncremented-cons idx width calls memory middle _ below separate filled
        (add_increments_kernel_lem calls middle (λ i q. below i (inr q)) separate.1)
    where
      middle : Block A
      middle =
          for_in width
            (λ l later.
              store later (output + idx + l)
                (add (memory (output + idx + l)) (memory (sums + idx / chunk_extent c))))
            0 memory

      filled :
          Filled
            (output + idx)
            width
            (λ l. add (memory (output + idx + l)) (memory (sums + idx / chunk_extent c)))
            memory
            middle
      filled =
          for_in-Filled (output + idx)
            (λ l. add (memory (output + idx + l)) (memory (sums + idx / chunk_extent c))) memory
            width
