-- ===== src/Executor/Errors.antt =====
-- Serial.hpp, OmpBlocks.hpp and TbbBlocks.hpp: when the executors throw.
use alpaka.Base.{
  ℕ, ◌<◌, ◌^◌, ◌↔◌, Option, none, some, [], ◌∷◌, length, not, ◌&&◌, leb, sym, ◌∙◌, wrap_small,
  ℕ_discrete, if◌then◌else◌, ◌≤◌, ◌≡◌, ◌≢◌, refl, Bool, true, false, List, arith, ◌==◌,
}
use mathlib.Core.List.{foldl}
use alpaka.NdLoop.{nd_loop_inc_idx}
use alpaka.Vec.{Vec, product}
use alpaka.Vec.Linear.{volume, product-wrap}
use alpaka.Flat.Select.{Fits}
use alpaka.Executor.{
  Acc, ThreadSpec, thrown, thread_block_extent_must_be_1, invalid_numa_index, construct, serial,
  omp_blocks, tbb_blocks, all_numa_domains, Outcome, returned, loop_result, tbb_call,
}
use alpaka.Executor.Launch.{construct_lem}

construct_throws :
    (w : ℕ) (spec : ThreadSpec)
    → product w spec.num_threads ≢ 1
    → construct w spec ≡ thrown thread_block_extent_must_be_1
unfolding construct
construct_throws w spec h =
    let differs : (product w spec.num_threads == 1) ≡ false = ground (arith, h) in rw differs refl

-- The number of threads in a block, which the executors compute in w bits.
threads_exact :
    (w : ℕ) (v : Vec) → 0 < length v → Fits w v → volume v < 2 ^ w → product w v ≡ volume v
threads_exact w [] n h fits = absurd (omega arith)
threads_exact w (x ∷ v) n h fits = product-wrap w x v h.0 ∙ wrap_small w fits

module _ {G S : Type 0} (kernel : Acc → G × S → G × S) (fresh : S) where
  returns :
      (spec : ThreadSpec) (memory : G) (o : Option (List Vec))
      → loop_result kernel fresh spec memory o ≢ thrown thread_block_extent_must_be_1
  unfolding loop_result
  returns spec memory none h = cc
  returns spec memory (some blocks) h = cc

  serial_one :
      (w : ℕ) (spec : ThreadSpec) (memory : G)
      → product w spec.num_threads ≡ 1
      → serial kernel fresh w spec memory ≢ thrown thread_block_extent_must_be_1
  unfolding serial nd_loop_inc_idx
  serial_one w spec memory one e =
      returns spec memory (nd_loop_inc_idx w spec.num_blocks) (rw (construct_lem w spec one) at e)

  omp_blocks_one :
      (w : ℕ) (spec : ThreadSpec) (memory : G) (schedule : List (ℕ × ℕ))
      → product w spec.num_threads ≡ 1
      → omp_blocks kernel fresh w schedule spec memory ≢ thrown thread_block_extent_must_be_1
  unfolding omp_blocks
  omp_blocks_one w spec memory schedule one e = let f = rw (construct_lem w spec one) at e in cc

  -- The test of TbbBlocks.
  abbrev invalid : ℕ → ℕ → Bool → Bool
  invalid num_nodes numa_idx pin =
      not (numa_idx == all_numa_domains) && pin && leb num_nodes numa_idx

  tbb_blocks_one :
      (w : ℕ) (spec : ThreadSpec) (memory : G) (order : List ℕ) (num_nodes numa_idx : ℕ)
      (pin : Bool)
      → product w spec.num_threads ≡ 1
      → tbb_blocks kernel fresh w order num_nodes numa_idx pin spec memory ≡ (
          if invalid num_nodes numa_idx pin
          then thrown invalid_numa_index
          else returned (foldl (tbb_call kernel fresh w spec) memory order))
  unfolding tbb_blocks
  tbb_blocks_one w spec memory order num_nodes numa_idx pin one = rw (construct_lem w spec one) refl

  invalid_lem :
      (num_nodes numa_idx : ℕ) (pin : Bool)
      → invalid num_nodes numa_idx pin ≡ true
        ↔ ((pin ≡ true) × (numa_idx ≢ all_numa_domains) × (num_nodes ≤ numa_idx))
  invalid_lem num_nodes numa_idx true = (
    λ e. (refl, λ f. ground (arith, e, f), ground (arith, e)),
    λ h. let away = h.1 in let beyond = h.2 in ground (arith, away, beyond),
  )
  invalid_lem num_nodes numa_idx false =
      (λ e. absurd (ground (arith, e)), λ h. absurd (let f = h.0 in cc))

  differ :
      (o : Outcome G) → o ≡ thrown thread_block_extent_must_be_1 → o ≡ thrown invalid_numa_index → ⊥
  differ o e f = cc

  chosen :
      (b : Bool) (g : G)
      → ((if b then thrown invalid_numa_index else returned g) ≡ thrown invalid_numa_index
          ↔ b ≡ true)
        × ((if b then thrown invalid_numa_index else returned g)
            ≢ thrown thread_block_extent_must_be_1)
  chosen true g = ((λ e. refl, λ e. refl), λ e. cc)
  chosen false g = ((λ e. absurd cc, λ e. absurd cc), λ e. cc)

  -- Other than one thread.
  launch_throws :
      (w : ℕ) (spec : ThreadSpec) (memory : G) (schedule : List (ℕ × ℕ)) (order : List ℕ)
      (num_nodes numa_idx : ℕ) (set_thread_affinity : Bool)
      → product w spec.num_threads ≢ 1
      → (serial kernel fresh w spec memory ≡ thrown thread_block_extent_must_be_1)
        × (omp_blocks kernel fresh w schedule spec memory ≡ thrown thread_block_extent_must_be_1)
        × (tbb_blocks kernel fresh w order num_nodes numa_idx set_thread_affinity spec memory
            ≡ thrown thread_block_extent_must_be_1)
  unfolding serial omp_blocks tbb_blocks
  launch_throws w spec memory schedule order num_nodes numa_idx set_thread_affinity h =
      rw (construct_throws w spec h) (refl, refl, refl)

  -- For a block whose extents, in at least one dimension, and whose number of threads fit the index
  -- type: each executor throws that the extent must be 1 exactly if the number of threads is not one,
  -- and TbbBlocks throws that the NUMA index is invalid exactly if there is one thread, the threads are
  -- to be pinned, and the domain is none of those that exist and not that for all of them.
  pub launch_errors :
      (w : ℕ) (spec : ThreadSpec) (memory : G) (schedule : List (ℕ × ℕ)) (order : List ℕ)
      (num_nodes numa_idx : ℕ) (set_thread_affinity : Bool)
      → 0 < length spec.num_threads
      → Fits w spec.num_threads
      → volume spec.num_threads < 2 ^ w
      → (serial kernel fresh w spec memory ≡ thrown thread_block_extent_must_be_1
          ↔ volume spec.num_threads ≢ 1)
        × (omp_blocks kernel fresh w schedule spec memory ≡ thrown thread_block_extent_must_be_1
            ↔ volume spec.num_threads ≢ 1)
        × (tbb_blocks kernel fresh w order num_nodes numa_idx set_thread_affinity spec memory
              ≡ thrown thread_block_extent_must_be_1
            ↔ volume spec.num_threads ≢ 1)
        × (tbb_blocks kernel fresh w order num_nodes numa_idx set_thread_affinity spec memory
              ≡ thrown invalid_numa_index
            ↔ ((volume spec.num_threads ≡ 1)
                × (set_thread_affinity ≡ true)
                × (numa_idx ≢ all_numa_domains)
                × (num_nodes ≤ numa_idx)))
  launch_errors w spec memory schedule order num_nodes numa_idx set_thread_affinity n h fits =
      elim (ℕ_discrete (volume spec.num_threads) 1) [
        | yes one ↦
            let small = exact ∙ one in
            let tbb =
              tbb_blocks_one w spec memory order num_nodes numa_idx set_thread_affinity small in
            let (iff, other) =
              chosen (invalid num_nodes numa_idx set_thread_affinity)
                (foldl (tbb_call kernel fresh w spec) memory order) in
            let test = invalid_lem num_nodes numa_idx set_thread_affinity in
            (
              (λ e. absurd (serial_one w spec memory small e), λ ne. absurd (ne one)),
              (λ e. absurd (omp_blocks_one w spec memory schedule small e), λ ne. absurd (ne one)),
              (λ e. absurd (other (sym tbb ∙ e)), λ ne. absurd (ne one)),
              (
                λ e. let t = test.0 (iff.0 (sym tbb ∙ e)) in (one, t.0, t.1, t.2),
                λ all. tbb ∙ iff.1 (test.1 (all.1, all.2, all.3)),
              ),
            )
        | no many ↦
            let all =
              launch_throws w spec memory schedule order num_nodes numa_idx set_thread_affinity
                (λ e. many (sym exact ∙ e)) in
            (
              (λ e. many, λ ne. all.0),
              (λ e. many, λ ne. all.1),
              (λ e. many, λ ne. all.2),
              (λ e. absurd (differ _ all.2 e), λ one. absurd (many one.0)),
            )
      ]
    where
      exact : product w spec.num_threads ≡ volume spec.num_threads
      exact = threads_exact w spec.num_threads n h fits
