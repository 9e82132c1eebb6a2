-- ===== src/Reduce.antt =====
-- include/alpaka/onHost/algo/internal/transformReduce.hpp, SimdTransformReduceKernel: how the threads of a
-- block reduce the shared memory to one value, and the blocks of the grid to the result; and the reduction
-- of a vector in include/alpaka/Vec.hpp and include/alpaka/Simd.hpp. The orders of the threads between
-- two barriers, and of the atomic updates, are parameters.
pub mod Sums
pub mod Threads
pub mod Tree
pub mod Elements
pub mod Aggregate
pub mod Result
mod Examples
use mathlib.Core.Option
use mathlib.Core.List.{foldl}
use alpaka.Base.{
  ℕ, zero, suc, ◌+◌, ◌-◌, ◌/◌, true, false, List, [], ◌∷◌, Option, ◌>>=◌, none, some, ltb, ◌==◌,
  add_w, if◌then◌else◌,
}
use alpaka.Vec.{Vec, back, product}
use alpaka.IdxRange.{IdxRange}
use alpaka.ThreadSpace.{ThreadSpace}
use alpaka.Flat.{Layout, make, visited, extent_of}
use alpaka.Scan.{Block, store}

-- The indices of the shared memory that a thread adds to its own slot: `makeIdxMap` with
-- `worker::linearThreadsInBlock`, the layout being that for the device.
unfoldable pub shared_elements : ℕ → Layout → ℕ → ℕ → ℕ → Option (List Vec)
unfolding visited make extent_of product
shared_elements w layout block_size chunk_size lane =
    let c =
      make (record { m_begin = block_size ∷ []; m_end = chunk_size ∷ []; m_stride = 1 ∷ [] })
        (record { m_thread_idx = lane ∷ []; m_thread_count = block_size ∷ [] }) layout in
    visited w (suc (product w (extent_of w c))) c

module _ {A : Type 0} (reduce_func : A → A → A) where
  unfoldable pub aggregate_element : ℕ → Block A → Vec → Block A
  unfolding store back
  aggregate_element lane dyn_s idx = store dyn_s lane (reduce_func (dyn_s lane) (dyn_s (back idx)))

  unfoldable pub aggregate_thread : ℕ → Layout → ℕ → ℕ → ℕ → Block A → Option (Block A)
  unfolding shared_elements aggregate_element
  aggregate_thread w layout block_size chunk_size lane dyn_s =
      Option.map (foldl (aggregate_element lane) dyn_s)
        (shared_elements w layout block_size chunk_size lane)

  -- All threads, in some order.
  unfoldable pub aggregate_threads : ℕ → Layout → ℕ → ℕ → List ℕ → Block A → Option (Block A)
  unfolding aggregate_thread
  aggregate_threads w layout block_size chunk_size [] dyn_s = some dyn_s
  aggregate_threads w layout block_size chunk_size (lane ∷ lanes) dyn_s = do
    aggregated ← aggregate_thread w layout block_size chunk_size lane dyn_s
    aggregate_threads w layout block_size chunk_size lanes aggregated

  -- One step of the tree for one thread.
  unfoldable pub tree_thread : ℕ → ℕ → ℕ → Block A → Block A
  unfolding store
  tree_thread w offset lane dyn_s =
      if ltb lane offset
      then store dyn_s lane (reduce_func (dyn_s lane) (dyn_s (add_w w lane offset)))
      else dyn_s

  -- `for(auto offset = blockSize / 2; offset > 0; offset /= 2)`; `none` if the fuel runs out.
  unfoldable pub tree_loop : ℕ → ℕ → (ℕ → List ℕ) → ℕ → Block A → Option (Block A)
  unfolding tree_thread
  tree_loop w zero orders offset dyn_s = none
  tree_loop w (suc fuel) orders offset dyn_s = elim (ltb 0 offset) [
    | false ↦ some dyn_s
    | true ↦
        tree_loop w fuel (λ k. orders (suc k)) (offset / 2)
          (foldl (λ d lane. tree_thread w offset lane d) dyn_s (orders 0))
  ]

  unfoldable pub reduce_block : ℕ → Layout → ℕ → ℕ → (ℕ → List ℕ) → Block A → Option A
  unfolding aggregate_threads tree_loop
  reduce_block w layout block_size chunk_size orders dyn_s = do
    aggregated ← aggregate_threads w layout block_size chunk_size (orders 0) dyn_s
    reduced ← tree_loop w (suc (block_size / 2)) (λ k. orders (suc k)) (block_size / 2) aggregated
    some (reduced 0)

  -- The atomic updates of the output, by the blocks in some order.
  unfoldable pub reduce_blocks :
      ℕ → Layout → ℕ → ℕ → (ℕ → ℕ → List ℕ) → (ℕ → Block A) → List ℕ → A → Option A
  unfolding reduce_block
  reduce_blocks w layout block_size chunk_size orders dyn_s [] output = some output
  reduce_blocks w layout block_size chunk_size orders dyn_s (block ∷ blocks) output = do
    reduced ← reduce_block w layout block_size chunk_size (orders block) (dyn_s block)
    reduce_blocks w layout block_size chunk_size orders dyn_s blocks (reduce_func output reduced)
