-- ===== src/Executor.antt =====
-- include/alpaka/api/host/exec/Serial.hpp, OmpBlocks.hpp and TbbBlocks.hpp with
-- include/alpaka/api/host/IdxLayer.hpp: the executors of the host that run the blocks of a kernel one
-- by one or in parallel. The kernel with its arguments is a parameter: from what `acc` tells it, the
-- global memory and the block's shared storage it gives the memory and the storage afterwards.
pub mod Launch
pub mod Order
pub mod Errors
mod Examples
use mathlib.Core.List.{foldl}
use alpaka.Base.{
  ℕ, Bool, true, false, not, ◌&&◌, List, [], ◌∷◌, map, length, Option, none, some, ◌==◌, leb,
  if◌then◌else◌,
}
use alpaka.Vec.{Vec, fill, product, map_to_nd}
use alpaka.NdLoop.{nd_loop_inc_idx}

-- The entries of the dictionary of `onAcc::Acc` that hold numbers.
pub record Acc : Type 0 where
  pub block_idx : Vec
  pub block_count : Vec
  pub thread_idx : Vec
  pub thread_count : Vec
  pub warp_size : ℕ

-- `m_threadBlocking`: the numbers of blocks and of threads of a block.
pub record ThreadSpec : Type 0 where
  pub num_blocks : Vec
  pub num_threads : Vec

-- The texts of the exceptions.
pub data Error : Type 0 where
  thread_block_extent_must_be_1 invalid_numa_index : Error

-- What a call does: it returns, it throws, or a loop of the model runs out of fuel.
pub data Outcome {ℓ} (A : Type ℓ) : Type ℓ where
  returned : A → Outcome A
  thrown : Error → Outcome A
  out_of_fuel : Outcome A

infixl 5 ◌>>=◌
abbrev pub ◌>>=◌ {ℓ κ} : {A : Type ℓ} {B : Type κ} → Outcome A → (A → Outcome B) → Outcome B
returned a >>= f = f a
thrown e >>= f = thrown e
out_of_fuel >>= f = out_of_fuel

-- `OneLayer`, the layer of the threads.
unfoldable pub one_layer_idx : ℕ → Vec
unfolding fill
one_layer_idx dim = fill dim 0

unfoldable pub one_layer_count : ℕ → Vec
unfolding fill
one_layer_count dim = fill dim 1

-- The dictionary of a block: `GenericLayer` for the blocks, `OneLayer` for the threads.
unfoldable pub make_acc : ThreadSpec → Vec → Acc
unfolding one_layer_idx one_layer_count
make_acc spec block_idx = record {
  block_idx = block_idx;
  block_count = spec.num_blocks;
  thread_idx = one_layer_idx (length spec.num_threads);
  thread_count = one_layer_count (length spec.num_threads);
  warp_size = 1;
}

-- `internal::hwloc::allNumaDomains`
abbrev pub all_numa_domains : ℕ
all_numa_domains = 4294967295

-- The test of the constructors of the three executors.
unfoldable pub construct : ℕ → ThreadSpec → Outcome ThreadSpec
unfolding product
construct w spec =
    if not (product w spec.num_threads == 1)
    then thrown thread_block_extent_must_be_1
    else returned spec

module _ {G S : Type 0} (kernel : Acc → G × S → G × S) (fresh : S) where
  -- One storage serves all blocks: `reset()` of SingleThreadStaticShared does nothing.
  unfoldable pub serial_block : ThreadSpec → G × S → Vec → G × S
  unfolding make_acc
  serial_block spec state block_idx = kernel (make_acc spec block_idx) state

  unfoldable pub loop_result : ThreadSpec → G → Option (List Vec) → Outcome G
  unfolding serial_block
  loop_result spec memory none = out_of_fuel
  loop_result spec memory (some blocks) =
      returned ((foldl (serial_block spec) (memory, fresh) blocks).0)

  -- `Serial`, its construction and its call. The pinning of the threads, which throws where the
  -- operating system refuses it, is left out here and in `OmpBlocks`.
  unfoldable pub serial : ℕ → ThreadSpec → G → Outcome G
  unfolding construct loop_result nd_loop_inc_idx
  serial w spec memory = do
    spec ← construct w spec
    loop_result spec memory (nd_loop_inc_idx w spec.num_blocks)

  -- One round of the loop of `OmpBlocks`: iteration i on a thread, with the storage of that thread.
  unfoldable pub omp_round : ℕ → ThreadSpec → G × (ℕ → S) → ℕ × ℕ → G × (ℕ → S)
  unfolding make_acc map_to_nd
  omp_round w spec (memory, storage) (i, thread) =
      let (memory', s') =
        kernel (make_acc spec (map_to_nd w spec.num_blocks i)) (memory, storage thread) in
      (memory', λ t. if t == thread then s' else storage t)

  -- `OmpBlocks`. The schedule, which OpenMP chooses, names the iterations in an order in which they
  -- take effect, each with its thread.
  unfoldable pub omp_blocks : ℕ → List (ℕ × ℕ) → ThreadSpec → G → Outcome G
  unfolding construct omp_round
  omp_blocks w schedule spec memory = do
    spec ← construct w spec
    returned ((foldl (omp_round w spec) (memory, λ t. fresh) schedule).0)

  -- One call of the function that `TbbBlocks` passes to `parallel_for`: a storage for each block.
  unfoldable pub tbb_call : ℕ → ThreadSpec → G → ℕ → G
  unfolding make_acc map_to_nd
  tbb_call w spec memory i =
      (kernel (make_acc spec (map_to_nd w spec.num_blocks i)) (memory, fresh)).0

  -- `TbbBlocks`. The order of the iterations, which the library chooses, and the number of its NUMA
  -- nodes are parameters.
  unfoldable pub tbb_blocks : ℕ → List ℕ → ℕ → ℕ → Bool → ThreadSpec → G → Outcome G
  unfolding construct tbb_call
  tbb_blocks w order num_nodes numa_idx set_thread_affinity spec memory = do
    spec ← construct w spec
    if not (numa_idx == all_numa_domains) && set_thread_affinity && leb num_nodes numa_idx
        then thrown invalid_numa_index
        else returned (foldl (tbb_call w spec) memory order)
