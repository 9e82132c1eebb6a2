-- ===== src/Lib.antt =====
-- Verification of alpaka, an abstraction layer for parallel kernels in C++ (include/alpaka).
--
-- What the program is: a kernel runs on a grid of workers, and each worker asks for the indices of an
-- n-dimensional range that it shall work on. The parts modelled here are those that decide which
-- index goes where (integer helpers, index vectors, ranges, worker groups, the index containers with
-- their iterators, the layout of n-dimensional data in memory), and the state machines around a
-- kernel on the host: the queue with its worker thread and events, the shared memory of a block, and
-- the random number engine.
--
-- The files:
--   Base.antt (Base/*): shared names. `wrap w n` is n modulo 2 ^ w; `add_w`, `sub_w`, `mul_w` are the
--     operators on w-bit unsigned integers, which wrap around as those of C++ do.
--   Util.antt: include/alpaka/utility.hpp (divCeil, divExZero, intPow, nthRootFloor, ipow).
--   Vec.antt: include/alpaka/Vec.hpp. A vector is the list of its components, the slowest dimension
--     first; linearize and mapToND convert between an index and its linear number.
--   IdxRange.antt: include/alpaka/mem/IdxRange.hpp, strided ranges.
--   ThreadSpace.antt: include/alpaka/mem/ThreadSpace.hpp and the filter of include/alpaka/CVec.hpp,
--     the place of a worker in its group and the mapping to selected dimensions.
--   Flat.antt: include/alpaka/mem/FlatIdxContainer.hpp, the indices of one worker. It uses Vec,
--     IdxRange and ThreadSpace; `visited` is the range-based for loop over a container.
--   Boundary.antt: include/alpaka/mem/BoundaryIter.hpp and makeDirectionSubRange, the directions of a
--     volume's boundary and their sub-ranges.
--   Memory.antt: include/alpaka/mem/DataPitches.hpp, include/alpaka/mem/MdSpan.hpp (ptr) and
--     emulatedAlignedMemDescription of include/alpaka/api/util.hpp, pitches and addresses.
--   MdForward.antt: include/alpaka/mem/MdForwardIter.hpp, the iterator over all elements of a span.
--   Philox.antt: include/alpaka/rand/engine/philox, the counter-based random number engine: rounds,
--     counter, and the states of PhiloxSingle and PhiloxVector.
--   Shared.antt: include/alpaka/api/host/block/mem/SharedStorage.hpp and SingleThreadStaticShared.hpp,
--     the storage of a block's shared variables. The address of the storage and the size and
--     alignment of its headers are parameters.
--   Queue.antt: include/alpaka/core/CallbackThread.hpp with Enqueue::Event of
--     include/alpaka/api/host/Queue.hpp and include/alpaka/api/host/Event.hpp: a non-blocking host queue,
--     its worker thread and an event, as a step relation; each step is a section under the queue's mutex.
--   NdLoop.antt: include/alpaka/meta/NdLoop.hpp, nested loops over an extent.
--   Memset.antt: the memset of include/alpaka/api/host/Queue.hpp, row by row through NdLoop over the
--     pitches of Memory.
--   Executor.antt: include/alpaka/api/host/exec and IdxLayer.hpp, the launch of a kernel's blocks on the
--     host by Serial, OmpBlocks and TbbBlocks. The kernel, the order in which OpenMP or TBB lets the
--     iterations take effect, and the number of NUMA nodes are parameters. The dictionary holds the
--     entries that are numbers; the one for dynamic shared memory is left to the kernel.
--   Tiled.antt: include/alpaka/mem/TiledIdxContainer.hpp, the traversal that splits each dimension among
--     the workers by itself, for the strided and the contiguous layout. The loop is shown for every
--     selection of dimensions, the split among the workers where all are selected.
--   Scan.antt: include/alpaka/onHost/algo/internal/scan.hpp, the sweeps over a miniblock, the size of the
--     buffer and the launches of all levels.
--   SimdConcurrent.antt: include/alpaka/onAcc/internal/SimdConcurrent.hpp, the loops over packs of elements
--     and over the elements that are left, through the tiled traversal. The branch for the flat
--     traversal of several dimensions, the loads and stores of SimdPtr and the user's function are not
--     modelled.
--   Adjust.antt: include/alpaka/api/util.hpp, adjustToLimit for a vector that is known at run time.
--   ScanBlocks.antt: the kernels of include/alpaka/onHost/algo/internal/scan.hpp, the sweeps over the shared
--     memory of a block, and the recursion over the levels on one memory of elements, so that the output
--     may be the input. The order of the chunks and the calls of SimdAlgo are parameters. The fuel of the
--     recursion is more than the number of elements, since each level has fewer.
--   Frames.antt: getFrameSpec of include/alpaka/onHost/internal/interface.hpp, with FrameSpec of
--     include/alpaka/onHost/FrameSpec.hpp and roundDownToPowerOfTwo of include/alpaka/utility.hpp.
--     AdjustThreadSpec of include/alpaka/api/unifiedCudaHip/Device.hpp makes a number of threads of it.
--     `std::countl_zero` is a parameter. The fuel is 513, since the loop halves a number of at most 512.
--   Reduce.antt: the second half of the kernel of include/alpaka/onHost/algo/internal/transformReduce.hpp:
--     the slots in the shared memory of each block, the tree over them and the atomic updates of the
--     output, which starts with the neutral element. What a thread reduces into its slots before, and
--     the launch with its frames, are not modelled.
--
-- Bounds and fuel: integers are natural numbers with the wrap-around written out, for any width w.
-- Loops that C++ may repeat forever run on fuel and give `none` when it ends; the theorems name the
-- fuel and show that it is enough. Division by zero, undefined in C++, gives 0, and the theorems ask
-- for nonzero divisors where it matters.
--
-- Not modelled: the calls of the CUDA, HIP and SYCL run times, floating-point mathematics, SIMD packs,
-- intrinsics, type-level programming, printing, and the queries of the operating system: these call
-- code that is not in the repository or have no behaviour at run time.
pub mod Base
pub mod Util
pub mod Vec
pub mod IdxRange
pub mod ThreadSpace
pub mod Flat
pub mod Boundary
pub mod Memory
pub mod MdForward
pub mod Philox
pub mod Shared
pub mod Queue
pub mod NdLoop
pub mod Memset
pub mod Executor
pub mod Tiled
pub mod Scan
pub mod SimdConcurrent
pub mod Adjust
pub mod ScanBlocks
pub mod Frames
pub mod Reduce
