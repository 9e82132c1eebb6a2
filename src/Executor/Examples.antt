-- ===== src/Executor/Examples.antt =====
-- A concrete launch for the theorems on include/alpaka/api/host/exec: two by two blocks that add their
-- numbers to a sum, and count in the shared storage.
use mathlib.Core.List.{Permᴰ}
use alpaka.Base.{◌↔◌, ◌≤◌, ℕ, ◌+◌, ◌*◌, ◌≡◌, ◌≢◌, refl, arith, true, [], ◌∷◌, List, get_or, wrap}
use alpaka.Vec.{product}
use alpaka.Vec.Linear.{volume}
use alpaka.ThreadSpace.{iota, iota_from}
use alpaka.Executor.{
  Acc, ThreadSpec, serial, omp_blocks, tbb_blocks, returned, thrown, invalid_numa_index,
  all_numa_domains, thread_block_extent_must_be_1,
}
use alpaka.Executor.Errors.{launch_errors}
use alpaka.Executor.Launch.{IsLaunch, IsParallel, EachOnce, omp_blocks-serial, tbb_blocks-serial}

abbrev spec : ThreadSpec
spec = record { num_blocks = 2 ∷ 2 ∷ []; num_threads = 1 ∷ 1 ∷ [] }

abbrev add_number : Acc → ℕ × ℕ → ℕ × ℕ
add_number acc (memory, count) =
    (memory + (2 * get_or acc.block_idx 0 0 + get_or acc.block_idx 1 0), count + 1)

spec-IsLaunch : IsLaunch 32 spec
unfolding product wrap volume
spec-IsLaunch = record {
  one_thread = refl;
  has_dim = omega arith;
  blocks_fit = (omega arith, (omega arith, tt));
  volume_fits = omega arith;
}

add_number-IsParallel : IsParallel add_number spec
add_number-IsParallel = record {
  uninitialised = λ acc memory s t. refl;
  commute = λ a b memory s h k. omega arith;
}

abbrev schedule : List (ℕ × ℕ)
schedule = (1, 0) ∷ (0, 1) ∷ (3, 1) ∷ (2, 0) ∷ []

abbrev order : List ℕ
order = 1 ∷ 0 ∷ 3 ∷ 2 ∷ []

order-EachOnce : EachOnce 32 spec order
unfolding product wrap iota iota_from
order-EachOnce =
    Permᴰ.trans (Permᴰ.swap refl refl) (Permᴰ.cons refl (Permᴰ.cons refl (Permᴰ.swap refl refl)))

sum_of_numbers : serial add_number 0 32 spec 10 ≡ returned 16
unfolding serial wrap
sum_of_numbers = refl

omp_blocks-serial_example :
    (result : ℕ) × (omp_blocks add_number 0 32 schedule spec 10 ≡ returned result)
    × (serial add_number 0 32 spec 10 ≡ returned result)
omp_blocks-serial_example =
    omp_blocks-serial add_number 0 32 spec add_number-IsParallel schedule 10 spec-IsLaunch
      order-EachOnce

tbb_blocks-serial_example :
    (result : ℕ) × (tbb_blocks add_number 0 32 order 2 1 true spec 10 ≡ returned result)
    × (serial add_number 0 32 spec 10 ≡ returned result)
tbb_blocks-serial_example =
    tbb_blocks-serial add_number 0 32 spec add_number-IsParallel order 2 1 true 10 spec-IsLaunch
      order-EachOnce refl

-- Four threads per block.
abbrev wide : ThreadSpec
wide = record { num_blocks = 2 ∷ []; num_threads = 4 ∷ [] }

launch_errors_example :
    (serial add_number 0 32 wide 10 ≡ thrown thread_block_extent_must_be_1
      ↔ volume wide.num_threads ≢ 1)
    × (omp_blocks add_number 0 32 schedule wide 10 ≡ thrown thread_block_extent_must_be_1
        ↔ volume wide.num_threads ≢ 1)
    × (tbb_blocks add_number 0 32 order 2 1 true wide 10 ≡ thrown thread_block_extent_must_be_1
        ↔ volume wide.num_threads ≢ 1)
    × (tbb_blocks add_number 0 32 order 2 1 true wide 10 ≡ thrown invalid_numa_index
        ↔ ((volume wide.num_threads ≡ 1) × (true ≡ true) × (1 ≢ all_numa_domains) × (2 ≤ 1)))
unfolding volume
launch_errors_example =
    launch_errors add_number 0 32 wide 10 schedule order 2 1 true (omega arith) (omega arith, tt)
      (omega arith)

-- 641 times 6700417 is one more than 2 ^ 32, so that Serial takes these threads for one.
abbrev wrapping : ThreadSpec
wrapping = record { num_blocks = 2 ∷ []; num_threads = 641 ∷ 6700417 ∷ [] }

wrapping_accepted : serial add_number 0 32 wrapping 10 ≡ returned 12
unfolding serial wrap
wrapping_accepted = refl
