-- ===== src/Flat/Examples.antt =====
-- Concrete inputs for the theorems on include/alpaka/mem/FlatIdxContainer.hpp.
use alpaka.Base.{◌≡◌, ◌%◌, ◌==◌, ◌&&◌, ltb, arith, refl, [], ◌∷◌, if◌then◌else◌, wrap}
use alpaka.Vec.{product, vec_add, vec_mul}
use alpaka.Vec.Linear.{volume}
use alpaka.Vec.RoundTrip.{unrank}
use alpaka.IdxRange.{IdxRange}
use alpaka.ThreadSpace.{ThreadSpace}
use alpaka.Flat.{strided, contiguous, make, begin, extent_of}
use alpaka.Flat.Group.{IsWorker, worker_number, num_workers}
use alpaka.Flat.Slots.{slot_owner}
use alpaka.Flat.Loop.{position}
use alpaka.Flat.Position.{OnGrid}
use alpaka.Flat.Partition.{Visits, strided-partition, contiguous-partition}
use alpaka.Flat.Grid.{position-OnGrid}

-- The range from (1, 2) to (5, 10) in steps of (2, 3), and worker (1, 2) of a group of 2 by 3.
abbrev a_range : IdxRange
a_range = record { m_begin = 1 ∷ 2 ∷ []; m_end = 5 ∷ 10 ∷ []; m_stride = 2 ∷ 3 ∷ [] }

abbrev a_group : ThreadSpace
a_group = record { m_thread_idx = 1 ∷ 2 ∷ []; m_thread_count = 2 ∷ 3 ∷ [] }

abbrev a_worker : IsWorker 16 a_group
a_worker = record {
  nonempty = omega arith;
  bounded = (omega arith, (omega arith, tt));
  few = unfold volume in omega arith;
}

strided-partition_example : Visits 16 (make a_range a_group strided) (λ k.
    if ltb k (product 16 (extent_of 16 (make a_range a_group strided)))
      && (k % num_workers a_group == worker_number a_group)
    then 1
    else 0)
unfolding product extent_of make volume wrap
strided-partition_example = strided-partition 16 a_range a_group a_worker refl (omega arith)

contiguous-partition_example : Visits 16 (make a_range a_group contiguous) (λ k.
    if ltb k (product 16 (extent_of 16 (make a_range a_group contiguous)))
      && (slot_owner
            (product 16 (extent_of 16 (make a_range a_group contiguous)))
            (num_workers a_group)
            k
          == worker_number a_group)
    then 1
    else 0)
unfolding product extent_of make volume wrap
contiguous-partition_example = contiguous-partition 16 a_range a_group a_worker refl (omega arith)

position-OnGrid_example :
    (position 16
        (make a_range a_group contiguous).c_select
        (begin 16 (make a_range a_group contiguous))
        4
      ≡ vec_add 16
          (1 ∷ 2 ∷ [])
          (vec_mul 16 (unrank (extent_of 16 (make a_range a_group contiguous)) 4) (2 ∷ 3 ∷ [])))
    × OnGrid (1 ∷ 2 ∷ []) (5 ∷ 10 ∷ []) (2 ∷ 3 ∷ []) (
        position 16
          (make a_range a_group contiguous).c_select
          (begin 16 (make a_range a_group contiguous))
          4)
unfolding extent_of make volume wrap
position-OnGrid_example =
    position-OnGrid 16 a_range a_group
      (omega arith, omega arith, omega arith, (omega arith, omega arith, omega arith, tt)) refl
      contiguous 4 (omega arith) (omega arith)
