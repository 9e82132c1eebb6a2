-- ===== src/Util/Examples.antt =====
-- Concrete inputs for the theorems on include/alpaka/utility.hpp.
use alpaka.Base.{◌-◌, ◌^◌, ◌≡◌, arith, none}
use alpaka.Util.{nth_root_floor}
use alpaka.Util.Root.{IsRootFloor, nth_root_floor-IsRootFloor, nth_root_floor-diverges}

nth_root_floor-IsRootFloor_example : IsRootFloor 10 2 (nth_root_floor 8 11 10 2)
nth_root_floor-IsRootFloor_example =
    nth_root_floor-IsRootFloor 8 10 2 (omega arith) (omega arith) (omega arith) (omega arith)

nth_root_floor-diverges_example : nth_root_floor 8 1000 (2 ^ 8 - 1) 2 ≡ none
nth_root_floor-diverges_example = nth_root_floor-diverges 8 1000 2 (omega arith)
