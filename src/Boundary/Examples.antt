-- ===== src/Boundary/Examples.antt =====
-- Concrete inputs for the theorems on include/alpaka/mem/BoundaryIter.hpp.
use alpaka.Base.{◌≡◌, ◌^◌, arith, [], ◌∷◌, some, suc}
use alpaka.Boundary.{begin, end_of, visit}
use alpaka.Boundary.Iteration.{directions, visit-directions}
use alpaka.Boundary.SubRange.{holders, holders-directions}

visit-directions_example : visit (suc (3 ^ 2)) (begin 2) (end_of 2) ≡ some (directions 2)
visit-directions_example = visit-directions 1

holders-directions_example :
    holders 32 (0 ∷ 10 ∷ []) (8 ∷ 20 ∷ []) (1 ∷ 2 ∷ []) (2 ∷ 0 ∷ []) (directions 2) (7 ∷ 11 ∷ [])
    ≡ 1
holders-directions_example =
    holders-directions 32 2 (0 ∷ 10 ∷ []) (8 ∷ 20 ∷ []) (1 ∷ 2 ∷ []) (2 ∷ 0 ∷ []) (7 ∷ 11 ∷ [])
      (omega arith)
      (
        omega arith,
        omega arith,
        omega arith,
        omega arith,
        (omega arith, omega arith, omega arith, omega arith, tt),
      )
