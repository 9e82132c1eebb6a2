-- ===== src/NdLoop/Examples.antt =====
-- A concrete input for the theorem on include/alpaka/meta/NdLoop.hpp.
use alpaka.Base.{◌≡◌, arith, [], ◌∷◌, some, map}
use alpaka.Vec.Linear.{volume}
use alpaka.Vec.RoundTrip.{unrank}
use alpaka.ThreadSpace.{iota}
use alpaka.NdLoop.{nd_loop_inc_idx}
use alpaka.NdLoop.Order.{nd_loop_inc_idx-row_major}

nd_loop_inc_idx-row_major_example :
    nd_loop_inc_idx 32 (2 ∷ 3 ∷ []) ≡ some (map (unrank (2 ∷ 3 ∷ [])) (iota (volume (2 ∷ 3 ∷ []))))
nd_loop_inc_idx-row_major_example =
    nd_loop_inc_idx-row_major 32 (2 ∷ 3 ∷ []) (omega arith, (omega arith, tt))
