-- ===== src/MdForward/Examples.antt =====
-- Concrete inputs for the theorem on include/alpaka/mem/MdForwardIter.hpp.
use alpaka.Base.{◌≡◌, arith, [], ◌∷◌, some, map, suc}
use alpaka.Vec.Linear.{volume}
use alpaka.Vec.RoundTrip.{unrank}
use alpaka.ThreadSpace.{iota}
use alpaka.MdForward.{begin, visit}
use alpaka.MdForward.Order.{visit-row_major}

visit-row_major_example :
    visit 8 (suc (volume (2 ∷ 3 ∷ []))) (2 ∷ 3 ∷ []) (begin (2 ∷ 3 ∷ []))
    ≡ some (map (unrank (2 ∷ 3 ∷ [])) (iota (volume (2 ∷ 3 ∷ []))))
visit-row_major_example = visit-row_major 8 2 (3 ∷ []) (omega arith, (omega arith, tt))
