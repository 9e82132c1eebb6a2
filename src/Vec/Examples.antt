-- ===== src/Vec/Examples.antt =====
-- Concrete inputs for the theorems on include/alpaka/Vec.hpp.
use alpaka.Base.{◌≡◌, arith, [], ◌∷◌}
use alpaka.Vec.{linearize, map_to_nd}
use alpaka.Vec.Linear.{InBounds, volume}
use alpaka.Vec.RoundTrip.{map_to_nd-linearize, linearize-map_to_nd}

map_to_nd-linearize_example :
    map_to_nd 8 (2 ∷ 3 ∷ 5 ∷ []) (linearize 8 (2 ∷ 3 ∷ 5 ∷ []) (1 ∷ 2 ∷ 4 ∷ [])) ≡ 1 ∷ 2 ∷ 4 ∷ []
map_to_nd-linearize_example =
    map_to_nd-linearize 8 2 (3 ∷ 5 ∷ []) (1 ∷ 2 ∷ 4 ∷ [])
      (omega arith, (omega arith, (omega arith, tt))) (unfold volume in omega arith)

linearize-map_to_nd_example :
    InBounds (2 ∷ 3 ∷ 5 ∷ []) (map_to_nd 8 (2 ∷ 3 ∷ 5 ∷ []) 17)
    × (linearize 8 (2 ∷ 3 ∷ 5 ∷ []) (map_to_nd 8 (2 ∷ 3 ∷ 5 ∷ []) 17) ≡ 17)
linearize-map_to_nd_example =
    linearize-map_to_nd 8 2 (3 ∷ 5 ∷ []) 17 (unfold volume in omega arith)
      (unfold volume in omega arith)
