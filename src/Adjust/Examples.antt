-- ===== src/Adjust/Examples.antt =====
-- Concrete inputs for the theorem on include/alpaka/api/util.hpp, adjustToLimit.
use alpaka.Base.{◌≡◌, ◌≤◌, refl, arith, suc, [], ◌∷◌, some, wrap}
use alpaka.Vec.{Vec, product}
use alpaka.Adjust.{adjust_to_limit}
use alpaka.Adjust.Limit.{IsShrunk, total, adjust_to_limit-IsShrunk}

abbrev frames : Vec
frames = 4 ∷ 16 ∷ 7 ∷ []

-- The largest components are halved in turn until the product is at most 50.
frames_adjusted : adjust_to_limit 32 10 frames 50 ≡ some (4 ∷ 4 ∷ 3 ∷ [])
unfolding adjust_to_limit wrap
frames_adjusted = refl

adjust_to_limit-IsShrunk_example :
    (r : Vec) × (adjust_to_limit 32 (suc (total frames)) frames 50 ≡ some r)
    × (product 32 r ≤ wrap 32 50)
    × IsShrunk frames r
unfolding wrap
adjust_to_limit-IsShrunk_example = adjust_to_limit-IsShrunk 32 frames 50 (omega arith) (omega arith)
