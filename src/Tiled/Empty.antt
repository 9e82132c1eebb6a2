-- ===== src/Tiled/Empty.antt =====
-- TiledIdxContainer.hpp, the constructor of const_iterator: a box is empty where its first index is
-- outside it.
use native.Mathlib.Nat.{mul-zero}
use alpaka.Base.{
  ℕ, ◌*◌, ◌<◌, ◌≤◌, ◌≡◌, refl, ap, ap₂, ◌∙◌, true, false, List, [], ◌∷◌, arith, length, replicate,
  lt→ltb, ltb-false, dec_lt,
}
use alpaka.Vec.{Vec}
use alpaka.Vec.Linear.{InBounds, volume}
use alpaka.Tiled.{all_below}
use alpaka.Tiled.Advance.{firsts, extents}
use alpaka.Tiled.Dims.{
  Dim, IsBox, num_steps, counts, coordinate, place, coordinate-lt, coordinate-le,
}

abbrev pub zeros : List Dim → Vec
zeros ds = replicate (length (counts ds)) 0

coordinate_zero : (d : Dim) → coordinate d 0 ≡ d.first
coordinate_zero d = omega arith

pub place-zeros : (ds : List Dim) → place ds (replicate (length (counts ds)) 0) ≡ firsts ds
unfolding place
place-zeros [] = refl
place-zeros (d ∷ ds) = ap₂ ◌∷◌ (coordinate_zero d) (place-zeros ds)

-- Where the first index is inside the box, no dimension is empty.
pub zeros-InBounds :
    (w : ℕ) (ds : List Dim)
    → IsBox w ds
    → all_below (firsts ds) (extents ds) ≡ true
    → InBounds (counts ds) (replicate (length (counts ds)) 0)
unfolding all_below
zeros-InBounds w [] b h = tt
zeros-InBounds w (d ∷ ds) b h = elim (dec_lt d.first d.extent) [
  | yes less ↦ (some_step less, zeros-InBounds w ds b.1 (rw (lt→ltb d.first d.extent less) at h))
  | no more ↦ absurd (ground (arith, h, ltb-false d.first d.extent (omega arith)))
]
  where
    some_step : d.first < d.extent → 0 < num_steps d
    some_step less = elim (dec_lt 0 (num_steps d)) [
      | yes q ↦ q
      | no q ↦ absurd (omega (arith, coordinate-le w d 0 b.0 (omega arith), coordinate_zero d))
    ]

-- Where it is not, some dimension is empty.
pub volume_empty :
    (w : ℕ) (ds : List Dim)
    → IsBox w ds
    → all_below (firsts ds) (extents ds) ≡ false
    → volume (counts ds) ≡ 0
unfolding all_below volume
volume_empty w [] b h = absurd (ground (arith, h))
volume_empty w (d ∷ ds) b h = elim (dec_lt d.first d.extent) [
  | yes less ↦
      ap (◌*◌ (num_steps d)) (volume_empty w ds b.1 (rw (lt→ltb d.first d.extent less) at h))
      ∙ mul-zero (num_steps d)
  | no more ↦ ap (λ n. n * volume (counts ds)) {y = 0} (no_step (omega arith)) ∙ omega arith
]
  where
    no_step : d.extent ≤ d.first → num_steps d ≡ 0
    no_step past = elim (dec_lt 0 (num_steps d)) [
      | yes q ↦ absurd (omega (arith, coordinate-lt w d 0 b.0 q, coordinate_zero d))
      | no q ↦ omega arith
    ]
