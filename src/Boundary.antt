-- ===== src/Boundary.antt =====
-- include/alpaka/mem/BoundaryIter.hpp and makeDirectionSubRange of include/alpaka/mem/IdxRange.hpp:
-- the 3 ^ n boundary directions of an n-dimensional volume and the sub-range of each.
pub mod Iteration
pub mod SubRange
mod Examples
use mathlib.Core.Option
use alpaka.Base.{
  ℕ, zero, suc, ◌+◌, ◌*◌, ◌/◌, ◌%◌, ◌<◌, Bool, true, false, ◌&&◌, ◌==◌, List, [], ◌∷◌, Option, none,
  some, length, replicate, add_w, sub_w, wrap, arith, if◌then◌else◌,
}
use alpaka.Vec.{Vec}
use alpaka.Util.{ipow}
use alpaka.IdxRange.{IdxRange}

pub data BoundaryType : Type 0 where
  lower middle upper oob : BoundaryType

abbrev pub BoundaryVec : Type 0
BoundaryVec = List BoundaryType

pub record BoundaryDirection : Type 0 where
  pub boundary : BoundaryVec
  pub lower_halo_size : Vec
  pub upper_halo_size : Vec

unfoldable pub count_middle : BoundaryVec → ℕ
count_middle [] = 0
count_middle (BoundaryType.middle ∷ v) = suc (count_middle v)
count_middle (BoundaryType.lower ∷ v) = count_middle v
count_middle (BoundaryType.upper ∷ v) = count_middle v
count_middle (BoundaryType.oob ∷ v) = count_middle v

unfoldable pub boundary_dimensionality : BoundaryDirection → ℕ
unfolding count_middle
boundary_dimensionality d = count_middle d.boundary

unfoldable pub is_vertex : BoundaryDirection → Bool
unfolding boundary_dimensionality
is_vertex d = boundary_dimensionality d == 0

unfoldable pub is_interior : BoundaryDirection → Bool
unfolding boundary_dimensionality
is_interior d = boundary_dimensionality d == length d.boundary

-- The loop of `operator++`, from the last component to the first: the new components, and whether
-- the loop ran off the front (`oob`). An OOB component fails the assertion: `none`.
unfoldable pub advance : BoundaryVec → Option (BoundaryVec × Bool)
advance [] = some ([], true)
advance (b ∷ bs) = elim (advance bs) [
  | none ↦ none
  | some (rest, false) ↦ some (b ∷ rest, false)
  | some (rest, true) ↦ elim b [
    | BoundaryType.lower ↦ some (BoundaryType.middle ∷ rest, false)
    | BoundaryType.middle ↦ some (BoundaryType.upper ∷ rest, false)
    | BoundaryType.upper ↦ some (BoundaryType.lower ∷ rest, true)
    | BoundaryType.oob ↦ none
  ]
]

unfoldable pub increment : BoundaryVec → Option BoundaryVec
unfolding advance
increment v = elim (advance v) [
  | none ↦ none
  | some (next, false) ↦ some next
  | some (next, true) ↦ some (replicate (length v) BoundaryType.oob)
]

unfoldable pub begin : ℕ → BoundaryVec
begin dim = replicate dim BoundaryType.lower

unfoldable pub end_of : ℕ → BoundaryVec
end_of dim = replicate dim BoundaryType.oob

unfoldable pub same : BoundaryType → BoundaryType → Bool
same BoundaryType.lower BoundaryType.lower = true
same BoundaryType.middle BoundaryType.middle = true
same BoundaryType.upper BoundaryType.upper = true
same BoundaryType.oob BoundaryType.oob = true
same _ _ = false

unfoldable pub same_vec : BoundaryVec → BoundaryVec → Bool
unfolding same
same_vec (a ∷ as') (b ∷ bs) = same a b && same_vec as' bs
same_vec _ _ = true

-- The loop `for(auto dir : container)` from a given direction: the directions visited, in order.
unfoldable pub visit : ℕ → BoundaryVec → BoundaryVec → Option (List BoundaryVec)
unfolding increment same_vec
visit zero v e = none
visit (suc fuel) v e = elim (same_vec v e) [
  | true ↦ some []
  | false ↦ elim (increment v) [ none ↦ none | some next ↦ Option.map (◌∷◌ v) (visit fuel next e) ]
]

-- `length()`, a 32-bit number.
unfoldable pub container_length : ℕ → ℕ
unfolding ipow
container_length dim = ipow 32 3 dim

-- One round of the loop in `makeDirectionSubRange`: the begin and the end in one dimension. The range
-- has w-bit indices, the result 32-bit ones. OOB fails the assertion: `none`.
unfoldable pub sub_bounds : ℕ → BoundaryType → ℕ → ℕ → ℕ → ℕ → Option (ℕ × ℕ)
sub_bounds w BoundaryType.lower b e lo hi = some (wrap 32 b, wrap 32 (add_w w b lo))
sub_bounds w BoundaryType.upper b e lo hi = some (wrap 32 (sub_w w e hi), wrap 32 e)
sub_bounds w BoundaryType.middle b e lo hi = some (wrap 32 (add_w w b lo), wrap 32 (sub_w w e hi))
sub_bounds w BoundaryType.oob b e lo hi = none

unfoldable pub sub_range_loop : ℕ → BoundaryVec → Vec → Vec → Vec → Vec → Option (Vec × Vec)
unfolding sub_bounds
sub_range_loop w (t ∷ ts) (b ∷ bs) (e ∷ es) (lo ∷ los) (hi ∷ his) =
    elim (sub_bounds w t b e lo hi) [
      | none ↦ none
      | some (sub_begin, sub_end) ↦ elim (sub_range_loop w ts bs es los his) [
        | none ↦ none
        | some (begins, ends) ↦ some (sub_begin ∷ begins, sub_end ∷ ends)
      ]
    ]
sub_range_loop w _ _ _ _ _ = some ([], [])

unfoldable pub make_direction_sub_range : ℕ → IdxRange → BoundaryDirection → Option IdxRange
unfolding sub_range_loop
make_direction_sub_range w range d =
    Option.map (λ t. record { m_begin = t.0; m_end = t.1; m_stride = range.m_stride })
      (sub_range_loop w d.boundary range.m_begin range.m_end d.lower_halo_size d.upper_halo_size)
