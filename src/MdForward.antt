-- ===== src/MdForward.antt =====
-- include/alpaka/mem/MdForwardIter.hpp: the forward iterator over the indices of an MdSpan. The
-- index type has w bits.
pub mod Order
mod Examples
use mathlib.Core.Option
use alpaka.Base.{
  ℕ, zero, suc, List, [], ◌∷◌, Bool, true, false, ◌||◌, Option, none, some, get_or, length,
  replicate, leb, ◌==◌, add_w, if◌then◌else◌,
}
use alpaka.Vec.{Vec}

unfoldable pub has_zero : Vec → Bool
has_zero [] = false
has_zero (e ∷ es) = (e == 0) || has_zero es

-- The constructor: the origin, or the end if some extent is zero.
unfoldable pub begin : Vec → Vec
unfolding has_zero
begin [] = []
begin (e ∷ es) = (if has_zero (e ∷ es) then e else 0) ∷ replicate (length es) 0

-- The rounds of `operator++` in the dimensions from 1 on, the last one first: the new components, and
-- whether the loop goes on to the dimension before them.
unfoldable pub advance : ℕ → Vec → Vec → Vec × Bool
advance w (e ∷ es) (c ∷ cs) =
    let (rest, carry) = advance w es cs in
    if carry
    then (if leb e (add_w w c 1) then (0 ∷ rest, true) else (add_w w c 1 ∷ rest, false))
    else (c ∷ rest, false)
advance w _ _ = ([], true)

-- `operator++`: the slowest dimension is never reset.
unfoldable pub increment : ℕ → Vec → Vec → Vec
unfolding advance
increment w (e ∷ es) (c ∷ cs) =
    let (rest, carry) = advance w es cs in (if carry then add_w w c 1 else c) ∷ rest
increment w _ _ = []

-- The comparison with MdForwardIterEnd, which stores the slowest extent.
unfoldable pub at_end : Vec → Vec → Bool
at_end extents current = leb (get_or extents 0 0) (get_or current 0 0)

-- The loop from begin() to end(): the indices in the order of the visits.
unfoldable pub visit : ℕ → ℕ → Vec → Vec → Option (List Vec)
unfolding increment at_end
visit w zero extents current = none
visit w (suc fuel) extents current = elim (at_end extents current) [
  | true ↦ some []
  | false ↦ Option.map (◌∷◌ current) (visit w fuel extents (increment w extents current))
]
