-- ===== src/NdLoop.antt =====
-- include/alpaka/meta/NdLoop.hpp: nested loops over the indices of an extent, in w-bit arithmetic.
pub mod Order
mod Examples
use mathlib.Core.Option
use alpaka.Base.{
  ℕ, zero, suc, List, [], ◌∷◌, ◌++◌, map, true, false, Option, none, some, ltb, add_w,
}
use alpaka.Vec.{Vec}

-- The loop over one dimension from i on, around what the inner loops visit; `none` if the fuel runs out.
unfoldable pub loop_dim : ℕ → ℕ → ℕ → ℕ → List Vec → Option (List Vec)
loop_dim w zero extent i inner = none
loop_dim w (suc fuel) extent i inner = elim (ltb i extent) [
  | false ↦ some []
  | true ↦
      Option.map (λ rest. map (◌∷◌ i) inner ++ rest) (loop_dim w fuel extent (add_w w i 1) inner)
]

-- `ndLoopImpl` with the dimensions in their order: the indices for which the function is called.
unfoldable pub nd_loop_impl : ℕ → Vec → Option (List Vec)
unfolding loop_dim
nd_loop_impl w [] = some ([] ∷ [])
nd_loop_impl w (e ∷ es) = elim (nd_loop_impl w es) [
  | none ↦ none
  | some inner ↦ loop_dim w (suc e) e 0 inner
]

-- `ndLoopIncIdx(extent, f)`.
unfoldable pub nd_loop_inc_idx : ℕ → Vec → Option (List Vec)
unfolding nd_loop_impl
nd_loop_inc_idx w extent = nd_loop_impl w extent
