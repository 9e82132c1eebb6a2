-- ===== src/Adjust.antt =====
-- include/alpaka/api/util.hpp, adjustToLimit for a vector that is known at run time.
pub mod Limit
mod Examples
use alpaka.Base.{
  ℕ, zero, suc, true, false, [], ◌∷◌, Option, none, some, get_or, set, ltb, if◌then◌else◌, wrap,
}
use alpaka.Vec.{Vec, product}
use alpaka.Util.{div_ex_zero}

-- The loop that looks for the index of the first largest component, from index i.
unfoldable pub max_idx_loop : ℕ → ℕ → ℕ → Vec → ℕ
max_idx_loop i max_idx max_value [] = max_idx
max_idx_loop i max_idx max_value (x ∷ input) = elim (ltb max_value x) [
  | true ↦ max_idx_loop (suc i) i x input
  | false ↦ max_idx_loop (suc i) max_idx max_value input
]

-- One round: the largest component is halved, if the product is still above the limit.
unfoldable pub adjust_round : ℕ → Vec → ℕ → Vec
unfolding max_idx_loop product div_ex_zero
adjust_round w input limit_value =
    let max_idx = max_idx_loop 0 0 (get_or input 0 0) input in
    if ltb limit_value (product w input)
    then set input max_idx (div_ex_zero (get_or input max_idx 0) 2)
    else input

-- `while(input.product() > limitValue)`; `none` if the fuel runs out.
unfoldable pub adjust_loop : ℕ → ℕ → Vec → ℕ → Option Vec
unfolding adjust_round product
adjust_loop w zero input limit_value = none
adjust_loop w (suc fuel) input limit_value = elim (ltb limit_value (product w input)) [
  | true ↦ adjust_loop w fuel (adjust_round w input limit_value) limit_value
  | false ↦ some input
]

unfoldable pub adjust_to_limit : ℕ → ℕ → Vec → ℕ → Option Vec
unfolding adjust_loop wrap
adjust_to_limit w fuel input limit = adjust_loop w fuel input (wrap w limit)
