-- ===== src/SimdConcurrent.antt =====
-- include/alpaka/onAcc/internal/SimdConcurrent.hpp, concurrentSimdPackExecution with the tiled traversal:
-- the packs and the single elements for which one worker calls the function.
pub mod Packs
pub mod Ranges
pub mod Shares
pub mod Places
pub mod Calls
pub mod Bounds
pub mod Loops
pub mod Cover
pub mod Unique
pub mod Once
pub mod Disjoint
mod Examples
use alpaka.Base.{
  ℕ, zero, suc, ◌/◌, List, [], ◌∷◌, ◌++◌, Bool, true, false, Option, none, some, length, mul_w,
}
use mathlib.Core.Option
use alpaka.Vec.{Vec, fill, back, r_assign}
use alpaka.IdxRange.{IdxRange}
use alpaka.ThreadSpace.{ThreadSpace, iota}
use alpaka.Flat.{Layout}
use alpaka.Tiled.{TiledIdxContainer, ConstIterator, begin, end_of, increment, at_end, visited}

-- `T_simdWidth`, `T_numSimdPerFnCall` and the layout policy.
pub record SimdPolicy : Type 0 where
  pub simd_width : ℕ
  pub num_simd_per_fn_call : ℕ
  pub idx_layout : Layout

-- `numElementsPerFnCall`, of two 32-bit integers.
unfoldable pub num_elements_per_fn_call : SimdPolicy → ℕ
num_elements_per_fn_call p = mul_w 32 p.simd_width p.num_simd_per_fn_call

unfoldable pub num_simd_pack_loops : SimdPolicy → ThreadSpace → Vec → ℕ
unfolding num_elements_per_fn_call back
num_simd_pack_loops p work_group num_elements =
    back num_elements / num_elements_per_fn_call p / back work_group.m_thread_count

unfoldable pub remainder_begin : ℕ → SimdPolicy → ThreadSpace → Vec → ℕ
unfolding num_simd_pack_loops num_elements_per_fn_call back
remainder_begin w p work_group num_elements =
    mul_w w (mul_w w (num_simd_pack_loops p work_group num_elements) (num_elements_per_fn_call p))
      (back work_group.m_thread_count)

-- `IdxRange{IdxType::fill(0), domainSize, stride}`
unfoldable pub pack_range : ℕ → SimdPolicy → ThreadSpace → Vec → IdxRange
unfolding fill r_assign remainder_begin
pack_range w p work_group num_elements = record {
  m_begin = fill (length num_elements) 0;
  m_end = r_assign num_elements (remainder_begin w p work_group num_elements);
  m_stride = r_assign (fill (length num_elements) 1) p.simd_width;
}

-- `IdxRange{remainderDomainSize, numElements}`
unfoldable pub remainder_range : ℕ → SimdPolicy → ThreadSpace → Vec → IdxRange
unfolding fill r_assign remainder_begin
remainder_range w p work_group num_elements = record {
  m_begin = r_assign (fill (length num_elements) 0) (remainder_begin w p work_group num_elements);
  m_end = num_elements;
  m_stride = fill (length num_elements) 1;
}

-- `makeIdxMap(acc, workGroup, range, traverse::tiled, layout)`
unfoldable pub make_idx_map : SimdPolicy → ThreadSpace → IdxRange → TiledIdxContainer
unfolding iota
make_idx_map p work_group r = record {
  m_idx_range = r;
  m_thread_space = work_group;
  idx_mapper = p.idx_layout;
  c_select = iota (length r.m_end);
}

-- `execute`: as many packs as one call of the function takes, without a test for the end.
unfoldable pub execute : ℕ → List ℕ → ℕ → ConstIterator → List Vec × ConstIterator
unfolding increment
execute w c_select zero it = ([], it)
execute w c_select (suc repeat) it =
    let (packs, last) = execute w c_select repeat (increment w c_select it) in
    (it.m_current ∷ packs, last)

-- The loop over the packs: the packs of each round; `none` if the fuel runs out.
unfoldable pub pack_loop : ℕ → List ℕ → ℕ → ℕ → ConstIterator → ℕ → Option (List (List Vec))
unfolding execute at_end
pack_loop w c_select repeat zero it slow_end = none
pack_loop w c_select repeat (suc fuel) it slow_end = elim (at_end c_select it slow_end) [
  | true ↦ some []
  | false ↦
      Option.map (◌∷◌ (execute w c_select repeat it).0)
        (pack_loop w c_select repeat fuel (execute w c_select repeat it).1 slow_end)
]

-- The calls with packs of a worker, and then those with single elements.
unfoldable pub pack_calls : ℕ → ℕ → SimdPolicy → ThreadSpace → Vec → Option (List (List Vec))
unfolding make_idx_map pack_range pack_loop begin end_of
pack_calls w fuel p work_group num_elements =
    let c = make_idx_map p work_group (pack_range w p work_group num_elements) in
    pack_loop w c.c_select p.num_simd_per_fn_call fuel (begin w c) (end_of w c)

unfoldable pub element_calls : ℕ → ℕ → SimdPolicy → ThreadSpace → Vec → Option (List Vec)
unfolding make_idx_map remainder_range visited
element_calls w fuel p work_group num_elements =
    visited w fuel (make_idx_map p work_group (remainder_range w p work_group num_elements))
