-- ===== src/Tiled.antt =====
-- include/alpaka/mem/TiledIdxContainer.hpp: the indices of a range that one worker of a group visits,
-- with each selected dimension split among the workers by itself.
pub mod Store
pub mod Dims
pub mod Advance
pub mod Visit
pub mod Empty
pub mod Box
pub mod Tile
pub mod Exact
pub mod Group
pub mod All
pub mod Whole
pub mod Numbers
pub mod Partition
mod Examples
use mathlib.Core.Option
use alpaka.Base.{
  ℕ, zero, suc, ◌-◌, List, [], ◌∷◌, Bool, true, false, ◌&&◌, Option, none, some, leb, ltb, get_or,
  length, set, drop, add_w, if◌then◌else◌,
}
use alpaka.Vec.{Vec, fill, vec_add, vec_mul, vec_div, vec_mod, vec_min, div_ceil, select, rshrink}
use alpaka.IdxRange.{IdxRange, distance}
use alpaka.ThreadSpace.{ThreadSpace, map_to}
use alpaka.Flat.{Layout}

pub record TiledIdxContainer : Type 0 where
  pub m_idx_range : IdxRange
  pub m_thread_space : ThreadSpace
  pub idx_mapper : Layout
  pub c_select : List ℕ

-- `m_first` lacks the component of the slowest selected dimension (`ReducedVector`).
pub record ConstIterator : Type 0 where
  pub m_current : Vec
  pub m_stride : Vec
  pub m_extent : Vec
  pub m_first : Vec

-- `isIndexValid`: the loop over the selected dimensions but the slowest.
unfoldable pub all_below : Vec → Vec → Bool
all_below (f ∷ fs) (e ∷ es) = ltb f e && all_below fs es
all_below _ _ = true

-- The constructor of `const_iterator`.
unfoldable pub make_iterator : ℕ → List ℕ → Vec → Vec → Vec → Vec → ConstIterator
unfolding vec_add select rshrink all_below
make_iterator w c_select offset first extent stride =
    let current = vec_add w first offset in
    let m_extent = select (vec_add w extent offset) c_select in
    let m_first = rshrink (length c_select - 1) (select current c_select) in
    record {
      m_current =
          if all_below m_first (drop 1 m_extent)
          then current
          else set current (get_or c_select 0 0) (get_or m_extent 0 0);
      m_stride = select stride c_select;
      m_extent = m_extent;
      m_first = m_first;
    }

-- The rounds of the loop of `operator++` from `idx` down to 0. With one dimension selected, idx is 0.
unfoldable pub increment_loop : ℕ → List ℕ → ConstIterator → ℕ → Vec → Vec
increment_loop w c_select it zero current =
    let d = get_or c_select 0 0 in
    set current d (add_w w (get_or current d 0) (get_or it.m_stride 0 0))
increment_loop w c_select it (suc k) current =
    let d = get_or c_select (suc k) 0 in
    let next = add_w w (get_or current d 0) (get_or it.m_stride (suc k) 0) in
    elim (leb (get_or it.m_extent (suc k) 0) next) [
      | true ↦ increment_loop w c_select it k (set (set current d next) d (get_or it.m_first k 0))
      | false ↦ set current d next
    ]

unfoldable pub increment : ℕ → List ℕ → ConstIterator → ConstIterator
unfolding increment_loop
increment w c_select it = record it {
  m_current = increment_loop w c_select it (length c_select - 1) it.m_current;
}

-- `slowCurrent() >= *other`, the comparison with a `const_iterator_end`.
unfoldable pub at_end : List ℕ → ConstIterator → ℕ → Bool
at_end c_select it slow_end = leb slow_end (get_or it.m_current (get_or c_select 0 0) 0)

-- The constructor of `const_iterator_end`.
unfoldable pub make_iterator_end : List ℕ → Vec → ℕ
make_iterator_end c_select extent = get_or extent (get_or c_select 0 0) 0

unfoldable pub logical_extent : ℕ → IdxRange → Vec
unfolding div_ceil distance
logical_extent w r = div_ceil w (distance w r) r.m_stride

-- `idx * base + idx.min(rem)`, times the stride: where the slots of the given indices begin.
unfoldable pub slot_offset : ℕ → IdxRange → Vec → Vec → Vec
unfolding logical_extent vec_add vec_mul vec_div vec_mod vec_min
slot_offset w r num_threads idx =
    let base = vec_div (logical_extent w r) num_threads in
    let rem = vec_mod (logical_extent w r) num_threads in
    vec_mul w (vec_add w (vec_mul w idx base) (vec_min idx rem)) r.m_stride

-- `end`, cropped to the end of the range.
unfoldable pub slot_end : ℕ → IdxRange → ThreadSpace → Vec
unfolding slot_offset vec_min distance vec_add fill
slot_end w r ts = vec_min (distance w r) (
    slot_offset w r ts.m_thread_count (vec_add w ts.m_thread_idx (fill (length ts.m_thread_idx) 1)))

unfoldable pub begin : ℕ → TiledIdxContainer → ConstIterator
unfolding map_to make_iterator slot_offset slot_end vec_mul distance
begin w c =
    let r = c.m_idx_range in
    let ts = map_to w c.c_select c.m_thread_space in
    elim (c.idx_mapper) [
      | Layout.strided ↦
          make_iterator w c.c_select r.m_begin (vec_mul w ts.m_thread_idx r.m_stride) (distance w r)
            (vec_mul w ts.m_thread_count r.m_stride)
      | Layout.contiguous ↦
          make_iterator w c.c_select r.m_begin (slot_offset w r ts.m_thread_count ts.m_thread_idx)
            (slot_end w r ts) r.m_stride
    ]

unfoldable pub end_of : ℕ → TiledIdxContainer → ℕ
unfolding map_to make_iterator_end slot_end vec_add distance
end_of w c =
    let r = c.m_idx_range in
    elim (c.idx_mapper) [
      | Layout.strided ↦ make_iterator_end c.c_select (vec_add w r.m_begin (distance w r))
      | Layout.contiguous ↦
          make_iterator_end c.c_select
            (vec_add w r.m_begin (slot_end w r (map_to w c.c_select c.m_thread_space)))
    ]

-- `for(auto idx : container)`: the indices in the order of the visits; `none` if the fuel runs out.
unfoldable pub visit : ℕ → List ℕ → ℕ → ConstIterator → ℕ → Option (List Vec)
unfolding increment at_end
visit w c_select zero it slow_end = none
visit w c_select (suc fuel) it slow_end = elim (at_end c_select it slow_end) [
  | true ↦ some []
  | false ↦ Option.map (◌∷◌ it.m_current) (visit w c_select fuel (increment w c_select it) slow_end)
]

unfoldable pub visited : ℕ → ℕ → TiledIdxContainer → Option (List Vec)
unfolding visit begin end_of
visited w fuel c = visit w c.c_select fuel (begin w c) (end_of w c)
