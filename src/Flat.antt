-- ===== src/Flat.antt =====
-- include/alpaka/mem/FlatIdxContainer.hpp: the indices of a range that one worker of a group visits,
-- with the selected dimensions taken as one linear domain.
pub mod Steps
pub mod Loop
pub mod Select
pub mod Group
pub mod Partition
pub mod Slots
pub mod Position
pub mod Grid
mod Examples
use alpaka.Base.{
  ℕ, zero, suc, ◌+◌, ◌*◌, ◌/◌, ◌%◌, min, List, [], ◌∷◌, Option, none, some, Bool, true, false, leb,
  get_or, length, set, add_w, sub_w, mul_w,
}
use mathlib.Core.Option
use alpaka.Vec.{Vec, vec_add, vec_mul, vec_eq, div_ceil, product, linearize, map_to_nd, select}
use alpaka.IdxRange.{IdxRange, distance}
use alpaka.ThreadSpace.{ThreadSpace, iota, map_to}

pub data Layout : Type 0 where
  strided contiguous : Layout

pub record FlatIdxContainer : Type 0 where
  pub m_idx_range : IdxRange
  pub m_thread_space : ThreadSpace
  pub idx_mapper : Layout
  pub c_select : List ℕ

pub record ConstIterator : Type 0 where
  pub m_offset_md : Vec
  pub m_current : ℕ
  pub m_end : ℕ
  pub m_stride : ℕ
  pub m_extent_md : Vec
  pub m_stride_md : Vec

-- `v.ref(selection) += values` and `-=`: the assignment loop over the referenced components.
unfoldable pub ref_add : ℕ → Vec → List ℕ → Vec → Vec
ref_add w v (d ∷ ds) (x ∷ xs) = ref_add w (set v d (add_w w (get_or v d 0) x)) ds xs
ref_add w v _ _ = v

unfoldable pub ref_sub : ℕ → Vec → List ℕ → Vec → Vec
ref_sub w v (d ∷ ds) (x ∷ xs) = ref_sub w (set v d (sub_w w (get_or v d 0) x)) ds xs
ref_sub w v _ _ = v

-- `threadIdx * stride`, with the selected components taken off again.
unfoldable pub group_offset : ℕ → FlatIdxContainer → Vec → Vec
unfolding ref_sub vec_mul select
group_offset w c thread_idx =
    let offset = vec_mul w thread_idx c.m_idx_range.m_stride in
    ref_sub w offset c.c_select (select offset c.c_select)

unfoldable pub extent_of : ℕ → FlatIdxContainer → Vec
unfolding div_ceil select distance
extent_of w c =
    div_ceil w (select (distance w c.m_idx_range) c.c_select)
      (select c.m_idx_range.m_stride c.c_select)

-- The first linear index of slot s, of `num` slots: those before `logical_extent % num` have one
-- element more.
unfoldable pub slot_begin : ℕ → ℕ → ℕ → ℕ → ℕ
slot_begin w logical_extent num s =
    add_w w (mul_w w s (logical_extent / num)) (min s (logical_extent % num))

unfoldable pub begin_strided : ℕ → FlatIdxContainer → ConstIterator
unfolding map_to group_offset extent_of vec_add product linearize select
begin_strided w c =
    let ts = map_to w c.c_select c.m_thread_space in
    let num_threads = select ts.m_thread_count c.c_select in
    record {
      m_offset_md = vec_add w c.m_idx_range.m_begin (group_offset w c ts.m_thread_idx);
      m_current = linearize w num_threads (select ts.m_thread_idx c.c_select);
      m_end = product w (extent_of w c);
      m_stride = product w num_threads;
      m_extent_md = extent_of w c;
      m_stride_md = select c.m_idx_range.m_stride c.c_select;
    }

-- The number of slots is taken from the thread space as it was given, the index from the mapped one.
unfoldable pub begin_contiguous : ℕ → FlatIdxContainer → ConstIterator
unfolding map_to group_offset extent_of vec_add product linearize select slot_begin
begin_contiguous w c =
    let ts = map_to w c.c_select c.m_thread_space in
    let thread_count_md = select c.m_thread_space.m_thread_count c.c_select in
    let num_worker_slots = product w thread_count_md in
    let linear_slot_idx = linearize w thread_count_md (select ts.m_thread_idx c.c_select) in
    let logical_extent = product w (extent_of w c) in
    record {
      m_offset_md = vec_add w c.m_idx_range.m_begin (group_offset w c ts.m_thread_idx);
      m_current = slot_begin w logical_extent num_worker_slots linear_slot_idx;
      m_end =
          min (slot_begin w logical_extent num_worker_slots (add_w w linear_slot_idx 1))
            logical_extent;
      m_stride = 1;
      m_extent_md = extent_of w c;
      m_stride_md = select c.m_idx_range.m_stride c.c_select;
    }

unfoldable pub begin : ℕ → FlatIdxContainer → ConstIterator
unfolding begin_strided begin_contiguous
begin w c = elim (c.idx_mapper) [
  | Layout.strided ↦ begin_strided w c
  | Layout.contiguous ↦ begin_contiguous w c
]

-- `end()`: the value that a `const_iterator_end` stores.
unfoldable pub end_strided : ℕ → FlatIdxContainer → ℕ
unfolding extent_of product
end_strided w c = product w (extent_of w c)

unfoldable pub end_contiguous : ℕ → FlatIdxContainer → ℕ
unfolding map_to extent_of product linearize select slot_begin
end_contiguous w c =
    let ts = map_to w c.c_select c.m_thread_space in
    let num_threads = select ts.m_thread_count c.c_select in
    let logical_extent = product w (extent_of w c) in
    let next_linear_slot_idx =
      add_w w (linearize w num_threads (select ts.m_thread_idx c.c_select)) 1 in
    min (slot_begin w logical_extent (product w num_threads) next_linear_slot_idx) logical_extent

unfoldable pub end_of : ℕ → FlatIdxContainer → ℕ
unfolding end_strided end_contiguous
end_of w c = elim (c.idx_mapper) [
  | Layout.strided ↦ end_strided w c
  | Layout.contiguous ↦ end_contiguous w c
]

-- `operator*`, `operator++` and the comparison with the end.
unfoldable pub deref : ℕ → List ℕ → ConstIterator → Vec
unfolding ref_add vec_mul map_to_nd
deref w c_select it =
    ref_add w it.m_offset_md c_select
      (vec_mul w (map_to_nd w it.m_extent_md it.m_current) it.m_stride_md)

unfoldable pub increment : ℕ → ConstIterator → ConstIterator
increment w it = record it { m_current = add_w w it.m_current it.m_stride }

unfoldable pub at_end : ConstIterator → ℕ → Bool
at_end it e = leb e it.m_current

-- `traverse::Flat::make` with the selection that `MakeIter` passes, all dimensions of the range.
unfoldable pub make : IdxRange → ThreadSpace → Layout → FlatIdxContainer
unfolding iota
make r ts l = record {
  m_idx_range = r;
  m_thread_space = ts;
  idx_mapper = l;
  c_select = iota (length r.m_end);
}

-- `for(auto idx : container)`: the indices in the order of the visits; `none` if the fuel runs out.
unfoldable pub visit : ℕ → List ℕ → ℕ → ConstIterator → ℕ → Option (List Vec)
unfolding deref increment at_end
visit w c_select zero it e = none
visit w c_select (suc fuel) it e = elim (at_end it e) [
  | true ↦ some []
  | false ↦ Option.map (◌∷◌ (deref w c_select it)) (visit w c_select fuel (increment w it) e)
]

unfoldable pub visited : ℕ → ℕ → FlatIdxContainer → Option (List Vec)
unfolding visit begin end_of
visited w fuel c = visit w c.c_select fuel (begin w c) (end_of w c)
