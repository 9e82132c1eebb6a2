-- ===== src/IdxRange.antt =====
-- include/alpaka/mem/IdxRange.hpp: a strided n-dimensional index range, over w-bit indices.
use alpaka.Base.{ℕ}
use alpaka.Vec.{Vec, fill, vec_add, vec_sub, vec_mul}

pub record IdxRange : Type 0 where
  pub m_begin : Vec
  pub m_end : Vec
  pub m_stride : Vec

-- The constructors that leave out the stride, or the begin too.
unfoldable pub from_begin_end : ℕ → Vec → Vec → IdxRange
unfolding fill
from_begin_end dim b e = record { m_begin = b; m_end = e; m_stride = fill dim 1 }

unfoldable pub from_extent : ℕ → Vec → IdxRange
unfolding fill
from_extent dim extent = record { m_begin = fill dim 0; m_end = extent; m_stride = fill dim 1 }

-- `operator%`: the stride is multiplied.
unfoldable pub scale_stride : ℕ → IdxRange → Vec → IdxRange
unfolding vec_mul
scale_stride w r rhs = record r { m_stride = vec_mul w r.m_stride rhs }

-- `operator>>` and `operator<<`: the range is moved.
unfoldable pub shift_up : ℕ → IdxRange → Vec → IdxRange
unfolding vec_add
shift_up w r rhs = record {
  m_begin = vec_add w r.m_begin rhs;
  m_end = vec_add w r.m_end rhs;
  m_stride = r.m_stride;
}

unfoldable pub shift_down : ℕ → IdxRange → Vec → IdxRange
unfolding vec_sub
shift_down w r rhs = record {
  m_begin = vec_sub w r.m_begin rhs;
  m_end = vec_sub w r.m_end rhs;
  m_stride = r.m_stride;
}

unfoldable pub distance : ℕ → IdxRange → Vec
unfolding vec_sub
distance w r = vec_sub w r.m_end r.m_begin
