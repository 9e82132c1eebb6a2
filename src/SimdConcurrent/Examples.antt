-- ===== src/SimdConcurrent/Examples.antt =====
-- A concrete input for the theorem on include/alpaka/onAcc/internal/SimdConcurrent.hpp: three rows of 21
-- elements, in packs of four, two packs per call, and two workers per row.
use alpaka.Base.{◌≡◌, refl, arith, [], ◌∷◌, some, wrap}
use alpaka.Vec.Linear.{InBounds}
use alpaka.Flat.{Layout}
use alpaka.SimdConcurrent.{SimdPolicy, pack_calls, element_calls}
use alpaka.SimdConcurrent.Calls.{Call, Handles, StaysInside}
use alpaka.SimdConcurrent.Disjoint.{concurrent-disjoint}
use alpaka.SimdConcurrent.Cover.{concurrent-cover}
use alpaka.SimdConcurrent.Places.{IsConcurrent}

abbrev policy : SimdPolicy
policy = record { simd_width = 4; num_simd_per_fn_call = 2; idx_layout = Layout.strided }

policy-IsConcurrent : IsConcurrent 32 policy (1 ∷ 2 ∷ []) (3 ∷ 21 ∷ [])
policy-IsConcurrent = record {
  has_width = omega arith;
  has_packs = omega arith;
  call_fits = omega arith;
  room = (omega arith, omega arith, (omega arith, omega arith));
}

inside : InBounds (3 ∷ 21 ∷ []) (2 ∷ 13 ∷ [])
inside = (omega arith, (omega arith, tt))

concurrent-cover_example :
    StaysInside 32 policy (1 ∷ 2 ∷ []) (3 ∷ 21 ∷ []) (0 ∷ 1 ∷ [])
    × (call : Call) × Handles 32 policy (1 ∷ 2 ∷ []) (3 ∷ 21 ∷ []) call (2 ∷ 13 ∷ [])
concurrent-cover_example =
    concurrent-cover 32 policy (1 ∷ 2 ∷ []) (3 ∷ 21 ∷ []) policy-IsConcurrent (0 ∷ 1 ∷ [])
      (2 ∷ 13 ∷ []) (omega arith, (omega arith, tt)) inside

-- The second worker of a single row has one call with two packs, and two of the five elements left.
one_row :
    pack_calls 32 3 policy (record { m_thread_idx = 1 ∷ []; m_thread_count = 2 ∷ [] }) (21 ∷ [])
    ≡ some (((4 ∷ []) ∷ (12 ∷ []) ∷ []) ∷ [])
unfolding pack_calls wrap
one_row = refl

one_row_rest :
    element_calls 32 3 policy (record { m_thread_idx = 1 ∷ []; m_thread_count = 2 ∷ [] }) (21 ∷ [])
    ≡ some ((17 ∷ []) ∷ (19 ∷ []) ∷ [])
unfolding element_calls wrap
one_row_rest = refl

row-IsConcurrent : IsConcurrent 32 policy (2 ∷ []) (21 ∷ [])
row-IsConcurrent = record {
  has_width = omega arith;
  has_packs = omega arith;
  call_fits = omega arith;
  room = (omega arith, omega arith);
}

abbrev second_pack : Call
second_pack = Call.pack (1 ∷ []) 1

in_second_pack : Handles 32 policy (2 ∷ []) (21 ∷ []) second_pack (13 ∷ [])
unfolding alpaka.SimdConcurrent.Packs.concat
in_second_pack = (
  (omega arith, tt),
  3,
  ((4 ∷ []) ∷ (12 ∷ []) ∷ []) ∷ [],
  one_row,
  omega arith,
  (omega arith, omega arith),
)

concurrent-disjoint_example : second_pack ≡ second_pack
concurrent-disjoint_example =
    concurrent-disjoint 32 policy (2 ∷ []) (21 ∷ []) row-IsConcurrent second_pack second_pack
      (13 ∷ []) (omega arith, tt) in_second_pack in_second_pack
