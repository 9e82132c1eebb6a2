-- ===== src/Memset/Examples.antt =====
-- A concrete input for the theorem on the memset of include/alpaka/api/host/Queue.hpp.
use alpaka.Base.{ℕ, ◌+◌, ◌≡◌, arith, wrap, List, [], ◌∷◌, some}
use alpaka.Vec.{back, erase_back}
use alpaka.Vec.Linear.{volume}
use alpaka.Memory.{aligned_pitches, ptr_offset, row_pitch_in_bytes}
use alpaka.Memory.Decode.{IsLayout}
use alpaka.Memset.{memset_rows}
use alpaka.Memset.Covers.{Covered, memset_rows-covers}

-- Three rows of five elements of four bytes, the rows aligned to 16 bytes.
abbrev a_layout : IsLayout 64 4 16 3 5 []
unfolding volume erase_back back row_pitch_in_bytes wrap
a_layout = record {
  narrow = omega arith;
  has_size = omega arith;
  aligned = omega arith;
  row_fits = omega arith;
  memory_fits = omega arith;
}

memset_rows-covers_example :
    (rows : List (ℕ × ℕ)) × (memset_rows 4 (aligned_pitches 64 4 16 (3 ∷ 5 ∷ [])) (3 ∷ 5 ∷ [])
      ≡ some rows)
    × Covered rows (ptr_offset 64 4 (aligned_pitches 64 4 16 (3 ∷ 5 ∷ [])) (2 ∷ 4 ∷ []) + 3)
memset_rows-covers_example =
    memset_rows-covers 4 16 3 5 [] a_layout (omega arith, (omega arith, tt)) (2 ∷ 4 ∷ []) 3
      (omega arith, (omega arith, tt)) (omega arith)
