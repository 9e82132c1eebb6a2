-- ===== src/Memory/Examples.antt =====
-- A concrete input for the theorem on include/alpaka/mem/MdSpan.hpp.
use alpaka.Base.{◌+◌, ◌/◌, ◌%◌, ◌<◌, ◌≡◌, wrap, arith, [], ◌∷◌}
use alpaka.Vec.{back, erase_back}
use alpaka.Vec.Linear.{volume}
use alpaka.Vec.RoundTrip.{unrank}
use alpaka.Memory.{ptr_offset, aligned_pitches, mem_size_in_byte, row_pitch_in_bytes}
use alpaka.Memory.Decode.{IsLayout, row, ptr_offset-decode}

-- Three rows of five elements of four bytes, the rows aligned to 16 bytes.
abbrev a_layout : IsLayout 32 4 16 3 5 []
unfolding volume erase_back back row_pitch_in_bytes wrap
a_layout = record {
  narrow = omega arith;
  has_size = omega arith;
  aligned = omega arith;
  row_fits = omega arith;
  memory_fits = omega arith;
}

ptr_offset-decode_example :
    (ptr_offset 32 4 (aligned_pitches 32 4 16 (3 ∷ 5 ∷ [])) (2 ∷ 4 ∷ []) + 3
      < mem_size_in_byte 32 4 16 (3 ∷ 5 ∷ []))
    × (unrank (erase_back (3 ∷ 5 ∷ [])) (
          (ptr_offset 32 4 (aligned_pitches 32 4 16 (3 ∷ 5 ∷ [])) (2 ∷ 4 ∷ []) + 3)
          / row 32 4 16 3 5 [])
        ≡ erase_back (2 ∷ 4 ∷ []))
    × ((ptr_offset 32 4 (aligned_pitches 32 4 16 (3 ∷ 5 ∷ [])) (2 ∷ 4 ∷ []) + 3)
          % row 32 4 16 3 5 []
          / 4
        ≡ back (2 ∷ 4 ∷ []))
ptr_offset-decode_example =
    ptr_offset-decode 32 4 16 3 5 [] a_layout (2 ∷ 4 ∷ []) 3 (omega arith, (omega arith, tt))
      (omega arith)
