-- ===== src/Memory.antt =====
-- include/alpaka/mem/DataPitches.hpp, include/alpaka/mem/MdSpan.hpp and the memory layout of
-- include/alpaka/api/util.hpp: pitches, sizes and addresses of n-dimensional data, in bytes. The
-- index type has w bits; `size` is `sizeof` of the element type.
pub mod Address
pub mod Decode
mod Examples
use alpaka.Base.{
  ℕ, zero, suc, ◌+◌, ◌*◌, ◌<◌, List, [], ◌∷◌, Bool, true, false, Option, none, some, get_or, length,
  replicate, leb, ◌==◌, ◌||◌, set, add_w, mul_w, if◌then◌else◌,
}
use mathlib.Core.Option
use alpaka.Vec.{Vec, back, erase_back}
use alpaka.Util

-- `calculatePitchesFromExtents`: the loop fills the pitches from the back.
unfoldable pub calculate_pitches_from_extents : ℕ → ℕ → Vec → Vec
calculate_pitches_from_extents w size [] = []
calculate_pitches_from_extents w size (e ∷ []) = size ∷ []
calculate_pitches_from_extents w size (e ∷ f ∷ es) =
    let rest = calculate_pitches_from_extents w size (f ∷ es) in mul_w w f (get_or rest 0 0) ∷ rest

-- `calculatePitches`, for two dimensions or more, with a given pitch of the rows.
unfoldable pub calculate_pitches : ℕ → ℕ → Vec → ℕ → Vec
calculate_pitches w size [] row_pitch_bytes = []
calculate_pitches w size (e ∷ []) row_pitch_bytes = size ∷ []
calculate_pitches w size (e ∷ f ∷ []) row_pitch_bytes = row_pitch_bytes ∷ size ∷ []
calculate_pitches w size (e ∷ f ∷ g ∷ es) row_pitch_bytes =
    let rest = calculate_pitches w size (f ∷ g ∷ es) row_pitch_bytes in
    mul_w w f (get_or rest 0 0) ∷ rest

-- `emulatedAlignedMemDescription` for two dimensions or more: the pitch of the rows,
unfoldable pub row_pitch_in_bytes : ℕ → ℕ → ℕ → Vec → ℕ
unfolding back Util.div_ceil
row_pitch_in_bytes w size alignment extents =
    mul_w w (Util.div_ceil w (mul_w w (back extents) size) alignment) alignment

-- the pitches, and the size of the memory as a 64-bit number.
unfoldable pub aligned_pitches : ℕ → ℕ → ℕ → Vec → Vec
unfolding row_pitch_in_bytes calculate_pitches
aligned_pitches w size alignment extents =
    calculate_pitches w size extents (row_pitch_in_bytes w size alignment extents)

unfoldable pub mem_size_in_byte : ℕ → ℕ → ℕ → Vec → ℕ
unfolding aligned_pitches
mem_size_in_byte w size alignment extents =
    mul_w 64 (get_or (aligned_pitches w size alignment extents) 0 0) (get_or extents 0 0)

-- The loop of `MdSpan::ptr`: `offset += m_pitch[d] * idx[d]` over all dimensions but the last.
unfoldable pub offset_loop : ℕ → ℕ → Vec → Vec → ℕ
offset_loop w offset (p ∷ ps) (i ∷ is) = offset_loop w (add_w w offset (mul_w w p i)) ps is
offset_loop w offset _ _ = offset

-- The distance in bytes of an element from the origin. `DataPitches` stores all pitches but the last.
unfoldable pub ptr_offset : ℕ → ℕ → Vec → Vec → ℕ
unfolding offset_loop erase_back back
ptr_offset w size pitches idx = offset_loop w (mul_w w size (back idx)) (erase_back pitches) idx
