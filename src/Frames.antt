-- ===== src/Frames.antt =====
-- include/alpaka/onHost/internal/interface.hpp, getFrameSpec, and roundDownToPowerOfTwo of
-- include/alpaka/utility.hpp: how the indices of a problem are divided into frames. `std::countl_zero` is a
-- parameter.
pub mod Powers
pub mod Extents
pub mod Search
pub mod Result
pub mod Launch
mod Examples
use mathlib.Core.Option
use alpaka.Base.{
  ℕ, zero, suc, ◌+◌, ◌-◌, ◌*◌, ◌/◌, ◌^◌, min, true, false, [], ◌∷◌, Option, none, some, length,
  get_or, set, ltb, leb, wrap, mul_w,
}
use alpaka.Vec.{Vec, fill, back, r_assign, zip_with}
use alpaka.Util.{div_ex_zero}
use alpaka.Adjust.{adjust_to_limit}
use alpaka.Executor.{ThreadSpec}

unfoldable pub first_set_bit : ℕ → (ℕ → ℕ) → ℕ → ℕ
first_set_bit w countl_zero value = w - 1 - countl_zero value

unfoldable pub round_down_to_power_of_two : ℕ → (ℕ → ℕ) → ℕ → ℕ
unfolding first_set_bit
round_down_to_power_of_two w countl_zero value = wrap w (2 ^ first_set_bit w countl_zero value)

-- The loop that looks for the dimension with the most frames, from dimension i on.
unfoldable pub widest_loop : ℕ → ℕ → ℕ → Vec → Vec → ℕ
widest_loop i max_idx max_value (e ∷ extent_md) (f ∷ frame_extents) =
    let v = e / f / 2 in
    elim (ltb max_value v) [
      | true ↦ widest_loop (suc i) i v extent_md frame_extents
      | false ↦ widest_loop (suc i) max_idx max_value extent_md frame_extents
    ]
widest_loop i max_idx max_value _ _ = max_idx

-- `while(numFrameElements > 1)`; `none` if the fuel runs out.
unfoldable pub frame_loop : ℕ → ℕ → ℕ → Vec → Vec → Option Vec
unfolding widest_loop
frame_loop w zero num_frame_elements extent_md frame_extents = none
frame_loop w (suc fuel) num_frame_elements extent_md frame_extents =
    let max_idx = widest_loop 0 (length extent_md - 1) 0 extent_md frame_extents in
    let v = get_or extent_md max_idx 0 / get_or frame_extents max_idx 0 / 2 in
    elim (ltb 1 num_frame_elements) [
      | false ↦ some frame_extents
      | true ↦ elim (leb 1 v) [
        | false ↦ some frame_extents
        | true ↦
            frame_loop w fuel (num_frame_elements / 2) extent_md
              (set frame_extents max_idx (mul_w w (get_or frame_extents max_idx 0) 2))
      ]
    ]

-- `FrameSpec`
pub record FrameSpec : Type 0 where
  pub num_frames : Vec
  pub frame_extents : Vec

unfoldable pub fast_dimension_value : ℕ → (ℕ → ℕ) → ℕ → Vec → ℕ
unfolding round_down_to_power_of_two back
fast_dimension_value w countl_zero warp_size extent_md =
    round_down_to_power_of_two w countl_zero (min warp_size (back extent_md))

unfoldable pub get_frame_spec : ℕ → (ℕ → ℕ) → ℕ → ℕ → Vec → Option FrameSpec
unfolding fast_dimension_value frame_loop fill r_assign zip_with div_ex_zero wrap
get_frame_spec w countl_zero fuel warp_size extent_md =
    let fast = fast_dimension_value w countl_zero warp_size extent_md in
    Option.map
      (λ frame_extents. (record {
        num_frames = zip_with div_ex_zero extent_md frame_extents;
        frame_extents = frame_extents;
      }))
      (frame_loop w fuel (wrap w 512 / fast) extent_md (r_assign (fill (length extent_md) 1) fast))

-- `AdjustThreadSpec` for an extent that is known at run time.
unfoldable pub adjust_thread_spec : ℕ → ℕ → ℕ → FrameSpec → Option ThreadSpec
unfolding adjust_to_limit
adjust_thread_spec w fuel max_threads_per_block frame_spec =
    Option.map (λ result. (record { num_blocks = frame_spec.num_frames; num_threads = result }))
      (adjust_to_limit w fuel frame_spec.frame_extents max_threads_per_block)
