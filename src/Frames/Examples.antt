-- ===== src/Frames/Examples.antt =====
-- Concrete inputs for the theorem on include/alpaka/onHost/internal/interface.hpp, getFrameSpec.
use alpaka.Base.{
  ℕ, zero, suc, ◌-◌, ◌/◌, ◌^◌, ◌<◌, ◌≤◌, ◌≡◌, refl, ap, arith, [], ◌∷◌, some, true, false, ltb,
  lt→ltb, wrap, subst, Bool-cases, inl, inr, ltb→lt,
}
use alpaka.Vec.{Vec, product}
use alpaka.Executor.{ThreadSpec}
use alpaka.Adjust.{adjust_to_limit}
use alpaka.Adjust.Limit.{total}
use alpaka.Frames.Powers.{IsPower}
use alpaka.Frames.Launch.{adjust_thread_spec-IsPower}
use alpaka.Frames.{adjust_thread_spec, FrameSpec, get_frame_spec}
use alpaka.Frames.Extents.{CountsZeros}
use alpaka.Frames.Result.{IsDivided, get_frame_spec-IsFound}
use alpaka.Frames.Search.{IsFound}

-- The number of bits up to the highest that is set.
unfoldable bit_width : ℕ → ℕ → ℕ
bit_width zero n = 0
bit_width (suc w) n = elim (ltb 0 n) [ true ↦ suc (bit_width w (n / 2)) | false ↦ 0 ]

unfoldable countl_zero_16 : ℕ → ℕ
unfolding bit_width
countl_zero_16 n = 16 - bit_width 16 n

ltb_false→le : (a b : ℕ) → ltb a b ≡ false → b ≤ a
ltb_false→le a b h = ground arith

bit_width_none : (w n : ℕ) → ltb 0 n ≡ false → bit_width w n ≡ 0
unfolding bit_width
bit_width_none zero n t = refl
bit_width_none (suc w) n t = rw (t, bit_width) refl

bit_width-bounds :
    (w n : ℕ)
    → 0 < n
    → n < 2 ^ w
    → (b : ℕ) × (bit_width w n ≡ suc b) × (b < w) × (2 ^ b ≤ n) × (n < 2 ^ suc b)
unfolding bit_width
bit_width-bounds zero n p h = absurd (omega (arith, h))
bit_width-bounds (suc w) n p h = elim (Bool-cases (ltb 0 (n / 2))) [
  | inl t ↦
      let (b, e, less, lower, upper) =
        bit_width-bounds w (n / 2) (ltb→lt 0 (n / 2) t) (omega (arith, h)) in
      (
        suc b,
        rw (lt→ltb 0 n p, bit_width) (ap suc e),
        omega (arith, less),
        omega (arith, lower),
        omega (arith, upper),
      )
  | inr t ↦ (
    0,
    rw (lt→ltb 0 n p, bit_width) (ap suc (bit_width_none w (n / 2) t)),
    omega arith,
    omega arith,
    omega (arith, ltb_false→le 0 (n / 2) t),
  )
]

countl_zero_16-CountsZeros : CountsZeros 16 countl_zero_16
unfolding countl_zero_16
countl_zero_16-CountsZeros = record {
  bounded = λ n p h. let (b, e, less, lower, upper) = bit_width-bounds 16 n p h in omega (arith, e);
  lower = λ n p h.
      let (b, e, less, lower, upper) = bit_width-bounds 16 n p h in
      subst (λ k. 2 ^ k ≤ n) {x = b} (omega (arith, e, less)) lower;
  upper = λ n p h.
      let (b, e, less, lower, upper) = bit_width-bounds 16 n p h in
      subst (λ k. n < 2 ^ k) {x = suc b} (omega (arith, e, less)) upper;
}

abbrev image : Vec
image = 100 ∷ 1000 ∷ []

-- A frame of 32 columns, doubled in the dimension that has the most frames.
image_frames :
    get_frame_spec 16 countl_zero_16 513 32 image
    ≡ some (record { num_frames = 12 ∷ 15 ∷ []; frame_extents = 8 ∷ 64 ∷ [] })
unfolding get_frame_spec countl_zero_16 wrap
image_frames = refl

get_frame_spec-IsFound_example :
    (spec : FrameSpec) × (get_frame_spec 16 countl_zero_16 513 32 image ≡ some spec)
    × IsFound 512 image spec.frame_extents
    × IsDivided image spec
get_frame_spec-IsFound_example =
    get_frame_spec-IsFound 16 countl_zero_16 32 image countl_zero_16-CountsZeros (omega arith)
      (omega arith) (omega arith) (omega arith)
      (omega arith, omega arith, (omega arith, omega arith, tt))

-- A device with at most 100 threads in a block gets 64 of them for the frame.
image_threads :
    adjust_thread_spec 16 73 100 (record { num_frames = 12 ∷ 15 ∷ []; frame_extents = 8 ∷ 64 ∷ [] })
    ≡ some (record { num_blocks = 12 ∷ 15 ∷ []; num_threads = 8 ∷ 8 ∷ [] })
unfolding adjust_thread_spec adjust_to_limit wrap
image_threads = refl

adjust_thread_spec-IsPower_example :
    (spec : FrameSpec) × (get_frame_spec 16 countl_zero_16 513 32 image ≡ some spec)
    × (t : ThreadSpec) × (adjust_thread_spec 16 (suc (total spec.frame_extents)) 100 spec ≡ some t)
    × IsPower (product 16 t.num_threads)
    × (product 16 t.num_threads ≤ wrap 16 100)
    × (product 16 t.num_threads ≤ product 16 spec.frame_extents)
    × (product 16 spec.frame_extents ≤ 512)
unfolding wrap
adjust_thread_spec-IsPower_example =
    adjust_thread_spec-IsPower 16 countl_zero_16 32 100 image countl_zero_16-CountsZeros
      (omega arith) (omega arith) (omega arith) (omega arith)
      (omega arith, omega arith, (omega arith, omega arith, tt)) (omega arith)
