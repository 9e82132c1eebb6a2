-- ===== src/Frames/Launch.antt =====
-- interface.hpp, getFrameSpec, with Device.hpp of the CUDA and HIP back end, AdjustThreadSpec: the
-- number of threads in a block.
use native.Mathlib.Nat.{mul-le-mul, mul-le-mul_left}
use mathlib.Core.Option
use alpaka.Base.{
  ℕ, zero, suc, ◌/◌, ◌^◌, ◌<◌, ◌≤◌, ◌≡◌, sym, ap, ◌∙◌, arith, [], ◌∷◌, Option, none, some, length,
  get_or, max, ltb, Bool-cases, inl, inr, wrap, wrap_small, subst, pow_pos,
}
use alpaka.Vec.{Vec, product}
use alpaka.Vec.Linear.{volume, product-wrap}
use alpaka.Util.{div_ex_zero}
use alpaka.Executor.{ThreadSpec}
use alpaka.Adjust.{adjust_round, adjust_loop, adjust_to_limit}
use alpaka.Adjust.Limit.{IsShrunk, total, adjust_to_limit-IsShrunk}
use alpaka.Frames.{FrameSpec, get_frame_spec, adjust_thread_spec}
use alpaka.Frames.Powers.{IsPower, ArePowers, ArePowers-set, volume-IsPower}
use alpaka.Frames.Extents.{CountsZeros, AllPositive, Fits-length}
use alpaka.Frames.Result.{get_frame_spec-IsFound}

IsPower-half : (n : ℕ) → IsPower n → IsPower (max (n / 2) 1)
IsPower-half n (zero, e) = (0, omega (arith, e))
IsPower-half n (suc k, e) = (k, omega (arith, e, pow_pos k))

half_at : (v : Vec) (i : ℕ) → ArePowers v → IsPower (max (get_or v i 0 / 2) 1)
half_at [] i h = (0, omega arith)
half_at (x ∷ v) zero h = IsPower-half x h.0
half_at (x ∷ v) (suc i) h = half_at v i h.1

round-ArePowers : (w : ℕ) (v : Vec) (l : ℕ) → ArePowers v → ArePowers (adjust_round w v l)
unfolding adjust_round div_ex_zero
round-ArePowers w v l h = elim (Bool-cases (ltb l (product w v))) [
  | inl t ↦ rw (t, adjust_round) (ArePowers-set v _ _ h (half_at v _ h))
  | inr t ↦ rw (t, adjust_round) h
]

-- A vector, if there is one, of powers of two.
abbrev Powers : Option Vec → Type 0
Powers none = Unit {0}
Powers (some r) = ArePowers r

loop-Powers : (w fuel : ℕ) (v : Vec) (l : ℕ) → ArePowers v → Powers (adjust_loop w fuel v l)
unfolding adjust_loop
loop-Powers w zero v l h = tt
loop-Powers w (suc fuel) v l h = elim (Bool-cases (ltb l (product w v))) [
  | inl t ↦
      rw (t, adjust_loop) (loop-Powers w fuel (adjust_round w v l) l (round-ArePowers w v l h))
  | inr t ↦ rw (t, adjust_loop) h
]

volume-IsShrunk : (v r : Vec) → IsShrunk v r → volume r ≤ volume v
unfolding volume
volume-IsShrunk [] [] h = omega arith
volume-IsShrunk [] (y ∷ r) (e, h) = absurd (omega (arith, e))
volume-IsShrunk (x ∷ v) [] (e, h) = absurd (omega (arith, e))
volume-IsShrunk (x ∷ v) (y ∷ r) (e, h) =
    mul-le-mul (h 0).0 (volume-IsShrunk v r (omega (arith, e), λ k. h (suc k)))

-- The product of powers of two is computed exactly if it fits.
product-volume :
    (w : ℕ) (v : Vec) → 0 < length v → ArePowers v → volume v < 2 ^ w → product w v ≡ volume v
product-volume w [] n h fits = absurd (omega arith)
product-volume w (x ∷ v) n h fits =
    let (k, e) = volume-IsPower v h.1 in
    product-wrap w x v (
      unfold volume in
      omega (arith, fits, mul-le-mul_left {m = 1} {n = volume v} x (omega (arith, e, pow_pos k))))
    ∙ wrap_small w fits

-- Under the conditions of getFrameSpec's theorem, and for a device whose greatest number of threads is
-- positive as an index, the frame is found and AdjustThreadSpec ends, with fuel for one more round than
-- the sum of the frame's extents. The number of threads in a block is then a power of two, within the
-- device's limit and not above the number of elements of the frame, which is at most 512.
pub adjust_thread_spec-IsPower :
    (w : ℕ) (countl_zero : ℕ → ℕ) (warp_size max_threads : ℕ) (extents : Vec)
    → CountsZeros w countl_zero
    → 512 < 2 ^ w
    → 0 < warp_size
    → warp_size ≤ 512
    → 0 < length extents
    → AllPositive w extents
    → 0 < wrap w max_threads
    → (spec : FrameSpec) × (get_frame_spec w countl_zero 513 warp_size extents ≡ some spec)
      × (t : ThreadSpec) × (adjust_thread_spec w (suc (total spec.frame_extents)) max_threads spec
          ≡ some t)
      × IsPower (product w t.num_threads)
      × (product w t.num_threads ≤ wrap w max_threads)
      × (product w t.num_threads ≤ product w spec.frame_extents)
      × (product w spec.frame_extents ≤ 512)
unfolding adjust_thread_spec adjust_to_limit
adjust_thread_spec-IsPower w countl_zero warp_size max_threads extents c wide p q n pos
      some_threads =
    let (spec, e, found, divided) =
      get_frame_spec-IsFound w countl_zero warp_size extents c wide p q n pos in
    let frame_length : 0 < length spec.frame_extents =
      omega (arith, n, Fits-length extents spec.frame_extents found.fits) in
    let (r, e', within, shrunk) =
      adjust_to_limit-IsShrunk w spec.frame_extents max_threads frame_length some_threads in
    let powers : ArePowers r = subst Powers e' (
      loop-Powers w (suc (total spec.frame_extents)) spec.frame_extents (wrap w max_threads)
        found.powers) in
    let smaller = volume-IsShrunk spec.frame_extents r shrunk in
    let exact =
      product-volume w r (omega (arith, frame_length, shrunk.0)) powers
        (omega (arith, smaller, found.few, wide)) in
    let exact' =
      product-volume w spec.frame_extents frame_length found.powers
        (omega (arith, found.few, wide)) in
    (
      spec,
      e,
      record { num_blocks = spec.num_frames; num_threads = r },
      ap (Option.map (λ result. (record { num_blocks = spec.num_frames; num_threads = result })))
          e',
      subst IsPower (sym exact) (volume-IsPower r powers),
      within,
      omega (arith, exact, exact', smaller),
      omega (arith, exact', found.few),
    )
