-- ===== src/Frames/Result.antt =====
-- interface.hpp, getFrameSpec: the frame that is found and the number of frames.
use native.Mathlib.Nat.{div-le_self, div-mul-le_self, lt-mul-div-succ, le-div_iff_mul-le}
use alpaka.Base.{
  ℕ, zero, suc, ◌+◌, ◌*◌, ◌/◌, ◌^◌, ◌<◌, ◌≤◌, ◌≡◌, refl, ap, ◌∙◌, arith, [], ◌∷◌, some, length,
  get_or, replicate, min, max, wrap_small,
}
use mathlib.Core.Option
use alpaka.Vec.{Vec, back, fill, r_assign, zip_with}
use alpaka.Vec.Linear.{volume}
use alpaka.Util.{div_ex_zero}
use alpaka.SimdConcurrent.Ranges.{r_assign-cons}
use alpaka.Frames.{FrameSpec, frame_loop, fast_dimension_value, get_frame_spec}
use alpaka.Frames.Powers.{
  IsPower, ArePowers, ArePowers-get_or, ArePowers-set, ArePowers-replicate, IsPower-quotient,
}
use alpaka.Frames.Extents.{CountsZeros, Fits, Fits-length, AllPositive, round_down_lem}
use alpaka.Frames.Search.{IsFound, IsPower-pos, frame_loop_lem}

-- The frame the loop starts with.
start_lem :
    (w fast : ℕ) (extents : Vec)
    → 0 < length extents
    → AllPositive w extents
    → fast ≤ back extents
    → Fits extents (r_assign (fill (length extents) 1) fast)
      × (volume (r_assign (fill (length extents) 1) fast) ≡ fast)
unfolding fill volume back r_assign
start_lem w fast [] n pos h = absurd (omega arith)
start_lem w fast (e ∷ []) n pos h = ((h, tt), omega arith)
start_lem w fast (e ∷ e' ∷ extents) n pos h =
    let (fits, full) = start_lem w fast (e' ∷ extents) (omega arith) pos.2 h in
    rw (r_assign-cons 1 1 (replicate (length extents) 1) fast)
      ((omega (arith, pos.0), fits), omega (arith, full))

back-bounds : (w : ℕ) (v : Vec) → 0 < length v → AllPositive w v → (0 < back v) × (back v < 2 ^ w)
unfolding back
back-bounds w [] n h = absurd (omega arith)
back-bounds w (x ∷ []) n h = (h.0, h.1)
back-bounds w (x ∷ y ∷ v) n h = back-bounds w (y ∷ v) (omega arith) h.2

get_or-zip_with :
    (op : ℕ → ℕ → ℕ) (u v : Vec) (k : ℕ)
    → k < length u
    → length v ≡ length u
    → get_or (zip_with op u v) k 0 ≡ op (get_or u k 0) (get_or v k 0)
unfolding zip_with
get_or-zip_with op [] v k h e = absurd (omega arith)
get_or-zip_with op (x ∷ u) [] k h e = absurd (omega (arith, e))
get_or-zip_with op (x ∷ u) (y ∷ v) zero h e = refl
get_or-zip_with op (x ∷ u) (y ∷ v) (suc k) h e =
    get_or-zip_with op u v k (omega arith) (omega (arith, e))

-- The frames cover the problem but for less than a frame in each dimension.
abbrev pub IsDivided : Vec → FrameSpec → Type 0
IsDivided extents spec =
    (k : ℕ)
    → k < length extents
    → (get_or spec.num_frames k 0 * get_or spec.frame_extents k 0 ≤ get_or extents k 0)
      × (get_or extents k 0 < (get_or spec.num_frames k 0 + 1) * get_or spec.frame_extents k 0)

Fits-get_or :
    (extents frame : Vec) (k : ℕ) → Fits extents frame → get_or frame k 0 ≤ get_or extents k 0
Fits-get_or [] [] k h = omega arith
Fits-get_or [] (f ∷ frame) k h = absurd h
Fits-get_or (e ∷ extents) [] k h = absurd h
Fits-get_or (e ∷ extents) (f ∷ frame) zero h = h.0
Fits-get_or (e ∷ extents) (f ∷ frame) (suc k) h = Fits-get_or extents frame k h.1

quotient_bounds :
    (e f : ℕ) → 0 < f → f ≤ e → (max (e / f) 1 * f ≤ e) × (e < (max (e / f) 1 + 1) * f)
quotient_bounds e f p h =
    let one = (le-div_iff_mul-le {k = f} {x = 1} {y = e} p).1 (omega arith) in
    let same = ap (λ (n : ℕ). n * f) {x = max (e / f) 1} {y = e / f} (omega (arith, one)) in
    (omega (arith, same, div-mul-le_self e f), omega (arith, same, lt-mul-div-succ e {b = f} p))

divided_lem :
    (extents frame : Vec)
    → ArePowers frame
    → Fits extents frame
    → IsDivided extents
        (record { num_frames = zip_with div_ex_zero extents frame; frame_extents = frame })
unfolding div_ex_zero
divided_lem extents frame powers fits k p =
    rw (get_or-zip_with div_ex_zero extents frame k p (Fits-length extents frame fits)) (
      quotient_bounds (get_or extents k 0) (get_or frame k 0)
        (IsPower-pos _
          (ArePowers-get_or frame k powers (omega (arith, Fits-length extents frame fits))))
        (Fits-get_or extents frame k fits))

fast_lem :
    (w : ℕ) (countl_zero : ℕ → ℕ) (warp_size : ℕ) (extents : Vec)
    → CountsZeros w countl_zero
    → 0 < warp_size
    → 0 < length extents
    → AllPositive w extents
    → IsPower (fast_dimension_value w countl_zero warp_size extents)
      × (fast_dimension_value w countl_zero warp_size extents ≤ min warp_size (back extents))
unfolding fast_dimension_value
fast_lem w countl_zero warp_size extents c p n pos =
    let (a, b) = back-bounds w extents n pos in
    round_down_lem w countl_zero (min warp_size (back extents)) c (omega (arith, p, a))
      (omega (arith, b))

-- For index types wider than 9 bits, warps of at most 512 threads and a problem with at least one
-- dimension and no empty one, and with fuel above the 512 elements of a frame, getFrameSpec ends. The
-- extents of its frame are powers of two, none above the problem's. Together they have at most 512
-- elements, and fewer only if no extent can be doubled within the problem. The frames lie in the
-- problem and leave less than one frame over in each dimension.
pub get_frame_spec-IsFound :
    (w : ℕ) (countl_zero : ℕ → ℕ) (warp_size : ℕ) (extents : Vec)
    → CountsZeros w countl_zero
    → 512 < 2 ^ w
    → 0 < warp_size
    → warp_size ≤ 512
    → 0 < length extents
    → AllPositive w extents
    → (spec : FrameSpec) × (get_frame_spec w countl_zero 513 warp_size extents ≡ some spec)
      × IsFound 512 extents spec.frame_extents
      × IsDivided extents spec
unfolding get_frame_spec
get_frame_spec-IsFound w countl_zero warp_size extents c wide p q n pos =
    let (power, below) = fast_lem w countl_zero warp_size extents c p n pos in
    let (quotient, exact) = IsPower-quotient 9 fast power (omega (arith, below)) in
    let (fits, full) = start_lem w fast extents n pos (omega (arith, below)) in
    let (r, e, found) =
      frame_loop_lem w 513 512 (512 / fast) extents (r_assign (fill (length extents) 1) fast) pos
        (record {
          powers = ArePowers-set _ _ fast (ArePowers-replicate (length extents)) power;
          fits = fits;
          left = quotient;
          full = ap (λ n. n * (512 / fast)) full ∙ exact;
        })
        (omega (arith, div-le_self 512 fast)) in
    (
      record { num_frames = zip_with div_ex_zero extents r; frame_extents = r },
      ap
          (Option.map (λ frame. (record {
            num_frames = zip_with div_ex_zero extents frame;
            frame_extents = frame;
          })))
          (ap (λ n. frame_loop w 513 (n / fast) extents (r_assign (fill (length extents) 1) fast))
              (wrap_small w wide)
            ∙ e),
      found,
      divided_lem extents r found.powers found.fits,
    )
  where
    fast : ℕ
    fast = fast_dimension_value w countl_zero warp_size extents
