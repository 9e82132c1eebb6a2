-- ===== src/Frames/Search.antt =====
-- interface.hpp, getFrameSpec: the loop that enlarges the frame.
use native.Mathlib.Nat.{div-lt_iff_lt-mul, mul-le-mul_left}
use alpaka.Base.{
  ℕ, zero, suc, ◌+◌, ◌-◌, ◌*◌, ◌/◌, ◌<◌, ◌≤◌, ◌≡◌, ◌⊎◌, refl, sym, ap, arith, some, false, length,
  get_or, ltb, leb, leb→le, ltb→lt, Bool-cases, inl, inr, pow_pos,
}
use alpaka.Vec.{Vec}
use alpaka.Vec.Linear.{volume}
use alpaka.Frames.{widest_loop, frame_loop}
use alpaka.Frames.Powers.{IsPower, ArePowers, ArePowers-get_or}
use alpaka.Frames.Extents.{
  Fits, Fits-length, AllPositive, IsFrame, double_step, widest_loop-Highest, ltb_false→le,
}

-- No component of the frame can be doubled.
abbrev pub IsTight : Vec → Vec → Type 0
IsTight extents frame = (k : ℕ) → k < length extents → get_or extents k 0 < 2 * get_or frame k 0

-- Powers of two that fit the problem, with `limit` elements together or no room for more.
pub record IsFound (limit : ℕ) (extents frame : Vec) : Type 0 where
  pub powers : ArePowers frame
  pub fits : Fits extents frame
  pub few : volume frame ≤ limit
  pub most : (volume frame ≡ limit) ⊎ IsTight extents frame

pub IsPower-pos : (n : ℕ) → IsPower n → 0 < n
IsPower-pos n (k, e) = omega (arith, e, pow_pos k)

quotient_lem : (e f : ℕ) → 0 < f → e / f / 2 ≤ 0 → e < 2 * f
quotient_lem e f p h = omega (arith, (div-lt_iff_lt-mul {k = f} {x = e} {y = 2} p).0 (omega arith))

leb_false→lt : (a b : ℕ) → leb a b ≡ false → b < a
leb_false→lt a b h = ground arith

few_lem :
    (limit num : ℕ) (extents frame : Vec) → IsFrame limit num extents frame → volume frame ≤ limit
few_lem limit num extents frame h =
    omega (arith, h.full, mul-le-mul_left {m = 1} {n = num} (volume frame) (IsPower-pos num h.left))

tight_lem :
    (extents frame : Vec)
    → ArePowers frame
    → Fits extents frame
    → (let at = widest_loop 0 (length extents - 1) 0 extents frame in
        get_or extents at 0 / get_or frame at 0 / 2 ≤ 0)
    → IsTight extents frame
tight_lem extents frame powers fits h k p =
    quotient_lem (get_or extents k 0) (get_or frame k 0)
      (IsPower-pos _
        (ArePowers-get_or frame k powers (omega (arith, Fits-length extents frame fits))))
      (omega (
        arith,
        h,
        (widest_loop-Highest q 0 (length extents - 1) 0 extents frame
              (λ i. sym (ap q {y = i} (omega arith))) (omega arith)).1
            k,
        ap q {x = 0 + k} {y = k} (omega arith),
      ))
  where
    q : ℕ → ℕ
    q i = get_or extents i 0 / get_or frame i 0 / 2

pub frame_loop_lem :
    (w fuel limit num : ℕ) (extents frame : Vec)
    → AllPositive w extents
    → IsFrame limit num extents frame
    → num < fuel
    → (r : Vec) × (frame_loop w fuel num extents frame ≡ some r) × IsFound limit extents r
unfolding frame_loop
frame_loop_lem w zero limit num extents frame pos h f = absurd (omega arith)
frame_loop_lem w (suc fuel) limit num extents frame pos h f = elim (Bool-cases (ltb 1 num)) [
  | inl t ↦ elim (Bool-cases (leb 1 (get_or extents at 0 / get_or frame at 0 / 2))) [
    | inl more ↦
        let (r, e, found) =
          frame_loop_lem w fuel limit (num / 2) extents _ pos
            (double_step w limit num at extents frame pos h (ltb→lt 1 num t) (leb→le _ _ more))
            (omega (arith, ltb→lt 1 num t)) in
        (r, rw (t, more, frame_loop) e, found)
    | inr none_left ↦ (
      frame,
      rw (t, none_left, frame_loop) refl,
      record {
        powers = h.powers;
        fits = h.fits;
        few = few_lem limit num extents frame h;
        most = inr (
            tight_lem extents frame h.powers h.fits (
              omega
                (arith, leb_false→lt 1 (get_or extents at 0 / get_or frame at 0 / 2) none_left)));
      },
    )
  ]
  | inr t ↦ (
    frame,
    rw (t, frame_loop) refl,
    record {
      powers = h.powers;
      fits = h.fits;
      few = few_lem limit num extents frame h;
      most = inl (
          omega (
            arith,
            h.full,
            ap (λ n. volume frame * n) {x = num} {y = 1}
                (omega (arith, IsPower-pos num h.left, ltb_false→le 1 num t)),
          ));
    },
  )
]
  where
    at : ℕ
    at = widest_loop 0 (length extents - 1) 0 extents frame
