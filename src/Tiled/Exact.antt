-- ===== src/Tiled/Exact.antt =====
-- TiledIdxContainer.hpp, begin(): the first index, the step and the end of one dimension do not wrap
-- around.
use native.Mathlib.Nat.{le-div_iff_mul-le, mul-le-mul_right}
use alpaka.Base.{
  ℕ, suc, ◌+◌, ◌-◌, ◌*◌, ◌/◌, ◌^◌, ◌<◌, ◌≤◌, ◌≡◌, refl, ap, ap₂, ◌∙◌, arith, min, wrap, wrap_small,
  add_w, sub_w, mul_w,
}
use alpaka.Flat.{Layout, slot_begin}
use alpaka.Flat.Position.{sub_w_exact, extent_exact}
use alpaka.Flat.Slots.{slot_start, slot_begin_exact, slot_start_mono, slot_start_last}
use alpaka.Tiled.Dims.{Dim}
use alpaka.Tiled.Tile.{Share, IsShare, num_points, tile}

abbrev pub dim : ℕ → ℕ → ℕ → Dim
dim f s e = record { first = f; stride = s; extent = e }

dim_exact : {f f' s s' e e' : ℕ} → f ≡ f' → s ≡ s' → e ≡ e' → dim f s e ≡ dim f' s' e'
dim_exact {f} {f'} {s} {s'} {e} {e'} p q r = ap (λ x. dim x s e) p ∙ ap₂ (dim f') q r

pub stride_bound : (w : ℕ) (h : Share) → IsShare w h → h.stride ≤ h.threads * h.stride
stride_bound w h i = grind (arith, i.manned)

thread_bound : (h : Share) (t : ℕ) → t < h.threads → t * h.stride + h.stride ≤ h.threads * h.stride
thread_bound h t less = omega (arith, mul-le-mul_right {m = suc t} {n = h.threads} h.stride less)

distance_exact : (w : ℕ) (h : Share) → IsShare w h → sub_w w h.end h.begin ≡ h.end - h.begin
distance_exact w h i = sub_w_exact w h.end h.begin i.ordered (omega (arith, i.fits))

-- One dimension of begin() for the strided layout.
pub strided_exact :
    (w : ℕ) (h : Share) (t : ℕ)
    → IsShare w h
    → t < h.threads
    → dim
        (add_w w (mul_w w t h.stride) h.begin)
        (mul_w w h.threads h.stride)
        (add_w w (sub_w w h.end h.begin) h.begin)
      ≡ tile Layout.strided h t
unfolding tile
strided_exact w h t i less =
    dim_exact
      (ap (λ x. add_w w x h.begin)
          (wrap_small w {n = t * h.stride} (omega (arith, thread_bound h t less, i.fits)))
        ∙ wrap_small w (omega (arith, thread_bound h t less, i.fits, i.ordered, i.moving))
        ∙ omega arith)
      (wrap_small w (omega (arith, i.fits)))
      (ap (λ x. add_w w x h.begin) (distance_exact w h i)
        ∙ ap (wrap w) {y = h.end} (omega (arith, i.ordered))
        ∙ wrap_small w (omega (arith, i.fits)))

-- The number of points that the code computes.
points_exact :
    (w : ℕ) (h : Share)
    → IsShare w h
    → sub_w w (add_w w (sub_w w h.end h.begin) h.stride) 1 / h.stride ≡ num_points h
points_exact w h i =
    extent_exact w h.begin h.end h.stride i.ordered i.moving
      (omega (arith, i.fits, stride_bound w h i))

points_bound : (h : Share) → 0 < h.stride → num_points h * h.stride ≤ h.end - h.begin + h.stride - 1
points_bound h p = (le-div_iff_mul-le {x = num_points h} p).0 (omega arith)

start_bound :
    (w : ℕ) (h : Share) (u : ℕ)
    → IsShare w h
    → u ≤ h.threads
    → h.begin + slot_start (num_points h) h.threads u * h.stride + 1 ≤ h.end + h.stride
start_bound w h u i le = omega (
  arith,
  i.ordered,
  i.moving,
  points_bound h i.moving,
  mul-le-mul_right {m = slot_start (num_points h) h.threads u} {n = num_points h} h.stride (
      omega (
        arith,
        slot_start_mono (num_points h) h.threads u h.threads le,
        slot_start_last (num_points h) h.threads i.manned,
      )),
)

few_points : (w : ℕ) (h : Share) → IsShare w h → num_points h < 2 ^ w
few_points w h i =
    omega (arith, points_bound h i.moving, stride_bound w h i, i.fits, i.moving, grow)
  where
    grow : num_points h ≤ num_points h * h.stride
    grow = grind (arith, i.moving)

-- The begin of slot u as the code computes it.
slot_exact :
    (w : ℕ) (h : Share) (u : ℕ)
    → IsShare w h
    → u ≤ h.threads
    → mul_w w
        (slot_begin w (sub_w w (add_w w (sub_w w h.end h.begin) h.stride) 1 / h.stride) h.threads u)
        h.stride
      ≡ slot_start (num_points h) h.threads u * h.stride
slot_exact w h u i le =
    ap (λ n. mul_w w (slot_begin w n h.threads u) h.stride) (points_exact w h i)
    ∙ ap (λ x. mul_w w x h.stride)
        (slot_begin_exact w (num_points h) h.threads u i.manned le (few_points w h i))
    ∙ wrap_small w (omega (arith, start_bound w h u i le, stride_bound w h i, i.fits))

-- One dimension of begin() for the contiguous layout.
pub contiguous_exact :
    (w : ℕ) (h : Share) (t : ℕ)
    → IsShare w h
    → t < h.threads
    → dim
        (add_w w
          (mul_w w
            (slot_begin w
              (sub_w w (add_w w (sub_w w h.end h.begin) h.stride) 1 / h.stride)
              h.threads
              t)
            h.stride)
          h.begin)
        h.stride
        (add_w w
          (min (sub_w w h.end h.begin) (
            mul_w w
              (slot_begin w
                (sub_w w (add_w w (sub_w w h.end h.begin) h.stride) 1 / h.stride)
                h.threads
                (add_w w t 1))
              h.stride))
          h.begin)
      ≡ tile Layout.contiguous h t
unfolding tile
contiguous_exact w h t i less =
    dim_exact
      (ap (λ x. add_w w x h.begin) (slot_exact w h t i (omega arith))
        ∙ wrap_small w
            (omega (arith, start_bound w h t i (omega arith), stride_bound w h i, i.fits))
        ∙ omega arith)
      refl
      (ap₂ (λ x y. add_w w (min x y) h.begin) (distance_exact w h i)
          (ap
              (λ u.
                mul_w w
                  (slot_begin w (sub_w w (add_w w (sub_w w h.end h.begin) h.stride) 1 / h.stride)
                    h.threads u)
                  h.stride)
              (wrap_small w {n = t + 1} (omega (arith, few_threads)))
            ∙ slot_exact w h (t + 1) i (omega arith))
        ∙ wrap_small w (omega (arith, i.fits, i.ordered))
        ∙ omega arith)
  where
    few_threads : h.threads < 2 ^ w
    few_threads = grind (arith, i.fits, i.moving)
