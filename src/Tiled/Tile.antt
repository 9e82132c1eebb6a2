-- ===== src/Tiled/Tile.antt =====
-- TiledIdxContainer.hpp, begin(): what one worker has of one dimension, and the numbers of the range's
-- indices that these are.
use native.Mathlib.Nat.{
  mod-lt, div-add-mod, le-div_iff_mul-le, mul-add-mod_self_right, mod-eq_of_lt, div-eq_of_lt-le,
  mul-le-mul_right,
}
use alpaka.Base.{
  ℕ, suc, ◌+◌, ◌-◌, ◌*◌, ◌/◌, ◌%◌, ◌^◌, ◌<◌, ◌≤◌, ◌≡◌, sym, ap, ◌∙◌, min, arith, dec_lt, subst,
}
use alpaka.Flat.{Layout}
use alpaka.Flat.Slots.{slot_start, slot_owner, slot_owner_bounds, slot_owner_unique}
use alpaka.Tiled.Dims.{Dim, num_steps, coordinate}

-- One dimension of the range and of the group.
pub record Share : Type 0 where
  pub begin : ℕ
  pub end : ℕ
  pub stride : ℕ
  pub threads : ℕ

-- A range that is not empty the wrong way round, a positive stride, a worker, and indices that fit w
-- bits even after the step of all workers.
pub record IsShare (w : ℕ) (h : Share) : Type 0 where
  pub ordered : h.begin ≤ h.end
  pub moving : 0 < h.stride
  pub manned : 0 < h.threads
  pub fits : h.end + h.threads * h.stride < 2 ^ w

-- The number of indices of the range.
abbrev pub num_points : Share → ℕ
num_points h = (h.end - h.begin + h.stride - 1) / h.stride

abbrev pub point : Share → ℕ → ℕ
point h m = h.begin + m * h.stride

-- What worker t has, in unbounded arithmetic.
unfoldable pub tile : Layout → Share → ℕ → Dim
tile Layout.strided h t = record {
  first = h.begin + t * h.stride;
  stride = h.threads * h.stride;
  extent = h.end;
}
tile Layout.contiguous h t = record {
  first = h.begin + slot_start (num_points h) h.threads t * h.stride;
  stride = h.stride;
  extent = h.begin + min (h.end - h.begin) (slot_start (num_points h) h.threads (t + 1) * h.stride);
}

-- The number of the index after k steps of worker t, the worker of a number, and the step.
unfoldable pub number : Layout → Share → ℕ → ℕ → ℕ
number Layout.strided h t k = t + k * h.threads
number Layout.contiguous h t k = slot_start (num_points h) h.threads t + k

unfoldable pub owner : Layout → Share → ℕ → ℕ
owner Layout.strided h m = m % h.threads
owner Layout.contiguous h m = slot_owner (num_points h) h.threads m

unfoldable pub step : Layout → Share → ℕ → ℕ
step Layout.strided h m = m / h.threads
step Layout.contiguous h m = m - slot_start (num_points h) h.threads (owner Layout.contiguous h m)

-- `num_steps` and `num_points` count what lies before the end.
pub before_extent : (d : Dim) (k : ℕ) → 0 < d.stride → k < num_steps d → coordinate d k < d.extent
before_extent d k p h =
    omega (arith, (le-div_iff_mul-le {x = suc k} {y = d.extent - d.first + d.stride - 1} p).0 h)

pub step-lt : (d : Dim) (k : ℕ) → 0 < d.stride → coordinate d k < d.extent → k < num_steps d
step-lt d k p h =
    (le-div_iff_mul-le {x = suc k} {y = d.extent - d.first + d.stride - 1} p).1 (omega arith)

pub before_end : (h : Share) (m : ℕ) → 0 < h.stride → m < num_points h → point h m < h.end
before_end h m p q =
    before_extent (record { first = h.begin; stride = h.stride; extent = h.end }) m p q

pub point-lt : (h : Share) (m : ℕ) → 0 < h.stride → point h m < h.end → m < num_points h
point-lt h m p q = step-lt (record { first = h.begin; stride = h.stride; extent = h.end }) m p q

pub stride_pos : (w : ℕ) (h : Share) → IsShare w h → 0 < h.threads * h.stride
stride_pos w h i = grind (arith, i.moving, i.manned)

pub mul-lt : (a b s : ℕ) → 0 < s → a < b → a * s < b * s
mul-lt a b s p h = omega (arith, mul-le-mul_right {m = suc a} {n = b} s h)

pub lt_of_mul : (a b s : ℕ) → a * s < b * s → a < b
lt_of_mul a b s h = elim (dec_lt a b) [
  | yes q ↦ q
  | no q ↦ absurd (omega (arith, mul-le-mul_right {m = b} {n = a} s (omega arith)))
]

pub coordinate-number :
    (l : Layout) (h : Share) (t k : ℕ) → coordinate (tile l h t) k ≡ point h (number l h t k)
unfolding tile number
coordinate-number Layout.strided h t k = omega arith
coordinate-number Layout.contiguous h t k = omega arith

pub number-lt :
    (w : ℕ) (l : Layout) (h : Share) (t k : ℕ)
    → IsShare w h
    → t < h.threads
    → k < num_steps (tile l h t)
    → number l h t k < num_points h
unfolding tile number
number-lt w Layout.strided h t k i less more = point-lt h (t + k * h.threads) i.moving (
    subst (λ c. c < h.end) (coordinate-number Layout.strided h t k)
      (before_extent (tile Layout.strided h t) k (stride_pos w h i) more))
number-lt w Layout.contiguous h t k i less more =
    point-lt h (slot_start (num_points h) h.threads t + k) i.moving
      (omega (arith, before_extent (tile Layout.contiguous h t) k i.moving more))

pub owner-number :
    (w : ℕ) (l : Layout) (h : Share) (t k : ℕ)
    → IsShare w h
    → t < h.threads
    → k < num_steps (tile l h t)
    → (owner l h (number l h t k) ≡ t) × (step l h (number l h t k) ≡ k)
unfolding tile number owner step
owner-number w Layout.strided h t k i less more = (
  ap (λ x. x % h.threads) {y = k * h.threads + t} (omega arith)
      ∙ mul-add-mod_self_right k h.threads t
      ∙ mod-eq_of_lt less,
  div-eq_of_lt-le h.threads {m = t + k * h.threads} (omega arith) (omega arith),
)
owner-number w Layout.contiguous h t k i less more = (
  owned,
  ap (λ x. number Layout.contiguous h t k - slot_start (num_points h) h.threads x) owned
      ∙ omega arith,
)
  where
    inside : slot_start (num_points h) h.threads t + k < slot_start (num_points h) h.threads (t + 1)
    inside =
        lt_of_mul (slot_start (num_points h) h.threads t + k)
          (slot_start (num_points h) h.threads (t + 1)) h.stride
          (omega (arith, before_extent (tile Layout.contiguous h t) k i.moving more))

    owned : slot_owner (num_points h) h.threads (slot_start (num_points h) h.threads t + k) ≡ t
    owned =
        slot_owner_unique (num_points h) h.threads (slot_start (num_points h) h.threads t + k) t
          i.manned (number-lt w Layout.contiguous h t k i less more) (omega arith) inside

pub number-owner :
    (w : ℕ) (l : Layout) (h : Share) (m : ℕ)
    → IsShare w h
    → m < num_points h
    → (owner l h m < h.threads)
      × (step l h m < num_steps (tile l h (owner l h m)))
      × (number l h (owner l h m) (step l h m) ≡ m)
unfolding tile number owner step
number-owner w Layout.strided h m i less = (
  mod-lt m i.manned,
  step-lt (tile Layout.strided h (m % h.threads)) (m / h.threads) (stride_pos w h i) (
      subst (λ c. c < h.end)
        (sym
          (coordinate-number Layout.strided h (m % h.threads) (m / h.threads) ∙ ap (point h) whole))
        (before_end h m i.moving less)),
  whole,
)
  where
    whole : m % h.threads + m / h.threads * h.threads ≡ m
    whole = omega (arith, div-add-mod m h.threads)
number-owner w Layout.contiguous h m i less = (
  bounds.0,
  step-lt (tile Layout.contiguous h worker) (m - slot_start (num_points h) h.threads worker)
      i.moving
      (omega (
        arith,
        ap (λ c. c * h.stride) whole,
        before_end h m i.moving less,
        mul-lt m (slot_start (num_points h) h.threads (worker + 1)) h.stride i.moving bounds.2,
      )),
  whole,
)
  where
    worker : ℕ
    worker = slot_owner (num_points h) h.threads m

    bounds :
        (worker < h.threads)
        × (slot_start (num_points h) h.threads worker ≤ m)
        × (m < slot_start (num_points h) h.threads (worker + 1))
    bounds = slot_owner_bounds (num_points h) h.threads m i.manned less

    whole :
        slot_start (num_points h) h.threads worker
          + (m - slot_start (num_points h) h.threads worker)
        ≡ m
    whole = omega (arith, bounds)
