-- ===== src/SimdConcurrent/Shares.antt =====
-- SimdConcurrent.hpp: the number of packs of a worker.
use native.Mathlib.Nat.{mul-le-mul_right, mul_assoc, mul-div_left, mul-mod_left}
use alpaka.Base.{ℕ, suc, ◌+◌, ◌*◌, ◌<◌, ◌≤◌, ◌≡◌, sym, ap, ap₂, ◌∙◌, arith, min, [], ◌∷◌, dec_lt}
use alpaka.Vec.{Vec, back}
use alpaka.Vec.Linear.{InBounds, volume}
use alpaka.Flat.{Layout}
use alpaka.Flat.Slots.{slot_start}
use alpaka.Tiled.Dims.{Dim, num_steps, coordinate, counts}
use alpaka.Tiled.Tile.{Share, num_points, tile, before_extent, step-lt, mul-lt}
use alpaka.Tiled.Group.{tiles}
use alpaka.SimdConcurrent.Ranges.{Room, no-Room, pack_shares}

-- The steps of a worker in the last dimension, if its end is a steps of all workers away.
num_steps_unique :
    (d : Dim) (a : ℕ)
    → 0 < d.stride
    → ((k : ℕ) → k < a → coordinate d k < d.extent)
    → d.extent ≤ coordinate d a
    → num_steps d ≡ a
num_steps_unique d a p f g = elim (dec_lt (num_steps d) a) [
  | yes less ↦ absurd (omega (arith, step-lt d (num_steps d) p (f (num_steps d) less)))
  | no more ↦ elim (dec_lt a (num_steps d)) [
    | yes less ↦ absurd (omega (arith, before_extent d a p less))
    | no same ↦ omega arith
  ]
]

-- The last dimension of the packs, where its end is `a` steps of all workers from its begin.
abbrev pub fast : ℕ → ℕ → ℕ → Share
fast width a threads = record {
  begin = 0;
  end = a * (threads * width);
  stride = width;
  threads = threads;
}

fast_points : (width a threads : ℕ) → 0 < width → num_points (fast width a threads) ≡ a * threads
fast_points width a threads p =
    num_steps_unique (record { first = 0; stride = width; extent = a * (threads * width) })
      (a * threads) p (λ k q. omega (arith, mul-lt k (a * threads) width p q)) (omega arith)

even_start : (a threads u : ℕ) → 0 < threads → slot_start (a * threads) threads u ≡ u * a
unfolding slot_start
even_start a threads u p =
    ap₂ (λ q r. u * q + min u r) (mul-div_left a p) (mul-mod_left a threads) ∙ omega arith

fast_start :
    (width a threads u : ℕ)
    → 0 < width
    → 0 < threads
    → slot_start (num_points (fast width a threads)) threads u ≡ u * a
fast_start width a threads u p q =
    ap (λ n. slot_start n threads u) (fast_points width a threads p) ∙ even_start a threads u q

worker_end : (a width t threads : ℕ) → t < threads → (t + 1) * a * width ≤ a * (threads * width)
worker_end a width t threads h =
    omega (arith, mul-le-mul_right {m = suc t} {n = threads} (a * width) h)

pub fast_steps :
    (l : Layout) (width a t threads : ℕ)
    → 0 < width
    → t < threads
    → num_steps (tile l (fast width a threads) t) ≡ a
unfolding tile
fast_steps Layout.strided width a t threads p h =
    num_steps_unique (tile Layout.strided (fast width a threads) t) a (grind (arith, p, h))
      (λ k q. omega (
        arith,
        mul-lt t threads width p h,
        mul-le-mul_right {m = suc k} {n = a} (threads * width) q,
      ))
      (omega arith)
fast_steps Layout.contiguous width a t threads p h =
    num_steps_unique (tile Layout.contiguous (fast width a threads) t) a p
      (λ k q. omega (
        arith,
        begins,
        ends,
        worker_end a width t threads h,
        mul-le-mul_right {m = suc k} {n = a} width q,
      ))
      (omega (arith, begins, ends))
  where
    begins : slot_start (num_points (fast width a threads)) threads t * width ≡ t * a * width
    begins = ap (λ n. n * width) (fast_start width a threads t p (omega arith))

    ends :
        slot_start (num_points (fast width a threads)) threads (t + 1) * width ≡ (t + 1) * a * width
    ends = ap (λ n. n * width) (fast_start width a threads (t + 1) p (omega arith))

-- The number of packs of a worker is a multiple of the packs of a call.
pub packs_multiple :
    (w : ℕ) (l : Layout) (width loops repeat wsize r : ℕ) (es ts us : Vec)
    → Room w width es ts
    → InBounds ts us
    → 0 < width
    → back ts ≡ wsize
    → r ≡ loops * repeat * (wsize * width)
    → (q : ℕ) × (volume (counts (tiles l (pack_shares width r es ts) us)) ≡ q * repeat)
unfolding pack_shares tiles volume back
packs_multiple w l width loops repeat wsize r [] ts us h b p e k = absurd h
packs_multiple w l width loops repeat wsize r (x ∷ []) [] us h b p e k = absurd h
packs_multiple w l width loops repeat wsize r (x ∷ []) (t ∷ u ∷ ts) us h b p e k = absurd h
packs_multiple w l width loops repeat wsize r (x ∷ []) (t ∷ []) [] h b p e k = absurd b
packs_multiple w l width loops repeat wsize r (x ∷ []) (t ∷ []) (u ∷ us) h b p e k = (
  loops,
  ap (λ z. num_steps (tile l (record { begin = 0; end = z; stride = width; threads = t }) u) * 1)
        (k ∙ ap (λ s. loops * repeat * (s * width)) (sym e))
      ∙ ap (λ n. n * 1) (fast_steps l width (loops * repeat) u t p b.0)
      ∙ omega arith,
)
packs_multiple w l width loops repeat wsize r (x ∷ y ∷ es) [] us h b p e k = absurd h
packs_multiple w l width loops repeat wsize r (x ∷ y ∷ es) (t ∷ []) us h b p e k =
    absurd (no-Room w width y es h.2)
packs_multiple w l width loops repeat wsize r (x ∷ y ∷ es) (t ∷ v ∷ ts) [] h b p e k = absurd b
packs_multiple w l width loops repeat wsize r (x ∷ y ∷ es) (t ∷ v ∷ ts) (u ∷ us) h b p e k =
    let (q, m) = packs_multiple w l width loops repeat wsize r (y ∷ es) (v ∷ ts) us h.2 b.1 p e k in
    (slow * q, ap (◌*◌ slow) m ∙ sym (mul_assoc slow q repeat))
  where
    slow : ℕ
    slow = num_steps (tile l (record { begin = 0; end = x; stride = 1; threads = t }) u)
