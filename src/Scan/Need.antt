-- ===== src/Scan/Need.antt =====
-- scan.hpp: the size that the loop of scanBufferSize gives.
use alpaka.Base.{
  ℕ, zero, suc, ◌+◌, ◌-◌, ◌*◌, ◌/◌, ◌^◌, ◌<◌, ◌≤◌, ◌≡◌, refl, ap, ap₂, ◌∙◌, arith, List, [], ◌∷◌,
  ◌++◌, none, some, ltb, lt→ltb, ltb-false, dec_lt, if◌then◌else◌, wrap_small, add_w,
}
use alpaka.Util.{div_ceil}
use alpaka.Util.Ceil.{div_ceil_exact}
use alpaka.Scan.{Launch, scan_blocks, add_increments_kernel, chunk_size, buffer_loop}

-- The number of chunks in unbounded arithmetic.
abbrev pub chunks : ℕ → ℕ
chunks e = (e + 2048 - 1) / 2048

-- The sums of all chunks of all levels.
unfoldable pub needed : ℕ → ℕ → ℕ
needed zero e = 0
needed (suc fuel) e = if ltb 1 (chunks e) then chunks e + needed fuel (chunks e) else 0

-- The increments of a launch lie between two offsets of the buffer.
abbrev pub Inside : ℕ → ℕ → ℕ → Launch → Type 0
Inside sizeof lo hi (scan_blocks extent num_chunks none) = Unit {0}
Inside sizeof lo hi (scan_blocks extent num_chunks (some offset)) =
    (lo ≤ offset) × (offset + num_chunks * sizeof ≤ hi)
Inside sizeof lo hi (add_increments_kernel extent offset) =
    (lo ≤ offset) × (offset + chunks extent * sizeof ≤ hi)

abbrev pub AllInside : ℕ → ℕ → ℕ → List Launch → Type 0
AllInside sizeof lo hi [] = Unit {0}
AllInside sizeof lo hi (l ∷ ls) = Inside sizeof lo hi l × AllInside sizeof lo hi ls

pub chunks-lt : (e : ℕ) → 1 < chunks e → 2 * chunks e ≤ e
chunks-lt e h = omega arith

pub needed_more :
    (fuel e : ℕ) → 1 < chunks e → needed (suc fuel) e ≡ chunks e + needed fuel (chunks e)
unfolding needed
needed_more fuel e h = rw (lt→ltb 1 (chunks e) h) refl

pub needed_done : (fuel e : ℕ) → chunks e ≤ 1 → needed (suc fuel) e ≡ 0
unfolding needed
needed_done fuel e h = rw (ltb-false 1 (chunks e) h) refl

pub needed_bound : (fuel e : ℕ) → needed fuel e ≤ e
needed_bound zero e = unfold needed in omega arith
needed_bound (suc fuel) e = elim (dec_lt 1 (chunks e)) [
  | yes more ↦
      omega (arith, needed_more fuel e more, chunks-lt e more, needed_bound fuel (chunks e))
  | no done ↦ omega (arith, needed_done fuel e (omega arith))
]

pub loop_done : (w fuel n size : ℕ) → n ≤ 1 → buffer_loop w (suc fuel) n size ≡ some size
unfolding buffer_loop
loop_done w fuel n size h = rw (ltb-false 1 n h, buffer_loop) refl

pub loop_more :
    (w fuel n size : ℕ)
    → 1 < n
    → buffer_loop w (suc fuel) n size
      ≡ buffer_loop w fuel (div_ceil w n chunk_size) (add_w w size n)
unfolding buffer_loop
loop_more w fuel n size h = rw (lt→ltb 1 n h, buffer_loop) refl

pub buffer_loop-needed :
    (w fuel e size : ℕ)
    → e < fuel
    → e + 2048 ≤ 2 ^ w
    → size + needed fuel e < 2 ^ w
    → buffer_loop w fuel (chunks e) size ≡ some (size + needed fuel e)
buffer_loop-needed w zero e size less fits small = absurd (omega arith)
buffer_loop-needed w (suc fuel) e size less fits small = elim (dec_lt 1 (chunks e)) [
  | yes more ↦
      loop_more w fuel (chunks e) size more
      ∙ ap₂ (buffer_loop w fuel) (div_ceil_exact w (chunks e) 2048 (omega arith) (omega arith))
          (wrap_small w {n = size + chunks e} (omega (arith, small, needed_more fuel e more)))
      ∙ buffer_loop-needed w fuel (chunks e) (size + chunks e) (omega arith) (omega arith)
          (omega (arith, small, needed_more fuel e more))
      ∙ ap some (omega (arith, needed_more fuel e more))
  | no done ↦
      loop_done w fuel (chunks e) size (omega arith)
      ∙ ap some (omega (arith, needed_done fuel e (omega arith)))
]

pub AllInside-append :
    (sizeof lo hi : ℕ) (ls ms : List Launch)
    → AllInside sizeof lo hi ls
    → AllInside sizeof lo hi ms
    → AllInside sizeof lo hi (ls ++ ms)
AllInside-append sizeof lo hi [] ms h k = k
AllInside-append sizeof lo hi (l ∷ ls) ms h k = (h.0, AllInside-append sizeof lo hi ls ms h.1 k)

pub Inside-wider :
    (sizeof lo hi lo' hi' : ℕ) (l : Launch)
    → lo' ≤ lo
    → hi ≤ hi'
    → Inside sizeof lo hi l
    → Inside sizeof lo' hi' l
Inside-wider sizeof lo hi lo' hi' (scan_blocks e n none) p q h = tt
Inside-wider sizeof lo hi lo' hi' (scan_blocks e n (some o)) p q h = (omega arith, omega arith)
Inside-wider sizeof lo hi lo' hi' (add_increments_kernel e o) p q h = (omega arith, omega arith)

pub AllInside-wider :
    (sizeof lo hi lo' hi' : ℕ) (ls : List Launch)
    → lo' ≤ lo
    → hi ≤ hi'
    → AllInside sizeof lo hi ls
    → AllInside sizeof lo' hi' ls
AllInside-wider sizeof lo hi lo' hi' [] p q h = tt
AllInside-wider sizeof lo hi lo' hi' (l ∷ ls) p q h =
    (Inside-wider sizeof lo hi lo' hi' l p q h.0, AllInside-wider sizeof lo hi lo' hi' ls p q h.1)
