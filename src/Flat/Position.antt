-- ===== src/Flat/Position.antt =====
-- FlatIdxContainer.hpp, operator*: a linear index stands for a point of the range's grid.
use native.Mathlib.Nat.{le-div_iff_mul-le, mul-mod_left}
use alpaka.Base.{
  ℕ, suc, ◌+◌, ◌-◌, ◌*◌, ◌/◌, ◌%◌, ◌^◌, ◌≤◌, ◌<◌, ◌≡◌, subst, ap, ◌∙◌, [], ◌∷◌, arith, wrap,
  wrap_small, wrap-add_modulus, add_w, sub_w,
}
use alpaka.Util.{div_ceil as scalar_div_ceil}
use alpaka.Util.Ceil.{div_ceil_exact}
use alpaka.Vec.{Vec, zip_with, vec_add, vec_sub, vec_mul, vec_div, div_ceil, fill}
use alpaka.Vec.Linear.{InBounds}

-- Begin, end and stride agree in dimension; the stride is positive, the end is not before the begin,
-- and the end with one more stride fits the index type.
abbrev pub IsRange : ℕ → Vec → Vec → Vec → Type 0
IsRange w [] [] [] = Unit {0}
IsRange w (b ∷ bs) (e ∷ es) (s ∷ ss) = (b ≤ e) × (0 < s) × (e + s ≤ 2 ^ w) × IsRange w bs es ss
IsRange w _ _ _ = ⊥

-- A point on the grid of a range: from the begin on, before the end, a multiple of the stride away.
abbrev pub OnGrid : Vec → Vec → Vec → Vec → Type 0
OnGrid [] [] [] [] = Unit {0}
OnGrid (b ∷ bs) (e ∷ es) (s ∷ ss) (p ∷ ps) =
    (b ≤ p) × (p < e) × ((p - b) % s ≡ 0) × OnGrid bs es ss ps
OnGrid _ _ _ _ = ⊥

pub sub_w_exact : (w a b : ℕ) → b ≤ a → a < 2 ^ w → sub_w w a b ≡ a - b
sub_w_exact w a b h fits =
    ap (wrap w) {y = (a - b) + 2 ^ w} (omega arith)
    ∙ wrap-add_modulus w (a - b)
    ∙ wrap_small w (omega arith)

-- One component of `divCeil(distance, stride)`.
pub extent_exact :
    (w b e s : ℕ)
    → b ≤ e
    → 0 < s
    → e + s ≤ 2 ^ w
    → sub_w w (add_w w (sub_w w e b) s) 1 / s ≡ (e - b + s - 1) / s
unfolding scalar_div_ceil
extent_exact w b e s h p fits =
    ap (λ d. sub_w w (wrap w (d + s)) 1 / s) (sub_w_exact w e b h (omega arith))
    ∙ div_ceil_exact w (e - b) s p (omega arith)

component-OnGrid :
    (b e s i : ℕ)
    → 0 < s
    → i < (e - b + s - 1) / s
    → (b ≤ b + i * s) × (b + i * s < e) × ((b + i * s - b) % s ≡ 0)
component-OnGrid b e s i p h = (
  omega arith,
  omega (arith, below),
  ap (λ t. t % s) {y = i * s} (omega arith) ∙ mul-mod_left i s,
)
  where
    below : suc i * s ≤ e - b + s - 1
    below = (le-div_iff_mul-le {x = suc i} p).0 h

-- The point of an index, as `operator*` computes it.
pub point-OnGrid :
    (w : ℕ) (bs es ss is : Vec)
    → IsRange w bs es ss
    → InBounds (div_ceil w (vec_sub w es bs) ss) is
    → OnGrid bs es ss (vec_add w bs (vec_mul w is ss))
unfolding div_ceil vec_sub vec_add vec_div fill zip_with vec_mul
point-OnGrid w [] [] [] [] r h = tt
point-OnGrid w [] [] [] (i ∷ is) r h = absurd h
point-OnGrid w (b ∷ bs) (e ∷ es) (s ∷ ss) [] r h = absurd h
point-OnGrid w (b ∷ bs) (e ∷ es) (s ∷ ss) (i ∷ is) r h =
    let i_lt : i < (e - b + s - 1) / s =
      subst (λ t. i < t) (extent_exact w b e s r.0 r.1 r.2) h.0 in
    let grid = component-OnGrid b e s i r.1 i_lt in
    let exact : wrap w (b + wrap w (i * s)) ≡ b + i * s =
      ap (λ t. wrap w (b + t)) (wrap_small w (omega (arith, grid, r)))
      ∙ wrap_small w (omega (arith, grid.1, r)) in
    rw exact (grid.0, grid.1, grid.2, point-OnGrid w bs es ss is r.3 h.1)
point-OnGrid w [] [] (s ∷ ss) is r h = absurd r
point-OnGrid w [] (e ∷ es) ss is r h = absurd r
point-OnGrid w (b ∷ bs) [] ss is r h = absurd r
point-OnGrid w (b ∷ bs) (e ∷ es) [] is r h = absurd r
