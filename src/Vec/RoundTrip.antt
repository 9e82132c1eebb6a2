-- ===== src/Vec/RoundTrip.antt =====
-- Vec.hpp, linearize and mapToND: each undoes the other.
use native.Mathlib.Nat.{
  div-lt_iff_lt-mul, mod-add-div', div-add-mod, mod-lt, div-eq_of_lt-le, mod-eq_of_lt,
  mul-add-mod_self_right, div-one, mul-one,
}
use alpaka.Base.{
  ℕ, zero, suc, ◌+◌, ◌-◌, ◌*◌, ◌/◌, ◌%◌, ◌^◌, ◌<◌, ◌≤◌, ◌≡◌, refl, ap, ap₂, ◌∙◌, [], ◌∷◌, get_or,
  arith, wrap, sub_w, mul_w, wrap_small, wrap-add_modulus,
}
use alpaka.Vec.{Vec, linearize, map_to_nd, map_loop, pitch_extents}
use alpaka.Vec.Linear.{InBounds, volume, row_major, row_major-lt, linearize-row_major}

-- The index at a place in row-major order, in unbounded arithmetic.
unfoldable pub unrank : Vec → ℕ → Vec
unrank [] k = []
unrank (e ∷ es) k = k / volume es ∷ unrank es (k % volume es)

pos_right : (k e v : ℕ) → k < e * v → 0 < v
pos_right k e zero h = absurd (omega arith)
pos_right k e (suc v) h = omega arith

div-lt : (k e v : ℕ) → k < e * v → k / v < e
div-lt k e v h = (div-lt_iff_lt-mul (pos_right k e v h)).1 h

pub unrank-InBounds : (es : Vec) (k : ℕ) → k < volume es → InBounds es (unrank es k)
unfolding unrank volume
unrank-InBounds [] k h = tt
unrank-InBounds (e ∷ es) k h = (
  div-lt k e (volume es) h,
  unrank-InBounds es (k % volume es) (mod-lt k (pos_right k e (volume es) h)),
)

pub row_major-unrank : (es : Vec) (k : ℕ) → k < volume es → row_major es (unrank es k) ≡ k
unfolding unrank volume row_major
row_major-unrank [] k h = omega arith
row_major-unrank (e ∷ es) k h = omega (
  arith,
  row_major-unrank es (k % volume es) (mod-lt k (pos_right k e (volume es) h)),
  mod-add-div' k (volume es),
)

pub unrank-row_major : (es is : Vec) → InBounds es is → unrank es (row_major es is) ≡ is
unfolding unrank volume row_major
unrank-row_major [] [] h = refl
unrank-row_major [] (i ∷ is) h = absurd h
unrank-row_major (e ∷ es) [] h = absurd h
unrank-row_major (e ∷ es) (i ∷ is) h =
    ap₂ ◌∷◌ (div-eq_of_lt-le (volume es) (omega arith) (omega (arith, below))) (
      ap (unrank es) (mul-add-mod_self_right i (volume es) (row_major es is) ∙ mod-eq_of_lt below)
      ∙ unrank-row_major es is h.1)
  where
    below : row_major es is < volume es
    below = row_major-lt es is h.1

-- One round of the second loop of `mapToND`: the rest of the linear index is its remainder.
sub-mul_div : (w k p : ℕ) → k < 2 ^ w → sub_w w k (mul_w w p (k / p)) ≡ k % p
sub-mul_div w k p h =
    ap (λ t. wrap w (k + 2 ^ w - t)) (wrap_small w small)
    ∙ ap (wrap w) shifted
    ∙ wrap-add_modulus w (k % p)
    ∙ wrap_small w (omega (arith, div-add-mod k p))
  where
    small : p * (k / p) < 2 ^ w
    small = omega (arith, div-add-mod k p)

    shifted : k + 2 ^ w - p * (k / p) ≡ k % p + 2 ^ w
    shifted = omega (arith, div-add-mod k p)

le-tail : (f g : ℕ) (es : Vec) → 0 < volume (f ∷ g ∷ es) → volume (g ∷ es) ≤ volume (f ∷ g ∷ es)
unfolding volume
le-tail zero g es h = absurd (omega arith)
le-tail (suc f) g es h = omega arith

pitch_extents-head :
    (w f : ℕ) (es : Vec)
    → 0 < volume (f ∷ es)
    → volume (f ∷ es) < 2 ^ w
    → get_or (pitch_extents w (f ∷ es)) 0 0 ≡ volume (f ∷ es)
unfolding pitch_extents volume
pitch_extents-head w f [] p h = omega arith
pitch_extents-head w f (g ∷ es) p h =
    ap (mul_w w f) (pitch_extents-head w g es (pos_right 0 f _ p) (omega (arith, le-tail f g es p)))
    ∙ wrap_small w h

map_loop-unrank :
    (w e f : ℕ) (es : Vec) (k : ℕ)
    → 0 < volume (f ∷ es)
    → volume (f ∷ es) < 2 ^ w
    → k < 2 ^ w
    → map_loop w (pitch_extents w (f ∷ es)) k ≡ unrank (e ∷ f ∷ es) k
unfolding pitch_extents volume map_loop unrank
map_loop-unrank w e f [] k p h hk = rw (sub-mul_div w k f hk, mul-one f, div-one (k % f)) refl
map_loop-unrank w e f (g ∷ es) k p h hk =
    ap (λ v. k / v ∷ map_loop w rest (sub_w w k (mul_w w v (k / v))))
      (pitch_extents-head w f (g ∷ es) p h)
    ∙ ap (λ r. k / whole ∷ map_loop w rest r) (sub-mul_div w k whole hk)
    ∙ ap (◌∷◌ (k / whole)) (
        map_loop-unrank w f g es (k % whole) (pos_right 0 f _ p) (omega (arith, le-tail f g es p))
          (omega (arith, mod-lt k p)))
  where
    whole : ℕ
    whole = f * (g * volume es)

    rest : Vec
    rest = pitch_extents w (g ∷ es)

-- For a linear index of the space, `mapToND` is the place's index, with no wrap-around.
pub map_to_nd-unrank :
    (w : ℕ) (es : Vec) (k : ℕ) → k < volume es → volume es < 2 ^ w → map_to_nd w es k ≡ unrank es k
unfolding map_to_nd unrank volume
map_to_nd-unrank w [] k h fits = refl
map_to_nd-unrank w (e ∷ []) k h fits = rw (div-one k) refl
map_to_nd-unrank w (e ∷ f ∷ es) k h fits =
    map_loop-unrank w e f es k (pos_right k e _ h) (omega (arith, le-tail e f es (omega arith)))
      (omega arith)

-- Mapping the linear index of an index in bounds to N dimensions gives the index back, if the
-- volume of the space, which has a dimension, is below 2 ^ w.
pub map_to_nd-linearize :
    (w e : ℕ) (es is : Vec)
    → InBounds (e ∷ es) is
    → volume (e ∷ es) < 2 ^ w
    → map_to_nd w (e ∷ es) (linearize w (e ∷ es) is) ≡ is
map_to_nd-linearize w e es [] h fits = absurd h
map_to_nd-linearize w e es (i ∷ is) h fits =
    ap (map_to_nd w (e ∷ es)) (linearize-row_major w e i es is h (omega arith))
    ∙ map_to_nd-unrank w (e ∷ es) _ (row_major-lt (e ∷ es) (i ∷ is) h) fits
    ∙ unrank-row_major (e ∷ es) (i ∷ is) h

-- The index of a linear index below the volume lies in bounds, and linearizing it gives the linear
-- index back, if the volume of the space, which has a dimension, is below 2 ^ w.
pub linearize-map_to_nd :
    (w e : ℕ) (es : Vec) (k : ℕ)
    → k < volume (e ∷ es)
    → volume (e ∷ es) < 2 ^ w
    → InBounds (e ∷ es) (map_to_nd w (e ∷ es) k)
      × (linearize w (e ∷ es) (map_to_nd w (e ∷ es) k) ≡ k)
unfolding unrank
linearize-map_to_nd w e es k h fits = rw (map_to_nd-unrank w (e ∷ es) k h fits) (
  inside,
  linearize-row_major w e (k / volume es) es (unrank es (k % volume es)) inside (omega arith)
      ∙ row_major-unrank (e ∷ es) k h,
)
  where
    inside : InBounds (e ∷ es) (unrank (e ∷ es) k)
    inside = unrank-InBounds (e ∷ es) k h
