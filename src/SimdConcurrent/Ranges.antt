-- ===== src/SimdConcurrent/Ranges.antt =====
-- SimdConcurrent.hpp: the ranges of the packs and of the remainder.
use native.Mathlib.Nat.{mul-le-mul_left}
use alpaka.Base.{
  ℕ, suc, ◌+◌, ◌-◌, ◌*◌, ◌^◌, ◌<◌, ◌≤◌, ◌≡◌, refl, sym, ap, ap₂, ◌∙◌, arith, List, [], ◌∷◌, length,
  set,
}
use alpaka.Vec.{Vec, fill, back, r_assign}
use alpaka.IdxRange.{IdxRange}
use alpaka.Tiled.Tile.{Share}
use alpaka.Tiled.Group.{range, group, AreShares}

-- The shares of the range of the packs, with R the end of the last dimension, and of the remainder.
unfoldable pub pack_shares : ℕ → ℕ → Vec → Vec → List Share
pack_shares width r (e ∷ []) (t ∷ ts) =
    record { begin = 0; end = r; stride = width; threads = t } ∷ []
pack_shares width r (e ∷ f ∷ es) (t ∷ ts) =
    record { begin = 0; end = e; stride = 1; threads = t } ∷ pack_shares width r (f ∷ es) ts
pack_shares width r _ _ = []

unfoldable pub rest_shares : ℕ → Vec → Vec → List Share
rest_shares r (e ∷ []) (t ∷ ts) = record { begin = r; end = e; stride = 1; threads = t } ∷ []
rest_shares r (e ∷ f ∷ es) (t ∷ ts) =
    record { begin = 0; end = e; stride = 1; threads = t } ∷ rest_shares r (f ∷ es) ts
rest_shares r _ _ = []

-- Workers in each dimension, and extents that fit w bits with one more step of all workers.
abbrev pub Room : ℕ → ℕ → Vec → Vec → Type 0
Room w width (e ∷ []) (t ∷ []) = (0 < t) × (e + t * width < 2 ^ w)
Room w width (e ∷ f ∷ es) (t ∷ ts) = (0 < t) × (e + t < 2 ^ w) × Room w width (f ∷ es) ts
Room w width _ _ = ⊥

pub no-Room : (w width y : ℕ) (es : Vec) → Room w width (y ∷ es) [] → ⊥
no-Room w width y [] h = h
no-Room w width y (z ∷ es) h = h

pub pack_shares-group :
    (w width r : ℕ) (es ts : Vec) → Room w width es ts → group (pack_shares width r es ts) ≡ ts
unfolding pack_shares
pack_shares-group w width r [] ts h = absurd h
pack_shares-group w width r (e ∷ []) [] h = absurd h
pack_shares-group w width r (e ∷ []) (t ∷ []) h = refl
pack_shares-group w width r (e ∷ []) (t ∷ u ∷ ts) h = absurd h
pack_shares-group w width r (e ∷ f ∷ es) [] h = absurd h
pack_shares-group w width r (e ∷ f ∷ es) (t ∷ ts) h =
    ap (◌∷◌ t) (pack_shares-group w width r (f ∷ es) ts h.2)

pub r_assign-cons : (e f : ℕ) (es : Vec) (v : ℕ) → r_assign (e ∷ f ∷ es) v ≡ e ∷ r_assign (f ∷ es) v
unfolding r_assign
r_assign-cons e f es v =
    ap (λ n. set (e ∷ f ∷ es) n v) {x = suc (suc (length es)) - 1} {y = suc (suc (length es) - 1)}
      (omega arith)

-- A slow dimension before those of a range.
abbrev pub with_slow : ℕ → IdxRange → IdxRange
with_slow e s = record { m_begin = 0 ∷ s.m_begin; m_end = e ∷ s.m_end; m_stride = 1 ∷ s.m_stride }

pub pack_shares-range :
    (w width r : ℕ) (es ts : Vec)
    → Room w width es ts
    → range (pack_shares width r es ts) ≡ record {
      m_begin = fill (length es) 0;
      m_end = r_assign es r;
      m_stride = r_assign (fill (length es) 1) width;
    }
unfolding pack_shares fill r_assign
pack_shares-range w width r [] ts h = absurd h
pack_shares-range w width r (e ∷ []) [] h = absurd h
pack_shares-range w width r (e ∷ []) (t ∷ []) h = refl
pack_shares-range w width r (e ∷ []) (t ∷ u ∷ ts) h = absurd h
pack_shares-range w width r (e ∷ f ∷ es) [] h = absurd h
pack_shares-range w width r (e ∷ f ∷ es) (t ∷ ts) h =
    ap (λ (s : IdxRange). with_slow e s) (pack_shares-range w width r (f ∷ es) ts h.2)
    ∙ ap₂
        (λ ends strides. (record {
          m_begin = fill (length (e ∷ f ∷ es)) 0;
          m_end = ends;
          m_stride = strides;
        }))
        (sym (r_assign-cons e f es r)) (sym (r_assign-cons 1 1 (fill (length es) 1) width))

pub rest_shares-group :
    (w width r : ℕ) (es ts : Vec) → Room w width es ts → group (rest_shares r es ts) ≡ ts
unfolding rest_shares
rest_shares-group w width r [] ts h = absurd h
rest_shares-group w width r (e ∷ []) [] h = absurd h
rest_shares-group w width r (e ∷ []) (t ∷ []) h = refl
rest_shares-group w width r (e ∷ []) (t ∷ u ∷ ts) h = absurd h
rest_shares-group w width r (e ∷ f ∷ es) [] h = absurd h
rest_shares-group w width r (e ∷ f ∷ es) (t ∷ ts) h =
    ap (◌∷◌ t) (rest_shares-group w width r (f ∷ es) ts h.2)

pub rest_shares-range :
    (w width r : ℕ) (es ts : Vec)
    → Room w width es ts
    → range (rest_shares r es ts) ≡ record {
      m_begin = r_assign (fill (length es) 0) r;
      m_end = es;
      m_stride = fill (length es) 1;
    }
unfolding rest_shares fill r_assign
rest_shares-range w width r [] ts h = absurd h
rest_shares-range w width r (e ∷ []) [] h = absurd h
rest_shares-range w width r (e ∷ []) (t ∷ []) h = refl
rest_shares-range w width r (e ∷ []) (t ∷ u ∷ ts) h = absurd h
rest_shares-range w width r (e ∷ f ∷ es) [] h = absurd h
rest_shares-range w width r (e ∷ f ∷ es) (t ∷ ts) h =
    ap (λ (s : IdxRange). with_slow e s) (rest_shares-range w width r (f ∷ es) ts h.2)
    ∙ ap
        (λ begins. (record {
          m_begin = begins;
          m_end = e ∷ f ∷ es;
          m_stride = fill (length (e ∷ f ∷ es)) 1;
        }))
        (sym (r_assign-cons 0 0 (fill (length es) 0) r))

pub packs-AreShares :
    (w width r : ℕ) (es ts : Vec)
    → Room w width es ts
    → 0 < width
    → r ≤ back es
    → AreShares w (pack_shares width r es ts)
unfolding pack_shares back
packs-AreShares w width r [] ts h p q = absurd h
packs-AreShares w width r (e ∷ []) [] h p q = absurd h
packs-AreShares w width r (e ∷ []) (t ∷ []) h p q =
    (record { ordered = omega arith; moving = p; manned = h.0; fits = omega (arith, h.1) }, tt)
packs-AreShares w width r (e ∷ []) (t ∷ u ∷ ts) h p q = absurd h
packs-AreShares w width r (e ∷ f ∷ es) [] h p q = absurd h
packs-AreShares w width r (e ∷ f ∷ es) (t ∷ ts) h p q = (
  record { ordered = omega arith; moving = omega arith; manned = h.0; fits = omega (arith, h.1) },
  packs-AreShares w width r (f ∷ es) ts h.2 p q,
)

pub rest-AreShares :
    (w width r : ℕ) (es ts : Vec)
    → Room w width es ts
    → 0 < width
    → r ≤ back es
    → AreShares w (rest_shares r es ts)
unfolding rest_shares back
rest-AreShares w width r [] ts h p q = absurd h
rest-AreShares w width r (e ∷ []) [] h p q = absurd h
rest-AreShares w width r (e ∷ []) (t ∷ []) h p q = (
  record {
    ordered = q;
    moving = omega arith;
    manned = h.0;
    fits = omega (arith, h.1, mul-le-mul_left {m = 1} {n = width} t p);
  },
  tt,
)
rest-AreShares w width r (e ∷ []) (t ∷ u ∷ ts) h p q = absurd h
rest-AreShares w width r (e ∷ f ∷ es) [] h p q = absurd h
rest-AreShares w width r (e ∷ f ∷ es) (t ∷ ts) h p q = (
  record { ordered = omega arith; moving = omega arith; manned = h.0; fits = omega (arith, h.1) },
  rest-AreShares w width r (f ∷ es) ts h.2 p q,
)
