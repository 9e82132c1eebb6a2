-- ===== src/SimdConcurrent/Bounds.antt =====
-- SimdConcurrent.hpp: the packs and single elements on the grids of the two ranges.
use native.Mathlib.Nat.{div-add-mod, mod-lt, mul-le-mul_right}
use alpaka.Base.{
  ℕ, suc, ◌+◌, ◌-◌, ◌*◌, ◌/◌, ◌%◌, ◌<◌, ◌≤◌, ◌≡◌, refl, ap, ap₂, ◌∙◌, arith, [], ◌∷◌, length,
}
use alpaka.Vec.{Vec, back}
use alpaka.Vec.Linear.{InBounds}
use alpaka.Flat.Position.{OnGrid}
use alpaka.Tiled.Tile.{lt_of_mul}
use alpaka.Tiled.Group.{range}
use alpaka.SimdConcurrent.Ranges.{pack_shares, rest_shares, Room}
use alpaka.SimdConcurrent.Places.{pack_of}
use alpaka.SimdConcurrent.Calls.{Holds, PackInBounds}

pub pack_of-Holds :
    (width : ℕ) (es xs : Vec)
    → 0 < width
    → 0 < length es
    → InBounds es xs
    → Holds width (pack_of width xs) xs
unfolding pack_of
pack_of-Holds width [] xs p n b = absurd (omega arith)
pack_of-Holds width (e ∷ es) [] p n b = absurd b
pack_of-Holds width (e ∷ []) (x ∷ []) p n b =
    (omega (arith, div-add-mod x width), omega (arith, div-add-mod x width, mod-lt x p))
pack_of-Holds width (e ∷ []) (x ∷ y ∷ xs) p n b = absurd b.1
pack_of-Holds width (e ∷ f ∷ es) (x ∷ []) p n b = absurd b.1
pack_of-Holds width (e ∷ f ∷ es) (x ∷ y ∷ []) p n b =
    (refl, pack_of-Holds width (f ∷ es) (y ∷ []) p (omega arith) b.1)
pack_of-Holds width (e ∷ f ∷ es) (x ∷ y ∷ z ∷ xs) p n b =
    (refl, pack_of-Holds width (f ∷ es) (y ∷ z ∷ xs) p (omega arith) b.1)

from_zero : (width b : ℕ) → (b - 0) % width ≡ 0 → b % width ≡ 0
from_zero width b e = ap (λ n. n % width) {y = b - 0} (omega arith) ∙ e

multiple_unique :
    (width b x : ℕ) → 0 < width → b % width ≡ 0 → b ≤ x → x < b + width → b ≡ x / width * width
multiple_unique width b x p e le lt = omega (arith, ap (λ n. n * width) quotient, whole)
  where
    whole : b ≡ b / width * width
    whole = omega (arith, div-add-mod b width, e)

    below : x / width < b / width + 1
    below =
        lt_of_mul (x / width) (b / width + 1) width (omega (arith, div-add-mod x width, whole, lt))

    above : b / width < x / width + 1
    above =
        lt_of_mul (b / width) (x / width + 1) width
          (omega (arith, div-add-mod x width, mod-lt x p, whole, le))

    quotient : b / width ≡ x / width
    quotient = omega (arith, below, above)

no-OnGrid :
    (w width r e : ℕ) (es ts : Vec)
    → Room w width (e ∷ es) ts
    → OnGrid
        (range (pack_shares width r (e ∷ es) ts)).m_begin
        (range (pack_shares width r (e ∷ es) ts)).m_end
        (range (pack_shares width r (e ∷ es) ts)).m_stride
        []
    → ⊥
unfolding pack_shares
no-OnGrid w width r e [] [] h g = h
no-OnGrid w width r e [] (t ∷ ts) h g = g
no-OnGrid w width r e (f ∷ es) [] h g = h
no-OnGrid w width r e (f ∷ es) (t ∷ ts) h g = g

no-OnGrid_rest :
    (w width r e : ℕ) (es ts : Vec)
    → Room w width (e ∷ es) ts
    → OnGrid
        (range (rest_shares r (e ∷ es) ts)).m_begin
        (range (rest_shares r (e ∷ es) ts)).m_end
        (range (rest_shares r (e ∷ es) ts)).m_stride
        []
    → ⊥
unfolding rest_shares
no-OnGrid_rest w width r e [] [] h g = h
no-OnGrid_rest w width r e [] (t ∷ ts) h g = g
no-OnGrid_rest w width r e (f ∷ es) [] h g = h
no-OnGrid_rest w width r e (f ∷ es) (t ∷ ts) h g = g

pub Holds-pack_of :
    (w width r : ℕ) (es ts bs xs : Vec)
    → Room w width es ts
    → 0 < width
    → OnGrid
        (range (pack_shares width r es ts)).m_begin
        (range (pack_shares width r es ts)).m_end
        (range (pack_shares width r es ts)).m_stride
        bs
    → Holds width bs xs
    → bs ≡ pack_of width xs
unfolding pack_shares pack_of
Holds-pack_of w width r [] ts bs xs h p g q = absurd h
Holds-pack_of w width r (e ∷ []) [] bs xs h p g q = absurd h
Holds-pack_of w width r (e ∷ []) (t ∷ u ∷ ts) bs xs h p g q = absurd h
Holds-pack_of w width r (e ∷ []) (t ∷ []) [] xs h p g q = absurd g
Holds-pack_of w width r (e ∷ []) (t ∷ []) (b ∷ c ∷ bs) xs h p g q = absurd g.3
Holds-pack_of w width r (e ∷ []) (t ∷ []) (b ∷ []) [] h p g q = absurd q
Holds-pack_of w width r (e ∷ []) (t ∷ []) (b ∷ []) (x ∷ y ∷ xs) h p g q = absurd q
Holds-pack_of w width r (e ∷ []) (t ∷ []) (b ∷ []) (x ∷ []) h p g q =
    ap (λ n. n ∷ []) (multiple_unique width b x p (from_zero width b g.2) q.0 q.1)
Holds-pack_of w width r (e ∷ f ∷ es) [] bs xs h p g q = absurd h
Holds-pack_of w width r (e ∷ f ∷ es) (t ∷ ts) [] xs h p g q = absurd g
Holds-pack_of w width r (e ∷ f ∷ es) (t ∷ ts) (b ∷ []) xs h p g q =
    absurd (no-OnGrid w width r f es ts h.2 g.3)
Holds-pack_of w width r (e ∷ f ∷ es) (t ∷ ts) (b ∷ c ∷ bs) [] h p g q = absurd q
Holds-pack_of w width r (e ∷ f ∷ es) (t ∷ ts) (b ∷ c ∷ bs) (x ∷ []) h p g q = absurd q
Holds-pack_of w width r (e ∷ f ∷ es) (t ∷ ts) (b ∷ c ∷ bs) (x ∷ y ∷ xs) h p g q =
    ap₂ ◌∷◌ q.0 (Holds-pack_of w width r (f ∷ es) ts (c ∷ bs) (y ∷ xs) h.2 p g.3 q.1)

pub OnGrid-PackInBounds :
    (w width m r : ℕ) (es ts bs : Vec)
    → Room w width es ts
    → 0 < width
    → r ≡ m * width
    → r ≤ back es
    → OnGrid
        (range (pack_shares width r es ts)).m_begin
        (range (pack_shares width r es ts)).m_end
        (range (pack_shares width r es ts)).m_stride
        bs
    → PackInBounds width es bs
unfolding pack_shares back
OnGrid-PackInBounds w width m r [] ts bs h p e le g = absurd h
OnGrid-PackInBounds w width m r (x ∷ []) [] bs h p e le g = absurd h
OnGrid-PackInBounds w width m r (x ∷ []) (t ∷ u ∷ ts) bs h p e le g = absurd h
OnGrid-PackInBounds w width m r (x ∷ []) (t ∷ []) [] h p e le g = absurd g
OnGrid-PackInBounds w width m r (x ∷ []) (t ∷ []) (b ∷ c ∷ bs) h p e le g = absurd g.3
OnGrid-PackInBounds w width m r (x ∷ []) (t ∷ []) (b ∷ []) h p e le g =
    let q =
      lt_of_mul (b / width) m width
        (omega (arith, g.1, e, div-add-mod b width, from_zero width b g.2)) in
    omega (
      arith,
      le,
      e,
      div-add-mod b width,
      from_zero width b g.2,
      mul-le-mul_right {m = suc (b / width)} {n = m} width q,
    )
OnGrid-PackInBounds w width m r (x ∷ f ∷ es) [] bs h p e le g = absurd h
OnGrid-PackInBounds w width m r (x ∷ f ∷ es) (t ∷ ts) [] h p e le g = absurd g
OnGrid-PackInBounds w width m r (x ∷ f ∷ es) (t ∷ ts) (b ∷ []) h p e le g =
    absurd (no-OnGrid w width r f es ts h.2 g.3)
OnGrid-PackInBounds w width m r (x ∷ f ∷ es) (t ∷ ts) (b ∷ c ∷ bs) h p e le g =
    (g.1, OnGrid-PackInBounds w width m r (f ∷ es) ts (c ∷ bs) h.2 p e le g.3)

pub OnGrid-InBounds :
    (w width r : ℕ) (es ts bs : Vec)
    → Room w width es ts
    → OnGrid
        (range (rest_shares r es ts)).m_begin
        (range (rest_shares r es ts)).m_end
        (range (rest_shares r es ts)).m_stride
        bs
    → InBounds es bs
unfolding rest_shares
OnGrid-InBounds w width r [] ts bs h g = absurd h
OnGrid-InBounds w width r (e ∷ []) [] bs h g = absurd h
OnGrid-InBounds w width r (e ∷ []) (t ∷ u ∷ ts) bs h g = absurd h
OnGrid-InBounds w width r (e ∷ []) (t ∷ []) [] h g = absurd g
OnGrid-InBounds w width r (e ∷ []) (t ∷ []) (b ∷ c ∷ bs) h g = absurd g.3
OnGrid-InBounds w width r (e ∷ []) (t ∷ []) (b ∷ []) h g = (g.1, tt)
OnGrid-InBounds w width r (e ∷ f ∷ es) [] bs h g = absurd h
OnGrid-InBounds w width r (e ∷ f ∷ es) (t ∷ ts) [] h g = absurd g
OnGrid-InBounds w width r (e ∷ f ∷ es) (t ∷ ts) (b ∷ []) h g =
    absurd (no-OnGrid_rest w width r f es ts h.2 g.3)
OnGrid-InBounds w width r (e ∷ f ∷ es) (t ∷ ts) (b ∷ c ∷ bs) h g =
    (g.1, OnGrid-InBounds w width r (f ∷ es) ts (c ∷ bs) h.2 g.3)
