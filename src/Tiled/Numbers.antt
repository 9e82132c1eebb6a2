-- ===== src/Tiled/Numbers.antt =====
-- TiledIdxContainer.hpp: the numbers of the range's indices that a worker's steps stand for, in all
-- dimensions.
use native.Mathlib.Nat.{div-add-mod, mul-mod_left}
use mathlib.Core.List.{head-eq_of_cons-eq, tail-eq_of_cons-eq}
use alpaka.Base.{
  ℕ, ◌-◌, ◌*◌, ◌/◌, ◌%◌, ◌<◌, ◌≡◌, refl, sym, ap, ap₂, ◌∙◌, List, [], ◌∷◌, map, arith, subst,
  dec_lt,
}
use alpaka.Vec.{Vec}
use alpaka.Vec.Linear.{InBounds}
use alpaka.Flat.{Layout}
use alpaka.Flat.Position.{OnGrid}
use alpaka.Tiled.Dims.{counts, place}
use alpaka.Tiled.Tile.{
  Share, num_points, point, number, owner, step, coordinate-number, number-lt, owner-number,
  number-owner, before_end, point-lt, mul-lt,
}
use alpaka.Tiled.Group.{range, group, AreShares, tiles}

-- The tile functions in each dimension.
unfoldable pub numbers : Layout → List Share → Vec → Vec → Vec
numbers l (h ∷ hs) (t ∷ ts) (k ∷ ks) = number l h t k ∷ numbers l hs ts ks
numbers l _ _ _ = []

unfoldable pub owners : Layout → List Share → Vec → Vec
owners l (h ∷ hs) (m ∷ ms) = owner l h m ∷ owners l hs ms
owners l _ _ = []

unfoldable pub steps : Layout → List Share → Vec → Vec
steps l (h ∷ hs) (m ∷ ms) = step l h m ∷ steps l hs ms
steps l _ _ = []

unfoldable pub points : List Share → Vec → Vec
points (h ∷ hs) (m ∷ ms) = point h m ∷ points hs ms
points _ _ = []

abbrev pub sizes : List Share → Vec
sizes hs = map num_points hs

point-inj : (h : Share) (m n : ℕ) → 0 < h.stride → point h m ≡ point h n → m ≡ n
point-inj h m n p e = elim (dec_lt m n) [
  | yes a ↦ absurd (omega (arith, e, mul-lt m n h.stride p a))
  | no a ↦ elim (dec_lt n m) [
    | yes b ↦ absurd (omega (arith, e, mul-lt n m h.stride p b))
    | no b ↦ omega arith
  ]
]

module _ (w : ℕ) (l : Layout) where
  pub place-numbers :
      (hs : List Share) (ts ks : Vec) → place (tiles l hs ts) ks ≡ points hs (numbers l hs ts ks)
  unfolding place tiles points numbers
  place-numbers [] ts ks = refl
  place-numbers (h ∷ hs) [] ks = refl
  place-numbers (h ∷ hs) (t ∷ ts) [] = refl
  place-numbers (h ∷ hs) (t ∷ ts) (k ∷ ks) =
      ap₂ ◌∷◌ (coordinate-number l h t k) (place-numbers hs ts ks)

  pub numbers_lem :
      (hs : List Share) (ts ks : Vec)
      → AreShares w hs
      → InBounds (group hs) ts
      → InBounds (counts (tiles l hs ts)) ks
      → InBounds (sizes hs) (numbers l hs ts ks)
        × (owners l hs (numbers l hs ts ks) ≡ ts)
        × (steps l hs (numbers l hs ts ks) ≡ ks)
  unfolding tiles numbers owners steps
  numbers_lem [] [] [] i b c = (tt, refl, refl)
  numbers_lem [] [] (k ∷ ks) i b c = absurd c
  numbers_lem [] (t ∷ ts) ks i b c = absurd b
  numbers_lem (h ∷ hs) [] ks i b c = absurd b
  numbers_lem (h ∷ hs) (t ∷ ts) [] i b c = absurd c
  numbers_lem (h ∷ hs) (t ∷ ts) (k ∷ ks) i b c =
      let rest = numbers_lem hs ts ks i.1 b.1 c.1 in
      let here = owner-number w l h t k i.0 b.0 c.0 in
      ((number-lt w l h t k i.0 b.0 c.0, rest.0), ap₂ ◌∷◌ here.0 rest.1, ap₂ ◌∷◌ here.1 rest.2)

  pub owners_lem :
      (hs : List Share) (ms : Vec)
      → AreShares w hs
      → InBounds (sizes hs) ms
      → InBounds (group hs) (owners l hs ms)
        × InBounds (counts (tiles l hs (owners l hs ms))) (steps l hs ms)
        × (numbers l hs (owners l hs ms) (steps l hs ms) ≡ ms)
  unfolding tiles numbers owners steps
  owners_lem [] [] i b = (tt, tt, refl)
  owners_lem [] (m ∷ ms) i b = absurd b
  owners_lem (h ∷ hs) [] i b = absurd b
  owners_lem (h ∷ hs) (m ∷ ms) i b =
      let rest = owners_lem hs ms i.1 b.1 in
      let here = number-owner w l h m i.0 b.0 in
      ((here.0, rest.0), (here.1, rest.1), ap₂ ◌∷◌ here.2 rest.2)

  pub points-OnGrid :
      (hs : List Share) (ms : Vec)
      → AreShares w hs
      → InBounds (sizes hs) ms
      → OnGrid (range hs).m_begin (range hs).m_end (range hs).m_stride (points hs ms)
  unfolding points
  points-OnGrid [] [] i b = tt
  points-OnGrid [] (m ∷ ms) i b = absurd b
  points-OnGrid (h ∷ hs) [] i b = absurd b
  points-OnGrid (h ∷ hs) (m ∷ ms) i b = (
    omega arith,
    before_end h m i.0.moving b.0,
    ap (λ t. t % h.stride) {y = m * h.stride} (omega arith) ∙ mul-mod_left m h.stride,
    points-OnGrid hs ms i.1 b.1,
  )

  -- The number of a point of the grid in each dimension.
  pub on_grid :
      (hs : List Share) (ps : Vec)
      → AreShares w hs
      → OnGrid (range hs).m_begin (range hs).m_end (range hs).m_stride ps
      → (ms : Vec) × InBounds (sizes hs) ms × (points hs ms ≡ ps)
  unfolding points
  on_grid [] [] i g = ([], tt, refl)
  on_grid [] (p ∷ ps) i g = absurd g
  on_grid (h ∷ hs) [] i g = absurd g
  on_grid (h ∷ hs) (p ∷ ps) i g =
      let rest = on_grid hs ps i.1 g.3 in
      (
        (p - h.begin) / h.stride ∷ rest.0,
        (
          point-lt h ((p - h.begin) / h.stride) i.0.moving (subst (λ q. q < h.end) (sym here) g.1),
          rest.1,
        ),
        ap₂ ◌∷◌ here rest.2,
      )
    where
      here : point h ((p - h.begin) / h.stride) ≡ p
      here = omega (arith, g.0, g.2, div-add-mod (p - h.begin) h.stride)

  pub points-inj :
      (hs : List Share) (ms ns : Vec)
      → AreShares w hs
      → InBounds (sizes hs) ms
      → InBounds (sizes hs) ns
      → points hs ms ≡ points hs ns
      → ms ≡ ns
  unfolding points
  points-inj [] [] [] i b c e = refl
  points-inj [] [] (n ∷ ns) i b c e = absurd c
  points-inj [] (m ∷ ms) ns i b c e = absurd b
  points-inj (h ∷ hs) [] ns i b c e = absurd b
  points-inj (h ∷ hs) (m ∷ ms) [] i b c e = absurd c
  points-inj (h ∷ hs) (m ∷ ms) (n ∷ ns) i b c e =
      ap₂ ◌∷◌ (point-inj h m n i.0.moving (head-eq_of_cons-eq e))
        (points-inj hs ms ns i.1 b.1 c.1 (tail-eq_of_cons-eq e))
