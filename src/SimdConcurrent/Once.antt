-- ===== src/SimdConcurrent/Once.antt =====
-- SimdConcurrent.hpp: the visits of one worker, and where packs end and single elements begin.
use native.Mathlib.Nat.{div-add-mod, mod-lt, mul-le-mul_right}
use alpaka.Base.{
  ℕ, suc, ◌*◌, ◌/◌, ◌<◌, ◌≤◌, ◌≡◌, ◌∙◌, arith, List, [], ◌∷◌, some, length, length-map, map, get_or,
}
use alpaka.Vec.{Vec, back}
use alpaka.Vec.Linear.{InBounds}
use alpaka.ThreadSpace.{iota}
use alpaka.Flat.Position.{OnGrid}
use alpaka.Tiled.{visited}
use alpaka.Tiled.Tile.{Share, lt_of_mul}
use alpaka.Tiled.Group.{range, group, container, AreShares}
use alpaka.Tiled.Whole.{how_many, nth, visited-tiles}
use alpaka.Tiled.Partition.{tiles-disjoint}
use alpaka.Flat.{Layout}
use alpaka.Flat.Select.{length-iota}
use alpaka.SimdConcurrent.Ranges.{pack_shares, rest_shares, Room}
use alpaka.SimdConcurrent.Places.{pack_of}

-- What a worker of any number of dimensions visits, and the place of an index in it.
abbrev pub PlacedAt : ℕ → Layout → List Share → Vec → ℕ → Vec → Type 0
PlacedAt w l hs us j p =
    (indices : List Vec) × (visited w (suc (how_many l hs us)) (container l hs us) ≡ some indices)
    × (j < length indices)
    × (get_or indices j [] ≡ p)

pub placed_once :
    (w : ℕ) (l : Layout) (hs : List Share) (us vs : Vec) (j k : ℕ) (p : Vec)
    → 0 < length hs
    → AreShares w hs
    → InBounds (group hs) us
    → InBounds (group hs) vs
    → PlacedAt w l hs us j p
    → PlacedAt w l hs vs k p
    → OnGrid (range hs).m_begin (range hs).m_end (range hs).m_stride p × (us ≡ vs) × (j ≡ k)
placed_once w l [] us vs j k p q i b c a d = absurd (omega arith)
placed_once w l (h ∷ hs) us vs j k p q i b c a d = tiles-disjoint w l h hs i us vs j k p b c a d

pub visits_all :
    (w : ℕ) (l : Layout) (hs : List Share) (us : Vec)
    → 0 < length hs
    → AreShares w hs
    → InBounds (group hs) us
    → (indices : List Vec) × (visited w (suc (how_many l hs us)) (container l hs us) ≡ some indices)
      × (length indices ≡ how_many l hs us)
visits_all w l [] us q i b = absurd (omega arith)
visits_all w l (h ∷ hs) us q i b = (
  map (nth l (h ∷ hs) us) (iota (how_many l (h ∷ hs) us)),
  visited-tiles w l h hs us i b,
  length-map (iota (how_many l (h ∷ hs) us)) (nth l (h ∷ hs) us)
      ∙ length-iota (how_many l (h ∷ hs) us),
)

-- Where the last component of an index lies.
pub packs_before :
    (w width m r : ℕ) (es ts xs : Vec)
    → Room w width es ts
    → InBounds es xs
    → 0 < width
    → r ≡ m * width
    → OnGrid
        (range (pack_shares width r es ts)).m_begin
        (range (pack_shares width r es ts)).m_end
        (range (pack_shares width r es ts)).m_stride
        (pack_of width xs)
    → back xs < r
unfolding pack_shares pack_of back
packs_before w width m r [] ts xs h b p e g = absurd h
packs_before w width m r (x ∷ es) ts [] h b p e g = absurd b
packs_before w width m r (x ∷ []) [] (y ∷ xs) h b p e g = absurd h
packs_before w width m r (x ∷ []) (t ∷ ts) (y ∷ z ∷ xs) h b p e g = absurd b.1
packs_before w width m r (x ∷ []) (t ∷ u ∷ ts) (y ∷ []) h b p e g = absurd h
packs_before w width m r (x ∷ []) (t ∷ []) (y ∷ []) h b p e g = omega (
  arith,
  e,
  div-add-mod y width,
  mod-lt y p,
  mul-le-mul_right {m = suc (y / width)} {n = m} width
      (lt_of_mul (y / width) m width (omega (arith, g.1, e))),
)
packs_before w width m r (x ∷ f ∷ es) [] (y ∷ xs) h b p e g = absurd h
packs_before w width m r (x ∷ f ∷ es) (t ∷ ts) (y ∷ []) h b p e g = absurd b.1
packs_before w width m r (x ∷ f ∷ es) (t ∷ ts) (y ∷ z ∷ xs) h b p e g =
    packs_before w width m r (f ∷ es) ts (z ∷ xs) h.2 b.1 p e g.3

pub rest_from :
    (w width r : ℕ) (es ts xs : Vec)
    → Room w width es ts
    → InBounds es xs
    → OnGrid
        (range (rest_shares r es ts)).m_begin
        (range (rest_shares r es ts)).m_end
        (range (rest_shares r es ts)).m_stride
        xs
    → r ≤ back xs
unfolding rest_shares back
rest_from w width r [] ts xs h b g = absurd h
rest_from w width r (x ∷ es) ts [] h b g = absurd b
rest_from w width r (x ∷ []) [] (y ∷ xs) h b g = absurd h
rest_from w width r (x ∷ []) (t ∷ ts) (y ∷ z ∷ xs) h b g = absurd b.1
rest_from w width r (x ∷ []) (t ∷ u ∷ ts) (y ∷ []) h b g = absurd h
rest_from w width r (x ∷ []) (t ∷ []) (y ∷ []) h b g = g.0
rest_from w width r (x ∷ f ∷ es) [] (y ∷ xs) h b g = absurd h
rest_from w width r (x ∷ f ∷ es) (t ∷ ts) (y ∷ []) h b g = absurd b.1
rest_from w width r (x ∷ f ∷ es) (t ∷ ts) (y ∷ z ∷ xs) h b g =
    rest_from w width r (f ∷ es) ts (z ∷ xs) h.2 b.1 g.3
