-- ===== src/Tiled/Partition.antt =====
-- TiledIdxContainer.hpp: the workers of a group share the indices of a range among themselves.
use native.Mathlib.Nat.{zero-add}
use mathlib.Core.Option.{some-injective}
use alpaka.Base.{
  ℕ, zero, suc, ◌+◌, ◌<◌, ◌≡◌, sym, ap, ap₂, ◌∙◌, List, [], ◌∷◌, map, some, arith, length,
  length-map, get_or, subst,
}
use alpaka.Vec.{Vec}
use alpaka.Vec.Linear.{InBounds, row_major, row_major-lt}
use alpaka.Vec.RoundTrip.{unrank, unrank-InBounds, row_major-unrank, unrank-row_major}
use alpaka.ThreadSpace.{iota, iota_from}
use alpaka.Flat.{Layout}
use alpaka.Flat.Select.{length-iota}
use alpaka.Flat.Position.{OnGrid}
use alpaka.Tiled.{visited}
use alpaka.Tiled.Dims.{counts, place}
use alpaka.Tiled.Tile.{Share}
use alpaka.Tiled.Group.{range, group, container, AreShares, tiles}
use alpaka.Tiled.Whole.{nth, how_many, visited-tiles}
use alpaka.Tiled.Numbers.{
  numbers, owners, steps, points, sizes, place-numbers, numbers_lem, owners_lem, points-OnGrid,
  on_grid, points-inj,
}

-- The worker's i-th index is p.
abbrev pub At : ℕ → Layout → Share → List Share → Vec → ℕ → Vec → Type 0
At w l h hs ts i p =
    (indices : List Vec) × (visited w (suc (how_many l (h ∷ hs) ts)) (container l (h ∷ hs) ts)
      ≡ some indices)
    × (i < length indices)
    × (get_or indices i [] ≡ p)

get_or-map-iota_from :
    (f : ℕ → Vec) (s n i : ℕ) → i < n → get_or (map f (iota_from s n)) i [] ≡ f (s + i)
unfolding iota_from
get_or-map-iota_from f s zero i h = absurd (omega arith)
get_or-map-iota_from f s (suc n) zero h = ap f {y = s + 0} (omega arith)
get_or-map-iota_from f s (suc n) (suc i) h =
    get_or-map-iota_from f (s + 1) n i (omega arith) ∙ ap f {x = s + 1 + i} (omega arith)

get_or-map-iota : (f : ℕ → Vec) (n i : ℕ) → i < n → get_or (map f (iota n)) i [] ≡ f i
unfolding iota
get_or-map-iota f n i h = get_or-map-iota_from f 0 n i h ∙ ap f (zero-add i)

module _ (w : ℕ) (l : Layout) (h : Share) (hs : List Share) (i : AreShares w (h ∷ hs)) where
  abbrev dims : Vec → Vec
  dims ts = counts (tiles l (h ∷ hs) ts)

  -- The number of the j-th index in each dimension.
  abbrev numbered : Vec → ℕ → Vec
  numbered ts j = numbers l (h ∷ hs) ts (unrank (dims ts) j)

  At-nth :
      (ts : Vec) (j : ℕ) (p : Vec)
      → InBounds (group (h ∷ hs)) ts
      → At w l h hs ts j p
      → (j < how_many l (h ∷ hs) ts) × (nth l (h ∷ hs) ts j ≡ p)
  At-nth ts j p b (indices, e, less, here) = (
    below,
    sym (get_or-map-iota (nth l (h ∷ hs) ts) (how_many l (h ∷ hs) ts) j below)
        ∙ ap (λ xs. get_or xs j []) (sym same)
        ∙ here,
  )
    where
      same : indices ≡ map (nth l (h ∷ hs) ts) (iota (how_many l (h ∷ hs) ts))
      same = some-injective _ _ (sym e ∙ visited-tiles w l h hs ts i b)

      below : j < how_many l (h ∷ hs) ts
      below = omega (
        arith,
        less,
        ap length same
            ∙ length-map (iota (how_many l (h ∷ hs) ts)) (nth l (h ∷ hs) ts)
            ∙ length-iota (how_many l (h ∷ hs) ts),
      )

  nth-At :
      (ts : Vec) (j : ℕ)
      → InBounds (group (h ∷ hs)) ts
      → j < how_many l (h ∷ hs) ts
      → At w l h hs ts j (nth l (h ∷ hs) ts j)
  nth-At ts j b less = (
    map (nth l (h ∷ hs) ts) (iota (how_many l (h ∷ hs) ts)),
    visited-tiles w l h hs ts i b,
    omega (
      arith,
      length-map (iota (how_many l (h ∷ hs) ts)) (nth l (h ∷ hs) ts)
          ∙ length-iota (how_many l (h ∷ hs) ts),
    ),
    get_or-map-iota (nth l (h ∷ hs) ts) (how_many l (h ∷ hs) ts) j less,
  )

  numbered_lem :
      (ts : Vec) (j : ℕ)
      → InBounds (group (h ∷ hs)) ts
      → j < how_many l (h ∷ hs) ts
      → InBounds (sizes (h ∷ hs)) (numbered ts j)
        × (owners l (h ∷ hs) (numbered ts j) ≡ ts)
        × (steps l (h ∷ hs) (numbered ts j) ≡ unrank (dims ts) j)
  numbered_lem ts j b less =
      numbers_lem w l (h ∷ hs) ts (unrank (dims ts) j) i b (unrank-InBounds (dims ts) j less)

  -- For a range and a group of the same positive dimension, with positive strides, ends not before the
  -- begins, workers in each dimension, and ends that with one step of all workers fit w bits, for the
  -- strided and the contiguous layout: if p is the j-th index that one worker visits, and the k-th that a
  -- worker visits, then p lies on the grid of the range, it is the same worker, and j is k. So no
  -- index is visited twice, and none outside the range.
  pub tiles-disjoint :
      (ts us : Vec) (j k : ℕ) (p : Vec)
      → InBounds (group (h ∷ hs)) ts
      → InBounds (group (h ∷ hs)) us
      → At w l h hs ts j p
      → At w l h hs us k p
      → OnGrid (range (h ∷ hs)).m_begin (range (h ∷ hs)).m_end (range (h ∷ hs)).m_stride p
        × (ts ≡ us)
        × (j ≡ k)
  tiles-disjoint ts us j k p b c a d = (
    subst (OnGrid (range (h ∷ hs)).m_begin (range (h ∷ hs)).m_end (range (h ∷ hs)).m_stride)
        (sym (place-numbers w l (h ∷ hs) ts (unrank (dims ts) j)) ∙ first.1)
        (points-OnGrid w l (h ∷ hs) (numbered ts j) i one.0),
    sym one.1 ∙ ap (owners l (h ∷ hs)) same ∙ two.1,
    sym (row_major-unrank (dims ts) j first.0)
        ∙ ap₂ (λ o s. row_major (dims o) s) (sym one.1 ∙ ap (owners l (h ∷ hs)) same ∙ two.1)
            (sym one.2 ∙ ap (steps l (h ∷ hs)) same ∙ two.2)
        ∙ row_major-unrank (dims us) k second.0,
  )
    where
      first : (j < how_many l (h ∷ hs) ts) × (nth l (h ∷ hs) ts j ≡ p)
      first = At-nth ts j p b a

      second : (k < how_many l (h ∷ hs) us) × (nth l (h ∷ hs) us k ≡ p)
      second = At-nth us k p c d

      one :
          InBounds (sizes (h ∷ hs)) (numbered ts j)
          × (owners l (h ∷ hs) (numbered ts j) ≡ ts)
          × (steps l (h ∷ hs) (numbered ts j) ≡ unrank (dims ts) j)
      one = numbered_lem ts j b first.0

      two :
          InBounds (sizes (h ∷ hs)) (numbered us k)
          × (owners l (h ∷ hs) (numbered us k) ≡ us)
          × (steps l (h ∷ hs) (numbered us k) ≡ unrank (dims us) k)
      two = numbered_lem us k c second.0

      same : numbered ts j ≡ numbered us k
      same = points-inj w l (h ∷ hs) (numbered ts j) (numbered us k) i one.0 two.0 (
          sym (place-numbers w l (h ∷ hs) ts (unrank (dims ts) j))
          ∙ first.1
          ∙ sym second.1
          ∙ place-numbers w l (h ∷ hs) us (unrank (dims us) k))

  -- For a range and a group of the same positive dimension, with positive strides, ends not before the
  -- begins, workers in each dimension, and ends that with one step of all workers fit w bits, for the
  -- strided and the contiguous layout: every index on the grid of the range is among those that some
  -- worker visits.
  pub tiles-cover :
      (p : Vec)
      → OnGrid (range (h ∷ hs)).m_begin (range (h ∷ hs)).m_end (range (h ∷ hs)).m_stride p
      → (ts : Vec) × InBounds (group (h ∷ hs)) ts × (j : ℕ) × At w l h hs ts j p
  tiles-cover p g = (
    ts,
    own.0,
    row_major (dims ts) ks,
    subst (At w l h hs ts (row_major (dims ts) ks))
        (ap (place (tiles l (h ∷ hs) ts)) (unrank-row_major (dims ts) ks own.1)
          ∙ place-numbers w l (h ∷ hs) ts ks
          ∙ ap (points (h ∷ hs)) own.2
          ∙ grid.2)
        (nth-At ts (row_major (dims ts) ks) own.0 (row_major-lt (dims ts) ks own.1)),
  )
    where
      grid : (ms : Vec) × InBounds (sizes (h ∷ hs)) ms × (points (h ∷ hs) ms ≡ p)
      grid = on_grid w l (h ∷ hs) p i g

      ts : Vec
      ts = owners l (h ∷ hs) grid.0

      ks : Vec
      ks = steps l (h ∷ hs) grid.0

      own :
          InBounds (group (h ∷ hs)) ts × InBounds (dims ts) ks × (numbers l (h ∷ hs) ts ks ≡ grid.0)
      own = owners_lem w l (h ∷ hs) grid.0 i grid.1
