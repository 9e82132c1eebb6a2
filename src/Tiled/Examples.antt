-- ===== src/Tiled/Examples.antt =====
-- Concrete inputs for the theorems on include/alpaka/mem/TiledIdxContainer.hpp.
use alpaka.Base.{ℕ, suc, wrap, ◌≡◌, refl, arith, [], ◌∷◌, map, some}
use alpaka.Vec.{Vec, vec_add}
use alpaka.Vec.Linear.{InBounds, volume}
use alpaka.Vec.RoundTrip.{unrank}
use alpaka.ThreadSpace.{iota}
use alpaka.Flat.{Layout}
use alpaka.Flat.Position.{OnGrid}
use alpaka.Tiled.{make_iterator, make_iterator_end, visit, visited}
use alpaka.Tiled.Store.{write}
use alpaka.Tiled.Dims.{counts, place}
use alpaka.Tiled.Box.{dims_of, visit-box}
use alpaka.Tiled.Tile.{Share}
use alpaka.Tiled.Group.{range, group, AreShares, tiles}
use alpaka.Tiled.Partition.{At, tiles-disjoint, tiles-cover}

-- Three dimensions, of which the first and the last are selected.
visit-box_example :
    visit 32
      (0 ∷ 2 ∷ [])
      (suc (
        volume (
          counts (
            dims_of 32
              (0 ∷ 2 ∷ [])
              (1 ∷ 2 ∷ 3 ∷ [])
              (0 ∷ 5 ∷ 1 ∷ [])
              (4 ∷ 9 ∷ 6 ∷ [])
              (2 ∷ 1 ∷ 3 ∷ [])))))
      (make_iterator 32
        (0 ∷ 2 ∷ [])
        (1 ∷ 2 ∷ 3 ∷ [])
        (0 ∷ 5 ∷ 1 ∷ [])
        (4 ∷ 9 ∷ 6 ∷ [])
        (2 ∷ 1 ∷ 3 ∷ []))
      (make_iterator_end (0 ∷ 2 ∷ []) (vec_add 32 (4 ∷ 9 ∷ 6 ∷ []) (1 ∷ 2 ∷ 3 ∷ [])))
    ≡ some (
        map
          (λ i. write (vec_add 32 (0 ∷ 5 ∷ 1 ∷ []) (1 ∷ 2 ∷ 3 ∷ [])) (0 ∷ 2 ∷ []) (
            place
              (dims_of 32
                (0 ∷ 2 ∷ [])
                (1 ∷ 2 ∷ 3 ∷ [])
                (0 ∷ 5 ∷ 1 ∷ [])
                (4 ∷ 9 ∷ 6 ∷ [])
                (2 ∷ 1 ∷ 3 ∷ []))
              (unrank
                (counts (
                  dims_of 32
                    (0 ∷ 2 ∷ [])
                    (1 ∷ 2 ∷ 3 ∷ [])
                    (0 ∷ 5 ∷ 1 ∷ [])
                    (4 ∷ 9 ∷ 6 ∷ [])
                    (2 ∷ 1 ∷ 3 ∷ [])))
                i)))
          (iota (
            volume (
              counts (
                dims_of 32
                  (0 ∷ 2 ∷ [])
                  (1 ∷ 2 ∷ 3 ∷ [])
                  (0 ∷ 5 ∷ 1 ∷ [])
                  (4 ∷ 9 ∷ 6 ∷ [])
                  (2 ∷ 1 ∷ 3 ∷ []))))))
unfolding wrap
visit-box_example =
    visit-box 32 (1 ∷ 2 ∷ 3 ∷ []) (0 ∷ 5 ∷ 1 ∷ []) (4 ∷ 9 ∷ 6 ∷ []) (2 ∷ 1 ∷ 3 ∷ []) refl refl 0
      (2 ∷ []) (omega arith, (λ e. omega (arith, e), tt), (omega arith, tt, tt))
      ((omega arith, omega arith), ((omega arith, omega arith), tt))

-- The range from (1, 0) to (6, 3) in steps of (2, 1), shared by two times two workers.
abbrev rows : Share
rows = record { begin = 1; end = 6; stride = 2; threads = 2 }

abbrev columns : Share
columns = record { begin = 0; end = 3; stride = 1; threads = 2 }

shares : AreShares 32 (rows ∷ columns ∷ [])
shares = (
  record { ordered = omega arith; moving = omega arith; manned = omega arith; fits = omega arith },
  (
    record {
      ordered = omega arith;
      moving = omega arith;
      manned = omega arith;
      fits = omega arith;
    },
    tt,
  ),
)

inside : InBounds (group (rows ∷ columns ∷ [])) (0 ∷ 1 ∷ [])
inside = (omega arith, (omega arith, tt))

on :
    OnGrid
      (range (rows ∷ columns ∷ [])).m_begin
      (range (rows ∷ columns ∷ [])).m_end
      (range (rows ∷ columns ∷ [])).m_stride
      (5 ∷ 1 ∷ [])
on = (omega arith, omega arith, refl, (omega arith, omega arith, refl, tt))

five_one : At 32 Layout.strided rows (columns ∷ []) (0 ∷ 1 ∷ []) 1 (5 ∷ 1 ∷ [])
unfolding visited wrap volume tiles
five_one = ((1 ∷ 1 ∷ []) ∷ (5 ∷ 1 ∷ []) ∷ [], refl, omega arith, refl)

tiles-disjoint_example :
    OnGrid
      (range (rows ∷ columns ∷ [])).m_begin
      (range (rows ∷ columns ∷ [])).m_end
      (range (rows ∷ columns ∷ [])).m_stride
      (5 ∷ 1 ∷ [])
    × ◌≡◌ {A = Vec} (0 ∷ 1 ∷ []) (0 ∷ 1 ∷ [])
    × ◌≡◌ {A = ℕ} 1 1
tiles-disjoint_example =
    tiles-disjoint 32 Layout.strided rows (columns ∷ []) shares (0 ∷ 1 ∷ []) (0 ∷ 1 ∷ []) 1 1
      (5 ∷ 1 ∷ []) inside inside five_one five_one

tiles-cover_example :
    (ts : Vec) × InBounds (group (rows ∷ columns ∷ [])) ts
    × (j : ℕ) × At 32 Layout.contiguous rows (columns ∷ []) ts j (5 ∷ 1 ∷ [])
tiles-cover_example = tiles-cover 32 Layout.contiguous rows (columns ∷ []) shares (5 ∷ 1 ∷ []) on
