-- ===== src/SimdConcurrent/Places.antt =====
-- SimdConcurrent.hpp: the places of the packs and of single elements, and who visits them.
use native.Mathlib.Nat.{mod-one, mul-mod_left, mul-div-le}
use mathlib.Core.Option.{some-injective}
use alpaka.Base.{
  ℕ, suc, ◌+◌, ◌-◌, ◌*◌, ◌/◌, ◌%◌, ◌^◌, ◌<◌, ◌≤◌, ◌≡◌, sym, ap, ap₂, ◌∙◌, arith, List, [], ◌∷◌,
  some, length, length-map, get_or,
}
use alpaka.Vec.{Vec, back}
use alpaka.Vec.Linear.{InBounds}
use alpaka.IdxRange.{IdxRange}
use alpaka.ThreadSpace.{iota}
use alpaka.Flat.{Layout}
use alpaka.Flat.Position.{OnGrid}
use alpaka.Flat.Select.{length-iota}
use alpaka.Tiled.{TiledIdxContainer, visited}
use alpaka.Tiled.Tile.{Share}
use alpaka.Tiled.Group.{range, group, container, AreShares}
use alpaka.Tiled.Whole.{how_many, nth, visited-tiles}
use alpaka.Tiled.Partition.{tiles-cover}
use alpaka.SimdConcurrent.{SimdPolicy, make_idx_map}
use alpaka.SimdConcurrent.Ranges.{pack_shares, rest_shares, Room}

-- Widths that fit, and workers and extents with room for one more step.
pub record IsConcurrent (w : ℕ) (p : SimdPolicy) (threads extents : Vec) : Type 0 where
  pub has_width : 0 < p.simd_width
  pub has_packs : 0 < p.num_simd_per_fn_call
  pub call_fits : p.simd_width * p.num_simd_per_fn_call < 2 ^ 32
  pub room : Room w p.simd_width extents threads

-- The first index of the pack of an index.
unfoldable pub pack_of : ℕ → Vec → Vec
pack_of width [] = []
pack_of width (x ∷ []) = x / width * width ∷ []
pack_of width (x ∷ y ∷ xs) = x ∷ pack_of width (y ∷ xs)

pub Room-back :
    (w width : ℕ) (es ts : Vec)
    → Room w width es ts
    → (0 < back ts) × (back es + back ts * width < 2 ^ w)
unfolding back
Room-back w width [] ts h = absurd h
Room-back w width (e ∷ []) [] h = absurd h
Room-back w width (e ∷ []) (t ∷ []) h = h
Room-back w width (e ∷ []) (t ∷ u ∷ ts) h = absurd h
Room-back w width (e ∷ f ∷ es) [] h = absurd h
Room-back w width (e ∷ f ∷ []) (t ∷ []) h = absurd h.2
Room-back w width (e ∷ f ∷ g ∷ es) (t ∷ []) h = absurd h.2
Room-back w width (e ∷ f ∷ es) (t ∷ u ∷ ts) h = Room-back w width (f ∷ es) (u ∷ ts) h.2

pub packs-OnGrid :
    (w width r : ℕ) (es ts xs : Vec)
    → Room w width es ts
    → InBounds es xs
    → back xs < r
    → OnGrid
        (range (pack_shares width r es ts)).m_begin
        (range (pack_shares width r es ts)).m_end
        (range (pack_shares width r es ts)).m_stride
        (pack_of width xs)
unfolding pack_shares pack_of back
packs-OnGrid w width r [] ts xs h b q = absurd h
packs-OnGrid w width r (e ∷ es) ts [] h b q = absurd b
packs-OnGrid w width r (e ∷ []) [] (x ∷ xs) h b q = absurd h
packs-OnGrid w width r (e ∷ []) (t ∷ ts) (x ∷ y ∷ xs) h b q = absurd b.1
packs-OnGrid w width r (e ∷ []) (t ∷ u ∷ ts) (x ∷ []) h b q = absurd h
packs-OnGrid w width r (e ∷ []) (t ∷ []) (x ∷ []) h b q = (
  omega arith,
  omega (arith, mul-div-le x width),
  ap (λ n. n % width) {y = x / width * width} (omega arith) ∙ mul-mod_left (x / width) width,
  tt,
)
packs-OnGrid w width r (e ∷ f ∷ es) [] (x ∷ xs) h b q = absurd h
packs-OnGrid w width r (e ∷ f ∷ es) (t ∷ ts) (x ∷ []) h b q = absurd b.1
packs-OnGrid w width r (e ∷ f ∷ es) (t ∷ ts) (x ∷ y ∷ xs) h b q =
    (omega arith, b.0, mod-one (x - 0), packs-OnGrid w width r (f ∷ es) ts (y ∷ xs) h.2 b.1 q)

pub rest-OnGrid :
    (w width r : ℕ) (es ts xs : Vec)
    → Room w width es ts
    → InBounds es xs
    → r ≤ back xs
    → OnGrid
        (range (rest_shares r es ts)).m_begin
        (range (rest_shares r es ts)).m_end
        (range (rest_shares r es ts)).m_stride
        xs
unfolding rest_shares back
rest-OnGrid w width r [] ts xs h b q = absurd h
rest-OnGrid w width r (e ∷ es) ts [] h b q = absurd b
rest-OnGrid w width r (e ∷ []) [] (x ∷ xs) h b q = absurd h
rest-OnGrid w width r (e ∷ []) (t ∷ ts) (x ∷ y ∷ xs) h b q = absurd b.1
rest-OnGrid w width r (e ∷ []) (t ∷ u ∷ ts) (x ∷ []) h b q = absurd h
rest-OnGrid w width r (e ∷ []) (t ∷ []) (x ∷ []) h b q = (q, b.0, mod-one (x - r), tt)
rest-OnGrid w width r (e ∷ f ∷ es) [] (x ∷ xs) h b q = absurd h
rest-OnGrid w width r (e ∷ f ∷ es) (t ∷ ts) (x ∷ []) h b q = absurd b.1
rest-OnGrid w width r (e ∷ f ∷ es) (t ∷ ts) (x ∷ y ∷ xs) h b q =
    (omega arith, b.0, mod-one (x - 0), rest-OnGrid w width r (f ∷ es) ts (y ∷ xs) h.2 b.1 q)

-- A worker, what its loop over a container visits, and the place of an index in it.
abbrev pub Found : ℕ → Layout → List Share → Vec → Type 0
Found w l hs p =
    (us : Vec) × InBounds (group hs) us
    × (indices : List Vec) × (visited w (suc (how_many l hs us)) (container l hs us) ≡ some indices)
    × (length indices ≡ how_many l hs us)
    × (j : ℕ) × (j < length indices)
    × (get_or indices j [] ≡ p)

pub found :
    (w : ℕ) (l : Layout) (hs : List Share) (p : Vec)
    → 0 < length hs
    → AreShares w hs
    → OnGrid (range hs).m_begin (range hs).m_end (range hs).m_stride p
    → Found w l hs p
found w l [] p h i g = absurd (omega arith)
found w l (h ∷ hs) p q i g =
    let (us, b, j, at) = tiles-cover w l h hs i p g in
    let (indices, e, less, here) = at in
    (
      us,
      b,
      indices,
      e,
      ap length (some-injective _ _ (sym e ∙ visited-tiles w l h hs us i b))
          ∙ length-map (iota (how_many l (h ∷ hs) us)) (nth l (h ∷ hs) us)
          ∙ length-iota (how_many l (h ∷ hs) us),
      j,
      less,
      here,
    )

pub map_exact :
    (p : SimdPolicy) (threads us : Vec) (r : IdxRange) (hs : List Share)
    → range hs ≡ r
    → group hs ≡ threads
    → container p.idx_layout hs us
      ≡ make_idx_map p (record { m_thread_idx = us; m_thread_count = threads }) r
unfolding make_idx_map
map_exact p threads us r hs e g =
    ap (build (range hs) (group hs)) (sym (length-map hs (λ h. h.end)))
    ∙ ap₂ (λ s t. build s t (length s.m_end)) e g
  where
    build : IdxRange → Vec → ℕ → TiledIdxContainer
    build s t n = record {
      m_idx_range = s;
      m_thread_space = record { m_thread_idx = us; m_thread_count = t };
      idx_mapper = p.idx_layout;
      c_select = iota n;
    }
