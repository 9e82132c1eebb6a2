-- ===== src/Tiled/Group.antt =====
-- TiledIdxContainer.hpp, begin() and end() with all dimensions selected: the dimensions of a worker's
-- iterator are its tiles.
use alpaka.Base.{
  ℕ, suc, ◌≡◌, refl, ap, ap₂, ◌∙◌, List, [], ◌∷◌, map, arith, length, add_w, sub_w, mul_w,
}
use alpaka.Vec.{Vec, vec_add, vec_sub, vec_mul, vec_div, vec_mod, vec_min, div_ceil, zip_with, fill}
use alpaka.Vec.Linear.{InBounds}
use alpaka.IdxRange.{IdxRange, distance}
use alpaka.ThreadSpace.{ThreadSpace, iota, iota_from}
use alpaka.Flat.{Layout, slot_begin}
use alpaka.Flat.Select.{iota-suc}
use alpaka.Tiled.{TiledIdxContainer, logical_extent, slot_offset, slot_end}
use alpaka.Tiled.Dims.{Dim, IsDim, IsBox}
use alpaka.Tiled.Box.{dim_of, dims_of}
use alpaka.Tiled.Exact.{strided_exact, contiguous_exact, stride_bound}
use alpaka.Tiled.Tile.{Share, IsShare, tile, stride_pos}

-- The range and the numbers of workers of a group, dimension by dimension.
abbrev pub range : List Share → IdxRange
range hs = record {
  m_begin = map (λ h. h.begin) hs;
  m_end = map (λ h. h.end) hs;
  m_stride = map (λ h. h.stride) hs;
}

abbrev pub group : List Share → Vec
group hs = map (λ h. h.threads) hs

abbrev pub worker : List Share → Vec → ThreadSpace
worker hs ts = record { m_thread_idx = ts; m_thread_count = group hs }

-- The container of a worker, with all dimensions selected.
abbrev pub container : Layout → List Share → Vec → TiledIdxContainer
container l hs ts = record {
  m_idx_range = range hs;
  m_thread_space = worker hs ts;
  idx_mapper = l;
  c_select = iota (length hs);
}

abbrev pub AreShares : ℕ → List Share → Type 0
AreShares w [] = Unit {0}
AreShares w (h ∷ hs) = IsShare w h × AreShares w hs

unfoldable pub tiles : Layout → List Share → Vec → List Dim
unfolding tile
tiles l (h ∷ hs) (t ∷ ts) = tile l h t ∷ tiles l hs ts
tiles l _ _ = []

map-map_dim : (f : ℕ → Dim) (g : ℕ → ℕ) (ks : List ℕ) → map f (map g ks) ≡ map (λ k. f (g k)) ks
map-map_dim f g [] = refl
map-map_dim f g (k ∷ ks) = ap (◌∷◌ (f (g k))) (map-map_dim f g ks)

dims_of-cons :
    (w n b f e s : ℕ) (bs fs es ss : Vec)
    → dims_of w (iota (suc n)) (b ∷ bs) (f ∷ fs) (e ∷ es) (s ∷ ss)
      ≡ record { first = add_w w f b; stride = s; extent = add_w w e b }
        ∷ dims_of w (iota n) bs fs es ss
dims_of-cons w n b f e s bs fs es ss =
    ap (map whole) (iota-suc n) ∙ ap (◌∷◌ (whole 0)) (map-map_dim whole suc (iota n))
  where
    whole : ℕ → Dim
    whole = dim_of w (b ∷ bs) (f ∷ fs) (e ∷ es) (s ∷ ss)

pub strided_dims :
    (w : ℕ) (hs : List Share) (ts : Vec)
    → AreShares w hs
    → InBounds (group hs) ts
    → dims_of w
        (iota (length hs))
        (range hs).m_begin
        (vec_mul w ts (range hs).m_stride)
        (distance w (range hs))
        (vec_mul w (group hs) (range hs).m_stride)
      ≡ tiles Layout.strided hs ts
unfolding tiles vec_mul distance vec_sub zip_with
strided_dims w [] [] i b = unfold iota iota_from in refl
strided_dims w [] (t ∷ ts) i b = absurd b
strided_dims w (h ∷ hs) [] i b = absurd b
strided_dims w (h ∷ hs) (t ∷ ts) i b =
    dims_of-cons w (length hs) h.begin (mul_w w t h.stride) (sub_w w h.end h.begin)
      (mul_w w h.threads h.stride) _ _ _ _
    ∙ ap₂ ◌∷◌ (strided_exact w h t i.0 b.0) (strided_dims w hs ts i.1 b.1)

pub contiguous_dims :
    (w : ℕ) (hs : List Share) (ts : Vec)
    → AreShares w hs
    → InBounds (group hs) ts
    → dims_of w
        (iota (length hs))
        (range hs).m_begin
        (slot_offset w (range hs) (group hs) ts)
        (slot_end w (range hs) (worker hs ts))
        (range hs).m_stride
      ≡ tiles Layout.contiguous hs ts
unfolding tiles slot_offset slot_end logical_extent div_ceil vec_add vec_mul vec_div vec_mod vec_min
    distance vec_sub zip_with fill slot_begin
contiguous_dims w [] [] i b = unfold iota iota_from in refl
contiguous_dims w [] (t ∷ ts) i b = absurd b
contiguous_dims w (h ∷ hs) [] i b = absurd b
contiguous_dims w (h ∷ hs) (t ∷ ts) i b =
    dims_of-cons w (length hs) h.begin _ _ h.stride _ _ _ _
    ∙ ap₂ ◌∷◌ (contiguous_exact w h t i.0 b.0) (contiguous_dims w hs ts i.1 b.1)

tile-IsDim : (w : ℕ) (l : Layout) (h : Share) (t : ℕ) → IsShare w h → IsDim w (tile l h t)
unfolding tile
tile-IsDim w Layout.strided h t i = (stride_pos w h i, omega (arith, i.fits))
tile-IsDim w Layout.contiguous h t i =
    (i.moving, omega (arith, i.fits, i.ordered, stride_bound w h i))

pub tiles-IsBox :
    (w : ℕ) (l : Layout) (hs : List Share) (ts : Vec) → AreShares w hs → IsBox w (tiles l hs ts)
unfolding tiles
tiles-IsBox w l [] ts i = tt
tiles-IsBox w l (h ∷ hs) [] i = tt
tiles-IsBox w l (h ∷ hs) (t ∷ ts) i = (tile-IsDim w l h t i.0, tiles-IsBox w l hs ts i.1)
