-- ===== src/Tiled/Whole.antt =====
-- TiledIdxContainer.hpp: the loop over the container of a worker, with all dimensions selected.
use mathlib.Core.Option
use alpaka.Base.{ℕ, suc, ◌≡◌, sym, ap, ◌∙◌, List, ◌∷◌, map, some, arith, length, length-map, subst}
use alpaka.Vec.{Vec, vec_add, vec_mul}
use alpaka.Vec.Linear.{InBounds, volume}
use alpaka.Vec.RoundTrip.{unrank}
use alpaka.IdxRange.{distance}
use alpaka.ThreadSpace.{ThreadSpace, iota, iota_from, map_to}
use alpaka.Flat.{Layout}
use alpaka.Flat.Select.{length-iota, map_to-iota}
use alpaka.Flat.Group.{InBounds-length}
use alpaka.Tiled.{
  make_iterator, make_iterator_end, slot_offset, slot_end, begin, end_of, visit, visited,
}
use alpaka.Tiled.Store.{IsSelection, write}
use alpaka.Tiled.Dims.{IsBox, counts, place}
use alpaka.Tiled.Box.{dim_of, dims_of, visit-box, length-vec_add}
use alpaka.Tiled.Tile.{Share}
use alpaka.Tiled.Group.{
  range, group, worker, container, AreShares, tiles, strided_dims, contiguous_dims, tiles-IsBox,
}
use alpaka.Tiled.All.{
  iota_from-IsSelection, write-iota, length-place, vec_add_comm, map-ext, long_distance, long_first,
  long_offset, long_slot_end, long_group,
}

-- The indices of a worker, in the order of the visits.
abbrev pub nth : Layout → List Share → Vec → ℕ → Vec
nth l hs ts i = place (tiles l hs ts) (unrank (counts (tiles l hs ts)) i)

abbrev pub how_many : Layout → List Share → Vec → ℕ
how_many l hs ts = volume (counts (tiles l hs ts))

same_worker :
    (w : ℕ) (hs : List Share) (ts : Vec)
    → InBounds (group hs) ts
    → map_to w (iota (length hs)) (worker hs ts) ≡ worker hs ts
same_worker w hs ts b =
    ap (λ n. map_to w (iota n) (worker hs ts))
      (sym (length-map hs (λ h. h.threads)) ∙ InBounds-length (group hs) ts b)
    ∙ map_to-iota w (worker hs ts)

-- The loop of an iterator whose dimensions are the tiles.
visit-tiles :
    (w : ℕ) (l : Layout) (h : Share) (hs : List Share) (ts first extent stride : Vec)
    → AreShares w (h ∷ hs)
    → length first ≡ suc (length hs)
    → length extent ≡ suc (length hs)
    → dims_of w (iota (suc (length hs))) (range (h ∷ hs)).m_begin first extent stride
      ≡ tiles l (h ∷ hs) ts
    → visit w
        (iota (suc (length hs)))
        (suc (how_many l (h ∷ hs) ts))
        (make_iterator w (iota (suc (length hs))) (range (h ∷ hs)).m_begin first extent stride)
        (make_iterator_end (iota (suc (length hs))) (vec_add w (range (h ∷ hs)).m_begin extent))
      ≡ some (map (nth l (h ∷ hs) ts) (iota (how_many l (h ∷ hs) ts)))
unfolding iota iota_from
visit-tiles w l h hs ts first extent stride i p q e =
    ap
      (λ v.
        visit w sel (suc (how_many l (h ∷ hs) ts)) (make_iterator w sel offset first extent stride)
          (make_iterator_end sel v))
      (vec_add_comm w offset extent)
    ∙ subst
        (λ ds.
          visit w sel (suc (volume (counts ds))) (make_iterator w sel offset first extent stride)
            (make_iterator_end sel (vec_add w extent offset))
          ≡ some (
              map (λ j. write base sel (place ds (unrank (counts ds) j)))
                (iota (volume (counts ds)))))
        e
        (visit-box w offset first extent stride (p ∙ sym wide) (q ∙ sym wide) 0
          (iota_from 1 (length hs)) (selection (length offset) wide)
          (subst (IsBox w) (sym e) (tiles-IsBox w l (h ∷ hs) ts i)))
    ∙ ap some (
        map-ext _ (nth l (h ∷ hs) ts)
          (λ j.
            subst (λ n. write base (iota n) (nth l (h ∷ hs) ts j) ≡ nth l (h ∷ hs) ts j) long
              (write-iota base (nth l (h ∷ hs) ts j)
                (long ∙ sym (length-place (tiles l (h ∷ hs) ts) j ∙ tall))))
          (iota (how_many l (h ∷ hs) ts)))
  where
    offset : Vec
    offset = (range (h ∷ hs)).m_begin

    sel : List ℕ
    sel = 0 ∷ iota_from 1 (length hs)

    base : Vec
    base = vec_add w first offset

    wide : length offset ≡ suc (length hs)
    wide = length-map (h ∷ hs) (λ k. k.begin)

    long : length base ≡ suc (length hs)
    long = length-vec_add w first offset (p ∙ sym wide) ∙ wide

    tall : length (tiles l (h ∷ hs) ts) ≡ suc (length hs)
    tall =
        ap length (sym e)
        ∙ length-map (iota (suc (length hs))) (dim_of w offset first extent stride)
        ∙ length-iota (suc (length hs))

    selection : (n : ℕ) → n ≡ suc (length hs) → IsSelection n sel
    selection n eq = iota_from-IsSelection n 0 (suc (length hs)) (omega arith)

-- For a range and a group of the same positive dimension, with positive strides, ends not before the
-- begins, workers in each dimension, and ends that with one step of all workers fit w bits: the loop of
-- a worker, with fuel for each of its indices and one round more, ends, and visits the indices of
-- its tiles in row-major order.
pub visited-tiles :
    (w : ℕ) (l : Layout) (h : Share) (hs : List Share) (ts : Vec)
    → AreShares w (h ∷ hs)
    → InBounds (group (h ∷ hs)) ts
    → visited w (suc (how_many l (h ∷ hs) ts)) (container l (h ∷ hs) ts)
      ≡ some (map (nth l (h ∷ hs) ts) (iota (how_many l (h ∷ hs) ts)))
unfolding visited begin end_of
visited-tiles w Layout.strided h hs ts i b =
    ap strided_visit (same_worker w (h ∷ hs) ts b)
    ∙ visit-tiles w Layout.strided h hs ts (vec_mul w ts (range (h ∷ hs)).m_stride)
        (distance w (range (h ∷ hs))) (vec_mul w (group (h ∷ hs)) (range (h ∷ hs)).m_stride) i
        (long_first w (h ∷ hs) ts long) (long_distance w (h ∷ hs)) (strided_dims w (h ∷ hs) ts i b)
  where
    long : length ts ≡ suc (length hs)
    long = sym (InBounds-length (group (h ∷ hs)) ts b) ∙ long_group w (h ∷ hs)

    strided_visit : ThreadSpace → Option.Option (List Vec)
    strided_visit m =
        visit w (iota (suc (length hs))) (suc (how_many Layout.strided (h ∷ hs) ts))
          (make_iterator w (iota (suc (length hs))) (range (h ∷ hs)).m_begin
            (vec_mul w m.m_thread_idx (range (h ∷ hs)).m_stride) (distance w (range (h ∷ hs)))
            (vec_mul w m.m_thread_count (range (h ∷ hs)).m_stride))
          (make_iterator_end (iota (suc (length hs)))
            (vec_add w (range (h ∷ hs)).m_begin (distance w (range (h ∷ hs)))))
visited-tiles w Layout.contiguous h hs ts i b =
    ap contiguous_visit (same_worker w (h ∷ hs) ts b)
    ∙ visit-tiles w Layout.contiguous h hs ts (slot_offset w (range (h ∷ hs)) (group (h ∷ hs)) ts)
        (slot_end w (range (h ∷ hs)) (worker (h ∷ hs) ts)) (range (h ∷ hs)).m_stride i
        (long_offset w (h ∷ hs) ts long) (long_slot_end w (h ∷ hs) ts long)
        (contiguous_dims w (h ∷ hs) ts i b)
  where
    long : length ts ≡ suc (length hs)
    long = sym (InBounds-length (group (h ∷ hs)) ts b) ∙ long_group w (h ∷ hs)

    contiguous_visit : ThreadSpace → Option.Option (List Vec)
    contiguous_visit m =
        visit w (iota (suc (length hs))) (suc (how_many Layout.contiguous (h ∷ hs) ts))
          (make_iterator w (iota (suc (length hs))) (range (h ∷ hs)).m_begin
            (slot_offset w (range (h ∷ hs)) m.m_thread_count m.m_thread_idx)
            (slot_end w (range (h ∷ hs)) m) (range (h ∷ hs)).m_stride)
          (make_iterator_end (iota (suc (length hs)))
            (vec_add w (range (h ∷ hs)).m_begin (slot_end w (range (h ∷ hs)) m)))
