-- ===== src/Tiled/Box.antt =====
-- TiledIdxContainer.hpp, the constructors of const_iterator and const_iterator_end, with the loop from
-- one to the other.
use native.Mathlib.Nat.{mul-zero}
use mathlib.Core.Option
use alpaka.Base.{
  ℕ, zero, suc, ◌-◌, ◌*◌, ◌<◌, ◌≡◌, refl, sym, ap, ap₂, ◌∙◌, Bool, true, false, List, [], ◌∷◌, map,
  some, arith, length, get_or, set, drop, leb, le→leb, add_w, length-map, if◌then◌else◌, subst,
}
use alpaka.Vec.{Vec, select, vec_add, zip_with, rshrink}
use alpaka.Vec.Linear.{InBounds, volume, rshrink-tail}
use alpaka.Vec.RoundTrip.{unrank}
use alpaka.ThreadSpace.{iota, iota_from}
use alpaka.MdForward.Order.{visit_from, row_major-zeros}
use alpaka.Tiled.{ConstIterator, all_below, make_iterator, make_iterator_end, at_end, visit}
use alpaka.Tiled.Store.{IsSelection, write, write-select, get_or-set_same}
use alpaka.Tiled.Advance.{firsts, strides, extents}
use alpaka.Tiled.Dims.{Dim, IsBox, num_steps, counts, place}
use alpaka.Tiled.Visit.{box-Fits, stands, tile_done, visit-MdForward}
use alpaka.Tiled.Empty.{zeros, place-zeros, zeros-InBounds, volume_empty}

get_or-vec_add :
    (w : ℕ) (a b : Vec) (k : ℕ)
    → k < length a
    → length a ≡ length b
    → get_or (vec_add w a b) k 0 ≡ add_w w (get_or a k 0) (get_or b k 0)
unfolding vec_add zip_with
get_or-vec_add w [] b k h e = absurd (omega arith)
get_or-vec_add w (x ∷ a) [] k h e = absurd (omega arith)
get_or-vec_add w (x ∷ a) (y ∷ b) zero h e = refl
get_or-vec_add w (x ∷ a) (y ∷ b) (suc k) h e = get_or-vec_add w a b k (omega arith) (omega arith)

pub length-vec_add : (w : ℕ) (a b : Vec) → length a ≡ length b → length (vec_add w a b) ≡ length b
unfolding vec_add zip_with
length-vec_add w [] b e = e
length-vec_add w (x ∷ a) [] e = absurd (omega arith)
length-vec_add w (x ∷ a) (y ∷ b) e = ap suc (length-vec_add w a b (omega arith))

length-select : (v : Vec) (ks : List ℕ) → length (select v ks) ≡ length ks
unfolding select
length-select v [] = refl
length-select v (k ∷ ks) = ap suc (length-select v ks)

rshrink_faster :
    (v : Vec) (k : ℕ) (ks : List ℕ)
    → rshrink (length (k ∷ ks) - 1) (select v (k ∷ ks)) ≡ select v ks
unfolding select
rshrink_faster v k ks =
    ap (λ n. rshrink (suc n - 1) (select v (k ∷ ks))) (sym (length-select v ks))
    ∙ rshrink-tail (get_or v k 0) (select v ks)

map-map : (f : Vec → Vec) (g : ℕ → Vec) (is : List ℕ) → map f (map g is) ≡ map (λ i. f (g i)) is
map-map f g [] = refl
map-map f g (i ∷ is) = ap (◌∷◌ (f (g i))) (map-map f g is)

-- The dimension k of an iterator.
abbrev pub dim_of : ℕ → Vec → Vec → Vec → Vec → ℕ → Dim
dim_of w offset first extent stride k = record {
  first = add_w w (get_or first k 0) (get_or offset k 0);
  stride = get_or stride k 0;
  extent = add_w w (get_or extent k 0) (get_or offset k 0);
}

-- The selected dimensions of an iterator.
abbrev pub dims_of : ℕ → List ℕ → Vec → Vec → Vec → Vec → List Dim
dims_of w sel offset first extent stride = map (dim_of w offset first extent stride) sel

module _ (w : ℕ) (offset first extent stride : Vec) (same : length first ≡ length offset)
    (same_extent : length extent ≡ length offset) where
  select-firsts :
      (sel : List ℕ)
      → IsSelection (length offset) sel
      → select (vec_add w first offset) sel ≡ firsts (dims_of w sel offset first extent stride)
  unfolding select
  select-firsts [] s = refl
  select-firsts (k ∷ ks) s =
      ap₂ ◌∷◌ (get_or-vec_add w first offset k (omega (arith, s.0)) same) (select-firsts ks s.2)

  select-extents :
      (sel : List ℕ)
      → IsSelection (length offset) sel
      → select (vec_add w extent offset) sel ≡ extents (dims_of w sel offset first extent stride)
  unfolding select
  select-extents [] s = refl
  select-extents (k ∷ ks) s =
      ap₂ ◌∷◌ (get_or-vec_add w extent offset k (omega (arith, s.0)) same_extent)
        (select-extents ks s.2)

  select-strides :
      (sel : List ℕ) → select stride sel ≡ strides (dims_of w sel offset first extent stride)
  unfolding select
  select-strides [] = refl
  select-strides (k ∷ ks) = ap (◌∷◌ (get_or stride k 0)) (select-strides ks)

  module _ (k : ℕ) (sel : List ℕ) (selection : IsSelection (length offset) (k ∷ sel))
      (box : IsBox w (dims_of w (k ∷ sel) offset first extent stride)) where
    abbrev dims : List Dim
    dims = dims_of w (k ∷ sel) offset first extent stride

    abbrev faster : List Dim
    faster = dims_of w sel offset first extent stride

    abbrev origin : Vec
    origin = vec_add w first offset

    abbrev build : Vec → Vec → Vec → ConstIterator
    build es ss fs = record {
      m_current = if all_below fs (drop 1 es) then origin else set origin k (get_or es 0 0);
      m_stride = ss;
      m_extent = es;
      m_first = fs;
    }

    make_iterator_exact : make_iterator w (k ∷ sel) offset first extent stride ≡ record {
      m_current =
          if all_below (firsts faster) (extents faster)
          then origin
          else set origin k (dim_of w offset first extent stride k).extent;
      m_stride = strides dims;
      m_extent = extents dims;
      m_first = firsts faster;
    }
    unfolding make_iterator
    make_iterator_exact =
        ap (build (select (vec_add w extent offset) (k ∷ sel)) (select stride (k ∷ sel)))
          (rshrink_faster origin k sel ∙ select-firsts sel selection.2)
        ∙ ap₂ (λ es ss. build es ss (firsts faster)) (select-extents (k ∷ sel) selection)
            (select-strides (k ∷ sel))

    origin-IsSelection : IsSelection (length origin) (k ∷ sel)
    origin-IsSelection =
        subst (λ n. IsSelection n (k ∷ sel)) (sym (length-vec_add w first offset same)) selection

    agree : length (k ∷ sel) ≡ suc (length faster)
    agree = ap suc (sym (length-map sel (dim_of w offset first extent stride)))

    abbrev slowest : Dim
    slowest = dim_of w offset first extent stride k

    abbrev at : Vec → ConstIterator
    at current = stands w slowest faster origin (k ∷ sel) box origin-IsSelection agree current

    abbrev nth : ℕ → Vec
    nth i = write origin (k ∷ sel) (place dims (unrank (counts dims) i))

    origin_exact : origin ≡ write origin (k ∷ sel) (place dims (0 ∷ zeros faster))
    origin_exact =
        sym (write-select origin (k ∷ sel))
        ∙ ap (write origin (k ∷ sel)) (select-firsts (k ∷ sel) selection ∙ sym (place-zeros dims))

    -- Where the first index is in the box.
    from_origin :
        all_below (firsts faster) (extents faster) ≡ true
        → visit w (k ∷ sel) (suc (volume (counts dims))) (at origin) slowest.extent
          ≡ some (map nth (iota (volume (counts dims))))
    unfolding iota volume
    from_origin inside =
        ap (λ c. visit w (k ∷ sel) (suc (volume (counts dims))) (at c) slowest.extent) origin_exact
        ∙ visit-MdForward w slowest faster origin (k ∷ sel) box origin-IsSelection agree
            (suc (volume (counts dims))) 0 (zeros faster) none_empty
        ∙ ap (Option.map (map (λ ks. write origin (k ∷ sel) (place dims ks)))) (
            visit_from w (num_steps slowest) (counts faster) (0 ∷ zeros faster) 0
              (volume (counts dims)) (box-Fits w dims box)
              (omega arith, none_empty, omega (arith, row_major-zeros (counts faster)))
              (omega arith))
        ∙ ap some (
            map-map (λ ks. write origin (k ∷ sel) (place dims ks)) (unrank (counts dims))
              (iota_from 0 (volume (counts dims))))
      where
        none_empty : InBounds (counts faster) (zeros faster)
        none_empty = zeros-InBounds w faster box.1 inside

    at_end_slowest : at_end (k ∷ sel) (at (set origin k slowest.extent)) slowest.extent ≡ true
    unfolding at_end
    at_end_slowest =
        ap (leb slowest.extent) (get_or-set_same origin k slowest.extent origin-IsSelection.0)
        ∙ le→leb slowest.extent slowest.extent (omega arith)

    -- Where it is not.
    from_end :
        all_below (firsts faster) (extents faster) ≡ false
        → visit w
            (k ∷ sel)
            (suc (volume (counts dims)))
            (at (set origin k slowest.extent))
            slowest.extent
          ≡ some (map nth (iota (volume (counts dims))))
    unfolding iota iota_from volume
    from_end outside =
        tile_done w slowest faster origin (k ∷ sel) box origin-IsSelection agree
          (volume (counts dims)) (set origin k slowest.extent) at_end_slowest
        ∙ ap (λ n. some (map nth (iota n))) {x = 0} {y = volume (counts dims)}
            (sym (
              ap (◌*◌ (num_steps slowest)) (volume_empty w faster box.1 outside)
              ∙ mul-zero (num_steps slowest)))

    end_exact : make_iterator_end (k ∷ sel) (vec_add w extent offset) ≡ slowest.extent
    unfolding make_iterator_end
    end_exact = get_or-vec_add w extent offset k (omega (arith, selection.0)) same_extent

    -- For an offset, a first index and an extent of the same dimension, selected dimensions that are
    -- valid and differ, a positive stride in each of them, and an extent that with the offset and one more
    -- stride does not wrap around: the loop from the iterator to the end, with fuel for each index
    -- and one round more, ends. It visits, in row-major order, all indices whose selected components are
    -- the first one plus a multiple of the stride below the extent; the other components stay as they
    -- begin. If a dimension has none, it visits none.
    pub visit-box :
        visit w
          (k ∷ sel)
          (suc (volume (counts (dims_of w (k ∷ sel) offset first extent stride))))
          (make_iterator w (k ∷ sel) offset first extent stride)
          (make_iterator_end (k ∷ sel) (vec_add w extent offset))
        ≡ some (
            map
              (λ i. write (vec_add w first offset) (k ∷ sel) (
                place
                  (dims_of w (k ∷ sel) offset first extent stride)
                  (unrank (counts (dims_of w (k ∷ sel) offset first extent stride)) i)))
              (iota (volume (counts (dims_of w (k ∷ sel) offset first extent stride)))))
    visit-box =
        ap₂ (visit w (k ∷ sel) (suc (volume (counts dims)))) make_iterator_exact end_exact
        ∙ both (all_below (firsts faster) (extents faster)) refl
      where
        both :
            (inside : Bool)
            → all_below (firsts faster) (extents faster) ≡ inside
            → visit w
                (k ∷ sel)
                (suc (volume (counts dims)))
                (at (if inside then origin else set origin k slowest.extent))
                slowest.extent
              ≡ some (map nth (iota (volume (counts dims))))
        both true h = from_origin h
        both false h = from_end h
