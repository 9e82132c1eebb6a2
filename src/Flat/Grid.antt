-- ===== src/Flat/Grid.antt =====
-- FlatIdxContainer.hpp with all dimensions selected: the points that a worker visits.
use alpaka.Base.{
  ℕ, suc, ◌^◌, ◌<◌, ◌≡◌, refl, sym, subst, ap, ap₂, ◌∙◌, [], ◌∷◌, arith, length, mul_w, sub_w,
  add_w, ◌/◌, length-replicate,
}
use alpaka.Vec.{
  Vec, zip_with, vec_add, vec_sub, vec_mul, vec_div, div_ceil, fill, map_to_nd, select,
}
use alpaka.Vec.Linear.{InBounds, volume}
use alpaka.Vec.RoundTrip.{map_to_nd-unrank, unrank, unrank-InBounds}
use alpaka.IdxRange.{IdxRange, distance}
use alpaka.ThreadSpace.{ThreadSpace, iota, map_to}
use alpaka.Flat.{
  Layout, strided, contiguous, make, begin, begin_strided, begin_contiguous, extent_of,
  group_offset, deref, ref_sub, ref_add,
}
use alpaka.Flat.Select.{select-iota, ref_add-iota, ref_sub-iota, map_to-iota, Fits, vec_add-zeros}
use alpaka.Flat.Loop.{position}
use alpaka.Flat.Position.{IsRange, OnGrid, point-OnGrid}

IsRange-Fits : (w : ℕ) (bs es ss : Vec) → IsRange w bs es ss → Fits w bs
IsRange-Fits w [] [] [] r = tt
IsRange-Fits w (b ∷ bs) (e ∷ es) (s ∷ ss) r =
    (omega (arith, r.0, r.1, r.2), IsRange-Fits w bs es ss r.3)
IsRange-Fits w [] [] (s ∷ ss) r = absurd r
IsRange-Fits w [] (e ∷ es) ss r = absurd r
IsRange-Fits w (b ∷ bs) [] ss r = absurd r
IsRange-Fits w (b ∷ bs) (e ∷ es) [] r = absurd r

IsRange-length :
    (w : ℕ) (bs es ss : Vec)
    → IsRange w bs es ss
    → (length bs ≡ length es) × (length ss ≡ length es)
IsRange-length w [] [] [] r = (refl, refl)
IsRange-length w (b ∷ bs) (e ∷ es) (s ∷ ss) r =
    let rest = IsRange-length w bs es ss r.3 in (ap suc rest.0, ap suc rest.1)
IsRange-length w [] [] (s ∷ ss) r = absurd r
IsRange-length w [] (e ∷ es) ss r = absurd r
IsRange-length w (b ∷ bs) [] ss r = absurd r
IsRange-length w (b ∷ bs) (e ∷ es) [] r = absurd r

length-zip_with :
    (op : ℕ → ℕ → ℕ) (xs ys : Vec) → length xs ≡ length ys → length (zip_with op xs ys) ≡ length xs
unfolding zip_with
length-zip_with op [] [] h = refl
length-zip_with op [] (y ∷ ys) h = refl
length-zip_with op (x ∷ xs) [] h = absurd (omega arith)
length-zip_with op (x ∷ xs) (y ∷ ys) h = ap suc (length-zip_with op xs ys (omega arith))

InBounds-length : (es is : Vec) → InBounds es is → length is ≡ length es
InBounds-length [] [] h = refl
InBounds-length [] (i ∷ is) h = absurd h
InBounds-length (e ∷ es) [] h = absurd h
InBounds-length (e ∷ es) (i ∷ is) h = ap suc (InBounds-length es is h.1)

select-whole : (v : Vec) (n : ℕ) → length v ≡ n → select v (iota n) ≡ v
select-whole v n h = ap (λ k. select v (iota k)) (sym h) ∙ select-iota v

length-replicate_one : (n : ℕ) → length (fill n 1) ≡ n
unfolding fill
length-replicate_one n = length-replicate n 1

length-div_ceil : (w : ℕ) (a b : Vec) → length a ≡ length b → length (div_ceil w a b) ≡ length a
unfolding div_ceil vec_div vec_sub vec_add
length-div_ceil w a b h = length-zip_with ◌/◌ _ b (rounded ∙ h) ∙ rounded
  where
    added : length (zip_with (add_w w) a b) ≡ length a
    added = length-zip_with (add_w w) a b h

    rounded : length (zip_with (sub_w w) (zip_with (add_w w) a b) (fill (length a) 1)) ≡ length a
    rounded =
        length-zip_with (sub_w w) _ (fill (length a) 1)
          (added ∙ sym (length-replicate_one (length a)))
        ∙ added

module _ (w : ℕ) (r : IdxRange) (ts : ThreadSpace) (range : IsRange w r.m_begin r.m_end r.m_stride)
    (same_dim : length r.m_end ≡ length ts.m_thread_idx) where
  dims : (length r.m_begin ≡ length r.m_end) × (length r.m_stride ≡ length r.m_end)
  dims = IsRange-length w r.m_begin r.m_end r.m_stride range

  -- The group's offset has no components left.
  group_offset-zeros :
      (l : Layout)
      → group_offset w (make r ts l) (map_to w (iota (length r.m_end)) ts).m_thread_idx
        ≡ fill (length r.m_end) 0
  unfolding group_offset make vec_mul
  group_offset-zeros l =
      ap (λ t. cleared (vec_mul w t.m_thread_idx r.m_stride)) mapped
      ∙ ap (ref_sub w whole (iota (length r.m_end))) (select-whole whole (length r.m_end) size)
      ∙ ap (λ k. ref_sub w whole (iota k) whole) (sym size)
      ∙ ref_sub-iota w whole
      ∙ ap (λ k. fill k 0) size
    where
      cleared : Vec → Vec
      cleared v = ref_sub w v (iota (length r.m_end)) (select v (iota (length r.m_end)))

      whole : Vec
      whole = vec_mul w ts.m_thread_idx r.m_stride

      size : length whole ≡ length r.m_end
      size =
          unfold vec_mul in
          length-zip_with (mul_w w) ts.m_thread_idx r.m_stride (omega (arith, dims.1, same_dim))
          ∙ sym same_dim

      mapped : map_to w (iota (length r.m_end)) ts ≡ ts
      mapped = ap (λ k. map_to w (iota k) ts) same_dim ∙ map_to-iota w ts

  offset_exact : (l : Layout) → (begin w (make r ts l)).m_offset_md ≡ r.m_begin
  unfolding begin begin_strided begin_contiguous make
  offset_exact strided =
      ap (vec_add w r.m_begin) (group_offset-zeros strided)
      ∙ vec_add-zeros w r.m_begin (length r.m_end) dims.0
          (IsRange-Fits w r.m_begin r.m_end r.m_stride range)
  offset_exact contiguous =
      ap (vec_add w r.m_begin) (group_offset-zeros contiguous)
      ∙ vec_add-zeros w r.m_begin (length r.m_end) dims.0
          (IsRange-Fits w r.m_begin r.m_end r.m_stride range)

  pub extent_exact :
      (l : Layout) → extent_of w (make r ts l) ≡ div_ceil w (vec_sub w r.m_end r.m_begin) r.m_stride
  unfolding extent_of make distance
  extent_exact l =
      ap₂ (div_ceil w)
        (select-whole (vec_sub w r.m_end r.m_begin) (length r.m_end)
          (unfold vec_sub in length-zip_with (sub_w w) r.m_end r.m_begin (sym dims.0)))
        (select-whole r.m_stride (length r.m_end) dims.1)

  length-extent : (l : Layout) → length (extent_of w (make r ts l)) ≡ length r.m_end
  length-extent l =
      ap length (extent_exact l)
      ∙ length-div_ceil w (vec_sub w r.m_end r.m_begin) r.m_stride (size ∙ sym dims.1)
      ∙ size
    where
      size : length (vec_sub w r.m_end r.m_begin) ≡ length r.m_end
      size = unfold vec_sub in length-zip_with (sub_w w) r.m_end r.m_begin (sym dims.0)

  extent_begin : (l : Layout) → (begin w (make r ts l)).m_extent_md ≡ extent_of w (make r ts l)
  unfolding begin begin_strided begin_contiguous make
  extent_begin strided = refl
  extent_begin contiguous = refl

  stride_begin : (l : Layout) → (begin w (make r ts l)).m_stride_md ≡ r.m_stride
  unfolding begin begin_strided begin_contiguous make
  stride_begin strided = select-whole r.m_stride (length r.m_end) dims.1
  stride_begin contiguous = select-whole r.m_stride (length r.m_end) dims.1

  -- With all dimensions selected, the position of a linear index k below the number of indices, which
  -- is below 2 ^ w, is `begin + index * stride` for the k-th index in row-major order, and this is a
  -- point of the range: not before the begin, before the end, and a multiple of the stride away from
  -- the begin. The range's ends and strides fit w bits, and the strides are positive.
  pub position-OnGrid :
      (l : Layout) (k : ℕ)
      → k < volume (extent_of w (make r ts l))
      → volume (extent_of w (make r ts l)) < 2 ^ w
      → (position w (make r ts l).c_select (begin w (make r ts l)) k
          ≡ vec_add w r.m_begin (vec_mul w (unrank (extent_of w (make r ts l)) k) r.m_stride))
        × OnGrid r.m_begin r.m_end r.m_stride
            (position w (make r ts l).c_select (begin w (make r ts l)) k)
  unfolding make deref
  position-OnGrid l k h few =
      (place, subst (OnGrid r.m_begin r.m_end r.m_stride) (sym place) on_grid)
    where
      index_bounds : InBounds (extent_of w (make r ts l)) (unrank (extent_of w (make r ts l)) k)
      index_bounds = unrank-InBounds (extent_of w (make r ts l)) k h

      on_grid :
          OnGrid r.m_begin r.m_end r.m_stride
            (vec_add w r.m_begin (vec_mul w (unrank (extent_of w (make r ts l)) k) r.m_stride))
      on_grid =
          point-OnGrid w r.m_begin r.m_end r.m_stride (unrank (extent_of w (make r ts l)) k) range (
            subst (λ e. InBounds e (unrank (extent_of w (make r ts l)) k)) (extent_exact l)
              index_bounds)

      step : Vec
      step = vec_mul w (unrank (extent_of w (make r ts l)) k) r.m_stride

      size : length r.m_begin ≡ length step
      size =
          let rank = InBounds-length (extent_of w (make r ts l)) _ index_bounds ∙ length-extent l in
          dims.0
          ∙ sym (
              unfold vec_mul in
              length-zip_with (mul_w w) (unrank (extent_of w (make r ts l)) k) r.m_stride
                (rank ∙ sym dims.1)
              ∙ rank)

      place :
          position w (make r ts l).c_select (begin w (make r ts l)) k
          ≡ vec_add w r.m_begin (vec_mul w (unrank (extent_of w (make r ts l)) k) r.m_stride)
      place =
          ap
            (λ o. ref_add w o (iota (length r.m_end)) (
              vec_mul w (map_to_nd w (begin w (make r ts l)).m_extent_md k)
                (begin w (make r ts l)).m_stride_md))
            (offset_exact l)
          ∙ ap₂ (λ e s. ref_add w r.m_begin (iota (length r.m_end)) (vec_mul w (map_to_nd w e k) s))
              (extent_begin l) (stride_begin l)
          ∙ ap (λ i. ref_add w r.m_begin (iota (length r.m_end)) (vec_mul w i r.m_stride))
              (map_to_nd-unrank w (extent_of w (make r ts l)) k h few)
          ∙ ap (λ n. ref_add w r.m_begin (iota n) step) (sym dims.0)
          ∙ ref_add-iota w r.m_begin step size
