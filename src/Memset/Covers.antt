-- ===== src/Memset/Covers.antt =====
-- Queue.hpp, Memset: the rows hold every byte of every element.
use native.Mathlib.Nat.{mul_comm, mul_assoc, mul-le-mul_left, zero-add}
use mathlib.Core.Option
use alpaka.Base.{
  ℕ, suc, ◌+◌, ◌-◌, ◌*◌, ◌^◌, ◌<◌, ◌≤◌, ◌≡◌, refl, sym, ap, ap₂, ◌∙◌, arith, true, false, List,
  length, [], ◌∷◌, ◌++◌, map, some, ◌==◌, wrap, add_w, mul_w, wrap_small, wrap-wrap,
}
use alpaka.Vec.{Vec, product, sum, sum_loop, vec_mul, zip_with, back, erase_back}
use alpaka.Vec.Linear.{InBounds, volume, volume_pos, row_major, row_major-lt, product-wrap}
use alpaka.Vec.RoundTrip.{unrank, unrank-row_major}
use alpaka.ThreadSpace.{iota, iota_from}
use alpaka.Flat.Select.{Fits}
use alpaka.NdLoop.{nd_loop_inc_idx}
use alpaka.NdLoop.Order.{nd_loop_inc_idx-row_major, iota_from-append}
use alpaka.Memory.{calculate_pitches, aligned_pitches, ptr_offset, offset_loop}
use alpaka.Memory.Address.{InBounds-erase_back, offset_loop-wrap, offset_loop-lt, back-lt}
use alpaka.Memory.Decode.{IsLayout, row as row_pitch, row-fits, ptr_offset_exact, place_fits}
use alpaka.Memset.{memset_row, memset_rows}

-- Some row holds the byte.
abbrev pub Covered : List (ℕ × ℕ) → ℕ → Type 0
Covered rows byte =
    (before : List (ℕ × ℕ)) × (offset : ℕ) × (bytes : ℕ) × (after : List (ℕ × ℕ)) × (rows
      ≡ before ++ ((offset, bytes) ∷ after))
    × (offset ≤ byte)
    × (byte < offset + bytes)

offset_loop-sum_loop :
    (w r : ℕ) (ps is : Vec) → offset_loop w r ps is ≡ sum_loop w r (zip_with (mul_w w) is ps)
unfolding offset_loop sum_loop zip_with
offset_loop-sum_loop w r [] [] = refl
offset_loop-sum_loop w r [] (i ∷ is) = refl
offset_loop-sum_loop w r (p ∷ ps) [] = refl
offset_loop-sum_loop w r (p ∷ ps) (i ∷ is) =
    offset_loop-sum_loop w (add_w w r (mul_w w p i)) ps is
    ∙ ap (λ t. sum_loop w (add_w w r (wrap w t)) (zip_with (mul_w w) is ps)) (mul_comm p i)

sum-sum_loop :
    (w : ℕ) (is ps : Vec)
    → sum w (zip_with (mul_w w) is ps) ≡ sum_loop w 0 (zip_with (mul_w w) is ps)
unfolding sum sum_loop zip_with
sum-sum_loop w [] ps = refl
sum-sum_loop w (i ∷ is) [] = refl
sum-sum_loop w (i ∷ is) (p ∷ ps) =
    ap (λ t. sum_loop w t (zip_with (mul_w w) is ps))
      (sym (ap (wrap w) (zero-add (wrap w (i * p))) ∙ wrap-wrap w (i * p)))

-- The loop stops before the last component.
offset_loop-erase_back :
    (w r : ℕ) (ps is : Vec)
    → length ps ≡ length is
    → offset_loop w r (erase_back ps) (erase_back is) ≡ offset_loop w r (erase_back ps) is
unfolding offset_loop erase_back
offset_loop-erase_back w r [] [] h = refl
offset_loop-erase_back w r [] (i ∷ is) h = absurd (omega arith)
offset_loop-erase_back w r (p ∷ ps) [] h = absurd (omega arith)
offset_loop-erase_back w r (p ∷ []) (i ∷ is) h = refl
offset_loop-erase_back w r (p ∷ q ∷ ps) (i ∷ []) h = absurd (omega arith)
offset_loop-erase_back w r (p ∷ q ∷ ps) (i ∷ j ∷ is) h =
    offset_loop-erase_back w (add_w w r (mul_w w p i)) (q ∷ ps) (j ∷ is) (omega arith)

length-pitches :
    (w size row e : ℕ) (es : Vec) → length (calculate_pitches w size (e ∷ es) row) ≡ suc (length es)
unfolding calculate_pitches
length-pitches w size row e [] = refl
length-pitches w size row e (f ∷ []) = refl
length-pitches w size row e (f ∷ g ∷ es) = ap suc (length-pitches w size row f (g ∷ es))

InBounds-length : (es is : Vec) → InBounds es is → length es ≡ length is
InBounds-length [] [] h = refl
InBounds-length [] (i ∷ is) h = absurd h
InBounds-length (e ∷ es) [] h = absurd h
InBounds-length (e ∷ es) (i ∷ is) h = ap suc (InBounds-length es is h.1)

volume-erase_back :
    (e : ℕ) (es : Vec) → volume (e ∷ es) ≡ volume (erase_back (e ∷ es)) * back (e ∷ es)
unfolding volume erase_back back
volume-erase_back e [] = omega arith
volume-erase_back e (f ∷ es) =
    ap (◌*◌ e) (volume-erase_back f es)
    ∙ sym (mul_assoc e (volume (erase_back (f ∷ es))) (back (f ∷ es)))

Fits-erase_back : (w : ℕ) (es : Vec) → Fits w es → Fits w (erase_back es)
unfolding erase_back
Fits-erase_back w [] h = tt
Fits-erase_back w (e ∷ []) h = tt
Fits-erase_back w (e ∷ f ∷ es) h = (h.0, Fits-erase_back w (f ∷ es) h.1)

-- The list of a function's values at the numbers below n, split at one of them.
map-iota_split :
    (f : ℕ → ℕ × ℕ) (n k : ℕ)
    → k < n
    → (before : List (ℕ × ℕ)) × (after : List (ℕ × ℕ)) × (map f (iota n) ≡ before ++ (f k ∷ after))
unfolding iota iota_from
map-iota_split f n k h = (
  map f (iota_from 0 k),
  map f (iota_from (k + 1) (n - k - 1)),
  ap (λ m. map f (iota_from 0 m)) {x = n} {y = k + suc (n - k - 1)} (omega arith)
      ∙ ap (map f) (iota_from-append 0 k (suc (n - k - 1)))
      ∙ split (iota_from 0 k)
      ∙ ap (λ j. map f (iota_from 0 k) ++ (f j ∷ map f (iota_from (j + 1) (n - k - 1))))
          (zero-add k),
)
  where
    split :
        (xs : List ℕ)
        → map f (xs ++ iota_from (0 + k) (suc (n - k - 1)))
          ≡ map f xs ++ (f (0 + k) ∷ map f (iota_from (0 + k + 1) (n - k - 1)))
    split [] = refl
    split (x ∷ xs) = ap (◌∷◌ (f x)) (split xs)

map-map_rows :
    (f : Vec → ℕ × ℕ) (g : ℕ → Vec) (ks : List ℕ) → map f (map g ks) ≡ map (λ k. f (g k)) ks
map-map_rows f g [] = refl
map-map_rows f g (k ∷ ks) = ap (◌∷◌ (f (g k))) (map-map_rows f g ks)

fits_whole :
    (v b size height : ℕ) → 0 < size → b * size ≤ height → v * height < 2 ^ 64 → v * b < 2 ^ 64
fits_whole v b size height p h k = omega (
  arith,
  mul-le-mul_left {m = b} {n = b * size} v (grind (arith, p)),
  mul-le-mul_left {m = b * size} {n = height} v h,
)

module _ (size alignment e f : ℕ) (es : Vec) (lay : IsLayout 64 size alignment e f es)
    (fits : Fits 64 (e ∷ f ∷ es)) where
  open lay use {has_size, aligned, row_fits, memory_fits}

  abbrev whole : Vec
  whole = e ∷ f ∷ es

  abbrev pitches : Vec
  pitches = aligned_pitches 64 size alignment whole

  abbrev height : ℕ
  height = row_pitch 64 size alignment e f es

  -- The offset of the row of an index.
  row_offset_exact :
      (idx : Vec)
      → InBounds whole idx
      → sum 64 (vec_mul 64 (erase_back idx) (erase_back pitches))
        ≡ row_major (erase_back whole) (erase_back idx) * height
  unfolding vec_mul aligned_pitches
  row_offset_exact idx h =
      sum-sum_loop 64 (erase_back idx) (erase_back pitches)
      ∙ sym (offset_loop-sum_loop 64 0 (erase_back pitches) (erase_back idx))
      ∙ offset_loop-erase_back 64 0 pitches idx
          (length-pitches 64 size height e (f ∷ es) ∙ InBounds-length whole idx h)
      ∙ sym (wrap_small 64 (offset_loop-lt 64 0 (erase_back pitches) idx (omega arith)))
      ∙ offset_loop-wrap 64 size height e f 0 es idx h
      ∙ ap (wrap 64) (zero-add (row_major (erase_back whole) (erase_back idx) * height))
      ∙ wrap_small 64 (omega (arith, place_fits 64 size alignment e f es lay idx h, memory_fits))

  row_wide : back whole * size ≤ height
  row_wide = row-fits 64 size alignment whole aligned row_fits

  product_exact : (idx : Vec) → InBounds whole idx → (product 64 whole == 0) ≡ false
  product_exact idx h = ground (
    arith,
    volume_pos whole idx h,
    product-wrap 64 e (f ∷ es) fits.0
        ∙ wrap_small 64 (
            omega (
              arith,
              volume-erase_back e (f ∷ es),
              fits_whole (volume (erase_back whole)) (back whole) size height has_size row_wide
                  memory_fits,
            )),
  )

  -- For extents of two dimensions or more that fit 64 bits, an aligned layout whose rows and whose memory
  -- fit 64 bits, an index in bounds and a number k below the element's size: the memset writes rows, and
  -- one of them holds byte k of the element at the index.
  pub memset_rows-covers :
      (idx : Vec) (k : ℕ)
      → InBounds (e ∷ f ∷ es) idx
      → k < size
      → (rows : List (ℕ × ℕ)) × (memset_rows size
            (aligned_pitches 64 size alignment (e ∷ f ∷ es))
            (e ∷ f ∷ es)
          ≡ some rows)
        × Covered rows (ptr_offset 64 size (aligned_pitches 64 size alignment (e ∷ f ∷ es)) idx + k)
  unfolding memset_rows memset_row
  memset_rows-covers idx k h small =
      let (before, after, place) =
        map-iota_split (λ i. row_of (unrank (erase_back whole) i)) (volume (erase_back whole))
          number
          (row_major-lt (erase_back whole) (erase_back idx) (InBounds-erase_back whole idx h)) in
      (
        map row_of (map (unrank (erase_back whole)) (iota (volume (erase_back whole)))),
        ap
              (λ c. elim c [
                | true ↦ some []
                | false ↦ Option.map (map row_of) (nd_loop_inc_idx 64 (erase_back whole))
              ])
              (product_exact idx h)
            ∙ ap (Option.map (map row_of))
                (nd_loop_inc_idx-row_major 64 (erase_back whole) (Fits-erase_back 64 whole fits)),
        (
          before,
          number * height,
          back whole * size,
          after,
          map-map_rows row_of (unrank (erase_back whole)) (iota (volume (erase_back whole)))
              ∙ place
              ∙ ap (λ r. before ++ (r ∷ after)) exact,
          omega (arith, ptr_offset_exact 64 size alignment e f es lay idx h),
          inside,
        ),
      )
    where
      row_of : Vec → ℕ × ℕ
      row_of = memset_row size pitches whole

      number : ℕ
      number = row_major (erase_back whole) (erase_back idx)

      exact : row_of (unrank (erase_back whole) number) ≡ (number * height, back whole * size)
      exact =
          ap row_of
            (unrank-row_major (erase_back whole) (erase_back idx) (InBounds-erase_back whole idx h))
          ∙ ap₂ (λ o b. (o, b)) (row_offset_exact idx h)
              (wrap_small 64 {n = back whole * size} (omega (arith, row_fits, aligned)))

      inside : ptr_offset 64 size pitches idx + k < number * height + back whole * size
      inside = grind (
        arith,
        ptr_offset_exact 64 size alignment e f es lay idx h,
        back-lt e (f ∷ es) idx h,
        small,
      )
