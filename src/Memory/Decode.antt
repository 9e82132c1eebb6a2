-- ===== src/Memory/Decode.antt =====
-- MdSpan.hpp over memory laid out by api/util.hpp: each element has bytes of its own in the memory.
use native.Mathlib.Nat.{
  div-add-mod, mod-lt, div-eq_of_lt-le, mul-add-mod_self_right, mod-eq_of_lt, pow-le-pow_right,
}
use alpaka.Base.{
  ℕ, ◌+◌, ◌-◌, ◌*◌, ◌/◌, ◌%◌, ◌^◌, ◌<◌, ◌≤◌, ◌≡◌, sym, ap, ◌∙◌, arith, [], ◌∷◌, get_or, mul_w,
  wrap-lt, wrap_small, wrap-add_left,
}
use alpaka.Util
use alpaka.Util.Ceil.{div_ceil_exact}
use alpaka.Vec.{Vec, back, erase_back}
use alpaka.Vec.Linear.{InBounds, volume, row_major, row_major-lt}
use alpaka.Vec.RoundTrip.{unrank, unrank-row_major}
use alpaka.Memory.{
  calculate_pitches, row_pitch_in_bytes, aligned_pitches, mem_size_in_byte, ptr_offset,
}
use alpaka.Memory.Address.{
  pitch-head, pitch-head_lt, offset_loop-wrap, offset_loop-lt, InBounds-erase_back, back-lt,
}

le-mul_pos : (x e : ℕ) → 0 < e → x ≤ x * e
le-mul_pos x e h = grind arith

-- A row holds its elements, with no wrap-around in its pitch.
pub row-fits :
    (w size alignment : ℕ) (extents : Vec)
    → 0 < alignment
    → back extents * size + alignment ≤ 2 ^ w
    → back extents * size ≤ row_pitch_in_bytes w size alignment extents
unfolding row_pitch_in_bytes
row-fits w size alignment extents p fits = omega (
  arith,
  exact,
  div-add-mod (back extents * size + alignment - 1) alignment,
  mod-lt (back extents * size + alignment - 1) p,
)
  where
    quotient : ℕ
    quotient = (back extents * size + alignment - 1) / alignment

    exact :
        mul_w w (Util.div_ceil w (mul_w w (back extents) size) alignment) alignment
        ≡ quotient * alignment
    exact =
        ap (λ t. mul_w w (Util.div_ceil w t alignment) alignment) (wrap_small w (omega arith))
        ∙ ap (λ t. mul_w w t alignment) (div_ceil_exact w (back extents * size) alignment p fits)
        ∙ wrap_small w (omega (arith, div-add-mod (back extents * size + alignment - 1) alignment))

-- An element's place: the row's number times the pitch of the rows, and the place in the row.
place-decode :
    (rows row size j k : ℕ)
    → k < size
    → (j + 1) * size ≤ row
    → ((size * j + rows * row + k) / row ≡ rows) × ((size * j + rows * row + k) % row / size ≡ j)
place-decode rows row size j k h fits = (
  div-eq_of_lt-le row (omega (arith, inside)) (omega (arith, inside)),
  ap (λ t. t / size) remainder
      ∙ div-eq_of_lt-le size {m = size * j + k} (omega arith) (omega arith),
)
  where
    inside : size * j + k < row
    inside = omega arith

    remainder : (size * j + rows * row + k) % row ≡ size * j + k
    remainder =
        ap (λ t. t % row) {y = rows * row + (size * j + k)} (omega arith)
        ∙ mul-add-mod_self_right rows row (size * j + k)
        ∙ mod-eq_of_lt inside

module _ (w size alignment e f : ℕ) (es : Vec) where
  abbrev pub extents : Vec
  extents = e ∷ f ∷ es

  abbrev pub row : ℕ
  row = row_pitch_in_bytes w size alignment extents

  -- The sizes that the allocation computes fit the index type, which has 64 bits at most.
  pub record IsLayout : Type 0 where
    pub narrow : w ≤ 64
    pub has_size : 0 < size
    pub aligned : 0 < alignment
    pub row_fits : back extents * size + alignment ≤ 2 ^ w
    pub memory_fits : volume (erase_back extents) * row < 2 ^ w

  row-lt : row < 2 ^ w
  unfolding row_pitch_in_bytes
  row-lt = wrap-lt w _

  module _ (lay : IsLayout) where
    open lay use {narrow, has_size, aligned, row_fits, memory_fits}

    pub row_room : (idx : Vec) → InBounds extents idx → (back idx + 1) * size ≤ row
    row_room idx h =
        grind (arith, back-lt e (f ∷ es) idx h, row-fits w size alignment extents aligned row_fits)

    pub place_fits :
        (idx : Vec)
        → InBounds extents idx
        → size * (back idx + 1) + row_major (erase_back extents) (erase_back idx) * row
          ≤ volume (erase_back extents) * row
    place_fits idx h = grind (
      arith,
      row_room idx h,
      row_major-lt (erase_back extents) (erase_back idx) (InBounds-erase_back extents idx h),
    )

    first_pos : (idx : Vec) → InBounds extents idx → 0 < e
    first_pos [] h = absurd h
    first_pos (i ∷ is) h = omega arith

    mem_size_exact :
        (idx : Vec)
        → InBounds extents idx
        → mem_size_in_byte w size alignment extents ≡ volume (erase_back extents) * row
    unfolding mem_size_in_byte aligned_pitches
    mem_size_exact idx h =
        ap (λ p. mul_w 64 p e) head_exact
        ∙ wrap_small 64
            (omega (arith, memory_fits, pow-le-pow_right {n = 2} (omega arith) narrow, split))
        ∙ omega (arith, split)
      where
        split : volume (erase_back extents) * row ≡ volume (erase_back (f ∷ es)) * row * e
        split = unfold erase_back volume in omega arith

        positive : 0 < e
        positive = first_pos idx h

        head_exact :
            get_or (calculate_pitches w size extents row) 0 0 ≡ volume (erase_back (f ∷ es)) * row
        head_exact =
            sym (wrap_small w (pitch-head_lt w size row e f es row-lt))
            ∙ pitch-head w size row e f es
            ∙ wrap_small w (
                omega (
                  arith,
                  memory_fits,
                  split,
                  le-mul_pos (volume (erase_back (f ∷ es)) * row) e positive,
                ))

    pub ptr_offset_exact :
        (idx : Vec)
        → InBounds extents idx
        → ptr_offset w size (aligned_pitches w size alignment extents) idx
          ≡ size * back idx + row_major (erase_back extents) (erase_back idx) * row
    unfolding ptr_offset aligned_pitches
    ptr_offset_exact idx h =
        sym (
          wrap_small w (
            offset_loop-lt w (mul_w w size (back idx))
              (erase_back (calculate_pitches w size extents row)) idx
              (wrap-lt w (size * back idx))))
        ∙ offset_loop-wrap w size row e f (mul_w w size (back idx)) es idx h
        ∙ wrap-add_left w (size * back idx) (row_major (erase_back extents) (erase_back idx) * row)
        ∙ wrap_small w (omega (arith, memory_fits, place_fits idx h))

    -- For extents of two dimensions or more whose aligned rows and whose memory fit the index type of
    -- at most 64 bits, a positive element size and alignment, an index in bounds and a number k below
    -- the element's size: byte k of the element lies in the memory, and its address gives the index
    -- back. So elements do not overlap.
    pub ptr_offset-decode :
        (idx : Vec) (k : ℕ)
        → InBounds extents idx
        → k < size
        → (ptr_offset w size (aligned_pitches w size alignment extents) idx + k
            < mem_size_in_byte w size alignment extents)
          × (unrank
                (erase_back extents)
                ((ptr_offset w size (aligned_pitches w size alignment extents) idx + k) / row)
              ≡ erase_back idx)
          × ((ptr_offset w size (aligned_pitches w size alignment extents) idx + k) % row / size
              ≡ back idx)
    ptr_offset-decode idx k h q =
        rw (ptr_offset_exact idx h, mem_size_exact idx h)
          (
            omega (arith, place_fits idx h, has_size, q, row_room idx h),
            ap (unrank (erase_back extents)) decoded.0
                ∙ unrank-row_major (erase_back extents) (erase_back idx)
                    (InBounds-erase_back extents idx h),
            decoded.1,
          )
      where
        decoded :
            ((size * back idx + row_major (erase_back extents) (erase_back idx) * row + k) / row
              ≡ row_major (erase_back extents) (erase_back idx))
            × ((size * back idx + row_major (erase_back extents) (erase_back idx) * row + k)
                  % row
                  / size
                ≡ back idx)
        decoded =
            place-decode (row_major (erase_back extents) (erase_back idx)) row size (back idx) k q
              (row_room idx h)
