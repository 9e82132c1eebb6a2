-- ===== src/Memory/Address.antt =====
-- MdSpan.hpp and DataPitches.hpp: pitches and offsets modulo 2 ^ w, in terms of the row-major place.
use native.Mathlib.Nat.{mul_assoc}
use alpaka.Base.{
  ℕ, ◌+◌, ◌*◌, ◌^◌, ◌<◌, ◌≡◌, refl, sym, ap, ◌∙◌, arith, [], ◌∷◌, get_or, wrap, mul_w, add_w,
  wrap-lt, wrap-wrap, wrap-add_left, wrap-add_right, wrap-mul_left, wrap-mul_right,
}
use alpaka.Vec.{Vec, back, erase_back}
use alpaka.Vec.Linear.{InBounds, volume, row_major}
use alpaka.Memory.{calculate_pitches, offset_loop}

-- The pitch of the slowest dimension is the size of the space below it, in rows.
pub pitch-head :
    (w size row e f : ℕ) (es : Vec)
    → wrap w (get_or (calculate_pitches w size (e ∷ f ∷ es) row) 0 0)
      ≡ wrap w (volume (erase_back (f ∷ es)) * row)
unfolding calculate_pitches volume erase_back
pitch-head w size row e f [] = ap (wrap w) (omega arith)
pitch-head w size row e f (g ∷ es) =
    wrap-wrap w _
    ∙ sym (wrap-mul_right w f _)
    ∙ ap (λ t. wrap w (f * t)) (pitch-head w size row f g es)
    ∙ wrap-mul_right w f _
    ∙ ap (wrap w) (sym (mul_assoc f (volume (erase_back (g ∷ es))) row))

mul-congr : (w p q i : ℕ) → wrap w p ≡ wrap w q → wrap w (p * i) ≡ wrap w (q * i)
mul-congr w p q i h = sym (wrap-mul_left w p i) ∙ ap (λ t. wrap w (t * i)) h ∙ wrap-mul_left w q i

-- One round of the loop.
round-wrap :
    (w acc p q i z : ℕ)
    → wrap w p ≡ wrap w q
    → wrap w (add_w w acc (mul_w w p i) + z) ≡ wrap w (acc + q * i + z)
round-wrap w acc p q i z h =
    wrap-add_left w (acc + mul_w w p i) z
    ∙ ap (λ t. wrap w (acc + t + z)) (mul-congr w p q i h)
    ∙ sym (wrap-add_left w (acc + wrap w (q * i)) z)
    ∙ ap (λ t. wrap w (t + z)) (wrap-add_right w acc (q * i))
    ∙ wrap-add_left w (acc + q * i) z

erase_back-pitches :
    (w size row x f g : ℕ) (es : Vec)
    → erase_back (x ∷ calculate_pitches w size (f ∷ g ∷ es) row)
      ≡ x ∷ erase_back (calculate_pitches w size (f ∷ g ∷ es) row)
unfolding calculate_pitches erase_back
erase_back-pitches w size row x f g [] = refl
erase_back-pitches w size row x f g (h ∷ es) = refl

pub offset_loop-wrap :
    (w size row e f acc : ℕ) (es is : Vec)
    → InBounds (e ∷ f ∷ es) is
    → wrap w (offset_loop w acc (erase_back (calculate_pitches w size (e ∷ f ∷ es) row)) is)
      ≡ wrap w (acc + row_major (erase_back (e ∷ f ∷ es)) (erase_back is) * row)
unfolding calculate_pitches offset_loop erase_back row_major volume
offset_loop-wrap w size row e f acc es [] h = absurd h
offset_loop-wrap w size row e f acc es (i ∷ []) h = absurd h.1
offset_loop-wrap w size row e f acc [] (i ∷ j ∷ []) h =
    wrap-wrap w _
    ∙ wrap-add_right w acc (row * i)
    ∙ ap (wrap w) {x = acc + row * i} {y = acc + (i * 1 + 0) * row} (omega arith)
offset_loop-wrap w size row e f acc [] (i ∷ j ∷ k ∷ is) h = absurd h.1.1
offset_loop-wrap w size row e f acc (g ∷ es) (i ∷ j ∷ is) h =
    ap (λ l. wrap w (offset_loop w acc l (i ∷ j ∷ is))) (erase_back-pitches w size row head f g es)
    ∙ offset_loop-wrap w size row f g (add_w w acc (mul_w w head i)) es (j ∷ is) h.1
    ∙ round-wrap w acc head whole i _ (pitch-head w size row e f (g ∷ es))
    ∙ ap (wrap w) {x = acc + whole * i + inner * row} (omega arith)
  where
    head : ℕ
    head = mul_w w f (get_or (calculate_pitches w size (f ∷ g ∷ es) row) 0 0)

    whole : ℕ
    whole = volume (erase_back (f ∷ g ∷ es)) * row

    inner : ℕ
    inner = row_major (erase_back (f ∷ g ∷ es)) (erase_back (j ∷ is))

pub offset_loop-lt : (w acc : ℕ) (ps is : Vec) → acc < 2 ^ w → offset_loop w acc ps is < 2 ^ w
unfolding offset_loop
offset_loop-lt w acc [] is h = h
offset_loop-lt w acc (p ∷ ps) [] h = h
offset_loop-lt w acc (p ∷ ps) (i ∷ is) h =
    offset_loop-lt w (add_w w acc (mul_w w p i)) ps is (wrap-lt w (acc + mul_w w p i))

pub InBounds-erase_back : (es is : Vec) → InBounds es is → InBounds (erase_back es) (erase_back is)
unfolding erase_back
InBounds-erase_back [] [] h = tt
InBounds-erase_back [] (i ∷ is) h = absurd h
InBounds-erase_back (e ∷ es) [] h = absurd h
InBounds-erase_back (e ∷ []) (i ∷ []) h = tt
InBounds-erase_back (e ∷ []) (i ∷ j ∷ is) h = absurd h.1
InBounds-erase_back (e ∷ f ∷ es) (i ∷ []) h = absurd h.1
InBounds-erase_back (e ∷ f ∷ es) (i ∷ j ∷ is) h = (h.0, InBounds-erase_back (f ∷ es) (j ∷ is) h.1)

pub back-lt : (e : ℕ) (es is : Vec) → InBounds (e ∷ es) is → back is < back (e ∷ es)
unfolding back
back-lt e es [] h = absurd h
back-lt e [] (i ∷ []) h = h.0
back-lt e [] (i ∷ j ∷ is) h = absurd h.1
back-lt e (f ∷ es) (i ∷ []) h = absurd h.1
back-lt e (f ∷ es) (i ∷ j ∷ is) h = back-lt f es (j ∷ is) h.1

pub pitch-head_lt :
    (w size row e f : ℕ) (es : Vec)
    → row < 2 ^ w
    → get_or (calculate_pitches w size (e ∷ f ∷ es) row) 0 0 < 2 ^ w
unfolding calculate_pitches
pitch-head_lt w size row e f [] h = h
pitch-head_lt w size row e f (g ∷ es) h = wrap-lt w _
