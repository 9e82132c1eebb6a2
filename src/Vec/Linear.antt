-- ===== src/Vec/Linear.antt =====
-- Vec.hpp, linearize and product: they compute the row-major number and the volume.
use native.Mathlib.Nat.{mul_comm, mul_assoc}
use alpaka.Base.{
  ℕ, suc, ◌+◌, ◌*◌, ◌-◌, ◌^◌, ◌<◌, ◌≤◌, ◌≡◌, sym, ap, ◌∙◌, [], ◌∷◌, length, drop, arith, wrap,
  add_w, mul_w, wrap-lt, wrap_small, wrap-add_left, wrap-mul_left,
}
use alpaka.Vec.{Vec, product, product_loop, linearize, linearize_reduced, linearize_loop, rshrink}

-- The index is below the extent in each dimension, and the dimensions agree.
abbrev pub InBounds : Vec → Vec → Type 0
InBounds [] [] = Unit {0}
InBounds (e ∷ es) (i ∷ is) = (i < e) × InBounds es is
InBounds [] (i ∷ is) = ⊥
InBounds (e ∷ es) [] = ⊥

-- The number of indices, in unbounded arithmetic.
unfoldable pub volume : Vec → ℕ
volume [] = 1
volume (e ∷ es) = e * volume es

-- The place of an index in row-major order, in unbounded arithmetic.
unfoldable pub row_major : Vec → Vec → ℕ
unfolding volume
row_major (e ∷ es) (i ∷ is) = i * volume es + row_major es is
row_major _ _ = 0

pub volume_pos : (es is : Vec) → InBounds es is → 0 < volume es
unfolding volume
volume_pos [] [] h = omega arith
volume_pos [] (i ∷ is) h = absurd h
volume_pos (e ∷ es) [] h = absurd h
volume_pos (e ∷ es) (i ∷ is) h = grind (arith, volume_pos es is h.1)

pub row_major-lt : (es is : Vec) → InBounds es is → row_major es is < volume es
unfolding row_major volume
row_major-lt [] [] h = omega arith
row_major-lt [] (i ∷ is) h = absurd h
row_major-lt (e ∷ es) [] h = absurd h
row_major-lt (e ∷ es) (i ∷ is) h = grind (arith, row_major-lt es is h.1)

mul_swap : (a b c : ℕ) → a * b * c ≡ a * c * b
mul_swap a b c = mul_assoc a b c ∙ ap (◌*◌ a) (mul_comm b c) ∙ sym (mul_assoc a c b)

product_loop-wrap : (w r : ℕ) (es : Vec) → wrap w (product_loop w r es) ≡ wrap w (r * volume es)
unfolding product_loop volume
product_loop-wrap w r [] = ap (wrap w) (omega arith)
product_loop-wrap w r (e ∷ es) =
    product_loop-wrap w (mul_w w r e) es
    ∙ wrap-mul_left w (r * e) (volume es)
    ∙ ap (wrap w) (mul_assoc r e (volume es))

product_loop-lt : (w r : ℕ) (es : Vec) → r < 2 ^ w → product_loop w r es < 2 ^ w
unfolding product_loop
product_loop-lt w r [] h = h
product_loop-lt w r (e ∷ es) h = product_loop-lt w (mul_w w r e) es (wrap-lt w (r * e))

-- `product` is the volume modulo 2 ^ w.
pub product-wrap : (w e : ℕ) (es : Vec) → e < 2 ^ w → product w (e ∷ es) ≡ wrap w (volume (e ∷ es))
unfolding product volume
product-wrap w e es h = sym (wrap_small w (product_loop-lt w e es h)) ∙ product_loop-wrap w e es

horner : (w a i v s : ℕ) → wrap w (add_w w (wrap w a) i * v + s) ≡ wrap w ((a + i) * v + s)
horner w a i v s =
    ap (λ t. wrap w (t * v + s)) (wrap-add_left w a i)
    ∙ sym (wrap-add_left w (wrap w (a + i) * v) s)
    ∙ ap (λ t. wrap w (t + s)) (wrap-mul_left w (a + i) v)
    ∙ wrap-add_left w ((a + i) * v) s

linearize_loop-wrap :
    (w r : ℕ) (es is : Vec)
    → InBounds es is
    → wrap w (linearize_loop w r es is) ≡ wrap w (r * volume es + row_major es is)
unfolding linearize_loop volume row_major
linearize_loop-wrap w r [] [] h = ap (wrap w) (omega arith)
linearize_loop-wrap w r [] (i ∷ is) h = absurd h
linearize_loop-wrap w r (e ∷ es) [] h = absurd h
linearize_loop-wrap w r (e ∷ es) (i ∷ is) h =
    linearize_loop-wrap w (add_w w (mul_w w r e) i) es is h.1
    ∙ horner w (r * e) i (volume es) (row_major es is)
    ∙ ap (wrap w) (omega arith)

linearize_loop-lt : (w r : ℕ) (es is : Vec) → r < 2 ^ w → linearize_loop w r es is < 2 ^ w
unfolding linearize_loop
linearize_loop-lt w r [] is h = h
linearize_loop-lt w r (e ∷ es) [] h = h
linearize_loop-lt w r (e ∷ es) (i ∷ is) h =
    linearize_loop-lt w (add_w w (mul_w w r e) i) es is (wrap-lt w (mul_w w r e + i))

pub rshrink-tail : (e : ℕ) (es : Vec) → rshrink (length (e ∷ es) - 1) (e ∷ es) ≡ es
unfolding rshrink
rshrink-tail e es =
    ap (λ n. drop n (e ∷ es)) {x = suc (length es) - (suc (length es) - 1)} {y = 1} (omega arith)

le-mul_right : (i v : ℕ) → 0 < v → i ≤ i * v
le-mul_right i v h = grind arith

-- For an index in bounds of extents whose volume is at most 2 ^ w, `linearize` is the row-major place,
-- with no wrap-around.
pub linearize-row_major :
    (w e i : ℕ) (es is : Vec)
    → InBounds (e ∷ es) (i ∷ is)
    → volume (e ∷ es) ≤ 2 ^ w
    → linearize w (e ∷ es) (i ∷ is) ≡ row_major (e ∷ es) (i ∷ is)
unfolding linearize linearize_reduced rshrink row_major
linearize-row_major w e i es is h fits =
    drop_one
    ∙ sym (
        wrap_small w (
          linearize_loop-lt w i es is
            (omega (arith, le-mul_right i (volume es) (volume_pos es is h.1), below))))
    ∙ linearize_loop-wrap w i es is h.1
    ∙ wrap_small w below
  where
    below : i * volume es + row_major es is < 2 ^ w
    below = omega (arith, row_major-lt (e ∷ es) (i ∷ is) h)

    drop_one : linearize w (e ∷ es) (i ∷ is) ≡ linearize_loop w i es is
    drop_one = ap (λ dim. linearize_reduced w dim (i ∷ is)) (rshrink-tail e es)
