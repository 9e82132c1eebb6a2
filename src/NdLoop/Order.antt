-- ===== src/NdLoop/Order.antt =====
-- NdLoop.hpp: the loops visit every index of the extent once, in row-major order.
use native.Mathlib.Nat.{mul-add-mod_self_right, mod-eq_of_lt, div-eq_of_lt-le}
use mathlib.Core.Option
use alpaka.Base.{
  ℕ, zero, suc, ◌+◌, ◌*◌, ◌^◌, ◌<◌, ◌≤◌, ◌≡◌, refl, sym, ap, ap₂, ◌∙◌, arith, List, [], ◌∷◌, ◌++◌,
  map, none, some, lt→ltb, ltb-false, wrap_small,
}
use alpaka.Vec.{Vec}
use alpaka.Vec.Linear.{volume}
use alpaka.Vec.RoundTrip.{unrank}
use alpaka.ThreadSpace.{iota, iota_from}
use alpaka.Flat.Select.{Fits}
use alpaka.NdLoop.{loop_dim, nd_loop_impl, nd_loop_inc_idx}

pub iota_from-append : (s m n : ℕ) → iota_from s (m + n) ≡ iota_from s m ++ iota_from (s + m) n
unfolding iota_from
iota_from-append s zero n =
    ap (iota_from s) {x = 0 + n} {y = n} (omega arith)
    ∙ ap (λ k. iota_from k n) {x = s} {y = s + 0} (omega arith)
iota_from-append s (suc m) n =
    ap (iota_from s) {y = suc (m + n)} (omega arith)
    ∙ ap (◌∷◌ s) (iota_from-append (s + 1) m n)
    ∙ ap (λ k. s ∷ (iota_from (s + 1) m ++ iota_from k n)) {y = s + suc m} (omega arith)

pub map-append : (f : ℕ → Vec) (xs ys : List ℕ) → map f (xs ++ ys) ≡ map f xs ++ map f ys
map-append f [] ys = refl
map-append f (x ∷ xs) ys = ap (◌∷◌ (f x)) (map-append f xs ys)

-- The places i * v + j for j from k on, of a block of v: their indices have the first component i.
block :
    (e i k n : ℕ) (es : Vec)
    → k + n ≤ volume es
    → map (◌∷◌ i) (map (unrank es) (iota_from k n))
      ≡ map (unrank (e ∷ es)) (iota_from (i * volume es + k) n)
unfolding iota_from unrank
block e i k zero es h = refl
block e i k (suc n) es h =
    ap₂ ◌∷◌
      (ap₂ ◌∷◌
        (sym (div-eq_of_lt-le (volume es) {m = i * volume es + k} (omega arith) (omega arith)))
        (ap (unrank es)
          (sym (mul-add-mod_self_right i (volume es) k ∙ mod-eq_of_lt (omega arith)))))
      (block e i (k + 1) n es (omega arith)
        ∙ ap (λ s. map (unrank (e ∷ es)) (iota_from s n)) {y = i * volume es + k + 1} (omega arith))

loop_done : (w fuel e i : ℕ) (inner : List Vec) → e ≤ i → loop_dim w (suc fuel) e i inner ≡ some []
unfolding loop_dim
loop_done w fuel e i inner h = rw (ltb-false i e h, loop_dim) refl

loop_more :
    (w fuel e i : ℕ) (inner : List Vec)
    → i < e
    → e < 2 ^ w
    → loop_dim w (suc fuel) e i inner
      ≡ Option.map (λ rest. map (◌∷◌ i) inner ++ rest) (loop_dim w fuel e (i + 1) inner)
unfolding loop_dim
loop_more w fuel e i inner h fits =
    rw (lt→ltb i e h, loop_dim)
      (ap (λ k. Option.map (λ rest. map (◌∷◌ i) inner ++ rest) (loop_dim w fuel e k inner))
        (wrap_small w (omega arith)))

loop_dim-unrank :
    (w e i n : ℕ) (es : Vec)
    → e < 2 ^ w
    → i + n ≡ e
    → loop_dim w (suc n) e i (map (unrank es) (iota (volume es)))
      ≡ some (map (unrank (e ∷ es)) (iota_from (i * volume es) (n * volume es)))
unfolding iota iota_from
loop_dim-unrank w e i zero es fits h =
    loop_done w 0 e i _ (omega arith)
    ∙ ap (λ m. some (map (unrank (e ∷ es)) (iota_from (i * volume es) m))) {x = 0}
        {y = 0 * volume es} (omega arith)
loop_dim-unrank w e i (suc n) es fits h =
    loop_more w (suc n) e i _ (omega arith) fits
    ∙ ap (Option.map (λ rest. map (◌∷◌ i) (map (unrank es) (iota_from 0 (volume es))) ++ rest))
        (loop_dim-unrank w e (i + 1) n es fits (omega arith))
    ∙ ap some (
        ap₂ ◌++◌ (block e i 0 (volume es) es (omega arith)) refl
        ∙ ap
            (λ a.
              map (unrank (e ∷ es)) (iota_from a (volume es))
              ++ map (unrank (e ∷ es)) (iota_from ((i + 1) * volume es) (n * volume es)))
            {x = i * volume es + 0} {y = i * volume es} (omega arith)
        ∙ ap
            (λ b.
              map (unrank (e ∷ es)) (iota_from (i * volume es) (volume es))
              ++ map (unrank (e ∷ es)) (iota_from b (n * volume es)))
            {x = (i + 1) * volume es} {y = i * volume es + volume es} (omega arith)
        ∙ sym (map-append (unrank (e ∷ es)) (iota_from (i * volume es) (volume es)) _)
        ∙ ap (map (unrank (e ∷ es)))
            (sym (iota_from-append (i * volume es) (volume es) (n * volume es)))
        ∙ ap (λ m. map (unrank (e ∷ es)) (iota_from (i * volume es) m)) {y = suc n * volume es}
            (omega arith))

-- For extents that fit w bits, the nested loops end and call the function for every index of the extent
-- once, in row-major order; if an extent is zero, for none.
pub nd_loop_inc_idx-row_major :
    (w : ℕ) (es : Vec)
    → Fits w es
    → nd_loop_inc_idx w es ≡ some (map (unrank es) (iota (volume es)))
unfolding nd_loop_inc_idx nd_loop_impl iota volume iota_from unrank
nd_loop_inc_idx-row_major w [] f = refl
nd_loop_inc_idx-row_major w (e ∷ es) f =
    ap (λ r. elim r [ none ↦ none | some inner ↦ loop_dim w (suc e) e 0 inner ])
      (nd_loop_inc_idx-row_major w es f.1)
    ∙ loop_dim-unrank w e 0 e es f.0 (omega arith)
    ∙ ap (λ s. some (map (unrank (e ∷ es)) (iota_from s (e * volume es)))) {y = 0} (omega arith)
