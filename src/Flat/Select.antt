-- ===== src/Flat/Select.antt =====
-- The selection of all dimensions: swizzle, `ref` and `mapTo` then work on whole vectors.
use alpaka.Base.{
  ℕ, zero, suc, ◌+◌, ◌^◌, ◌<◌, ◌≡◌, refl, ap, ap₂, ◌∙◌, List, [], ◌∷◌, map, arith, length, get_or,
  set, add_w, sub_w, wrap, wrap_small, wrap-add_modulus, pow_pos, le→leb,
}
use alpaka.Vec.{Vec, select, zip_with, vec_add, fill}
use alpaka.ThreadSpace.{ThreadSpace, iota, iota_from, map_to}
use alpaka.Flat.{ref_add, ref_sub}

iota_from-suc : (s n : ℕ) → iota_from (suc s) n ≡ map suc (iota_from s n)
unfolding iota_from
iota_from-suc s zero = refl
iota_from-suc s (suc n) =
    ap (λ k. suc s ∷ iota_from k n) {y = suc (s + 1)} (omega arith)
    ∙ ap (◌∷◌ (suc s)) (iota_from-suc (s + 1) n)

pub iota-suc : (n : ℕ) → iota (suc n) ≡ 0 ∷ map suc (iota n)
unfolding iota iota_from
iota-suc n = ap (λ k. 0 ∷ iota_from k n) {x = 0 + 1} {y = 1} refl ∙ ap (◌∷◌ 0) (iota_from-suc 0 n)

select-map-suc : (x : ℕ) (v : Vec) (ds : List ℕ) → select (x ∷ v) (map suc ds) ≡ select v ds
unfolding select
select-map-suc x v [] = refl
select-map-suc x v (d ∷ ds) = ap (◌∷◌ (get_or v d 0)) (select-map-suc x v ds)

-- Selecting all components gives the vector.
pub select-iota : (v : Vec) → select v (iota (length v)) ≡ v
unfolding select
select-iota [] = unfold iota iota_from in refl
select-iota (x ∷ v) =
    ap (select (x ∷ v)) (iota-suc (length v))
    ∙ ap (◌∷◌ x) (select-map-suc x v (iota (length v)) ∙ select-iota v)

ref_add-map-suc :
    (w x : ℕ) (v : Vec) (ds : List ℕ) (ys : Vec)
    → ref_add w (x ∷ v) (map suc ds) ys ≡ x ∷ ref_add w v ds ys
unfolding ref_add
ref_add-map-suc w x v [] ys = refl
ref_add-map-suc w x v (d ∷ ds) [] = refl
ref_add-map-suc w x v (d ∷ ds) (y ∷ ys) =
    ref_add-map-suc w x (set v d (add_w w (get_or v d 0) y)) ds ys

-- `ref` of all components adds componentwise.
pub ref_add-iota :
    (w : ℕ) (v ys : Vec) → length v ≡ length ys → ref_add w v (iota (length v)) ys ≡ vec_add w v ys
unfolding ref_add vec_add zip_with
ref_add-iota w [] [] h = unfold iota iota_from in refl
ref_add-iota w [] (y ∷ ys) h = absurd (omega arith)
ref_add-iota w (x ∷ v) [] h = absurd (omega arith)
ref_add-iota w (x ∷ v) (y ∷ ys) h =
    ap (λ ds. ref_add w (x ∷ v) ds (y ∷ ys)) (iota-suc (length v))
    ∙ ref_add-map-suc w (add_w w x y) v (iota (length v)) ys
    ∙ ap (◌∷◌ (add_w w x y)) (ref_add-iota w v ys (omega arith))

ref_sub-map-suc :
    (w x : ℕ) (v : Vec) (ds : List ℕ) (ys : Vec)
    → ref_sub w (x ∷ v) (map suc ds) ys ≡ x ∷ ref_sub w v ds ys
unfolding ref_sub
ref_sub-map-suc w x v [] ys = refl
ref_sub-map-suc w x v (d ∷ ds) [] = refl
ref_sub-map-suc w x v (d ∷ ds) (y ∷ ys) =
    ref_sub-map-suc w x (set v d (sub_w w (get_or v d 0) y)) ds ys

sub_w_self : (w x : ℕ) → sub_w w x x ≡ 0
sub_w_self w x =
    ap (wrap w) {y = 0 + 2 ^ w} (omega arith) ∙ wrap-add_modulus w 0 ∙ wrap_small w (pow_pos w)

-- Taking the selected components off leaves zeros.
pub ref_sub-iota : (w : ℕ) (v : Vec) → ref_sub w v (iota (length v)) v ≡ fill (length v) 0
unfolding ref_sub fill
ref_sub-iota w [] = unfold iota iota_from in refl
ref_sub-iota w (x ∷ v) =
    ap (λ ds. ref_sub w (x ∷ v) ds (x ∷ v)) (iota-suc (length v))
    ∙ ref_sub-map-suc w (sub_w w x x) v (iota (length v)) v
    ∙ ap₂ ◌∷◌ (sub_w_self w x) (ref_sub-iota w v)

length-iota_from : (s n : ℕ) → length (iota_from s n) ≡ n
unfolding iota_from
length-iota_from s zero = refl
length-iota_from s (suc n) = ap suc (length-iota_from (s + 1) n)

pub length-iota : (n : ℕ) → length (iota n) ≡ n
unfolding iota
length-iota n = length-iota_from 0 n

-- `mapTo` all dimensions is the identity.
pub map_to-iota : (w : ℕ) (ts : ThreadSpace) → map_to w (iota (length ts.m_thread_idx)) ts ≡ ts
unfolding map_to
map_to-iota w ts =
    rw
      (le→leb (length ts.m_thread_idx) (length (iota (length ts.m_thread_idx)))
        (omega (arith, length-iota (length ts.m_thread_idx))))
      refl

-- The components fit w bits.
abbrev pub Fits : ℕ → Vec → Type 0
Fits w [] = Unit {0}
Fits w (x ∷ xs) = (x < 2 ^ w) × Fits w xs

pub vec_add-zeros : (w : ℕ) (v : Vec) (n : ℕ) → length v ≡ n → Fits w v → vec_add w v (fill n 0) ≡ v
unfolding vec_add zip_with fill
vec_add-zeros w [] n h f = refl
vec_add-zeros w (x ∷ v) zero h f = absurd (omega arith)
vec_add-zeros w (x ∷ v) (suc n) h f =
    ap₂ ◌∷◌ (ap (wrap w) {y = x} (omega arith) ∙ wrap_small w f.0)
      (vec_add-zeros w v n (omega arith) f.1)
