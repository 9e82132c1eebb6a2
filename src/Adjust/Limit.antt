-- ===== src/Adjust/Limit.antt =====
-- api/util.hpp, adjustToLimit: the loop ends with a product within the limit.
use native.Mathlib.Nat.{mod-le, mul-le-mul}
use alpaka.Base.{
  ℕ, zero, suc, ◌+◌, ◌*◌, ◌/◌, ◌^◌, ◌<◌, ◌≤◌, ◌≡◌, refl, sym, ap, ◌∙◌, arith, [], ◌∷◌, false, some,
  length, get_or, set, ltb, ltb→lt, lt→ltb, Bool-cases, inl, inr, wrap, mul_w, subst, max, dec_lt,
  ℕ_discrete,
}
use alpaka.Vec.{Vec, product, product_loop}
use alpaka.Util.{div_ex_zero}
use alpaka.Tiled.Store.{length-set, get_or-set_same, get_or-set_other}
use alpaka.Adjust.{max_idx_loop, adjust_round, adjust_loop, adjust_to_limit}

-- The sum of the components, in unbounded arithmetic.
unfoldable pub total : Vec → ℕ
total [] = 0
total (x ∷ xs) = x + total xs

total-set : (v : Vec) (j y : ℕ) → j < length v → total (set v j y) + get_or v j 0 ≡ total v + y
unfolding total
total-set [] j y h = absurd (omega arith)
total-set (x ∷ v) zero y h = omega arith
total-set (x ∷ v) (suc j) y h = omega (arith, total-set v j y (omega arith))

mul_w-small : (w a b : ℕ) → a ≤ 1 → b ≤ 1 → mul_w w a b ≤ 1
unfolding wrap
mul_w-small w a b h i = omega (arith, mod-le (a * b) (2 ^ w), mul-le-mul h i)

product_loop-small :
    (w r : ℕ) (v : Vec) → r ≤ 1 → ((k : ℕ) → get_or v k 0 ≤ 1) → product_loop w r v ≤ 1
unfolding product_loop
product_loop-small w r [] h all = h
product_loop-small w r (x ∷ v) h all =
    product_loop-small w (mul_w w r x) v (mul_w-small w r x h (all 0)) (λ k. all (suc k))

product-small : (w : ℕ) (v : Vec) → ((k : ℕ) → get_or v k 0 ≤ 1) → product w v ≤ 1
unfolding product
product-small w [] all = omega arith
product-small w (x ∷ v) all = product_loop-small w x v (all 0) (λ k. all (suc k))

ltb_false→le : (a b : ℕ) → ltb a b ≡ false → b ≤ a
ltb_false→le a b h = ground arith

-- The index r holds a component not below those of xs and that at m.
abbrev Tops : Vec → Vec → ℕ → ℕ → Type 0
Tops v xs m r =
    (r < length v) × (get_or v m 0 ≤ get_or v r 0) × ((k : ℕ) → get_or xs k 0 ≤ get_or v r 0)

Tops-cons :
    (v xs : Vec) (x m n r : ℕ)
    → get_or v m 0 ≤ get_or v n 0
    → x ≤ get_or v n 0
    → Tops v xs n r
    → Tops v (x ∷ xs) m r
Tops-cons v xs x m n r h i (less, here, all) =
    (less, omega arith, elim [ zero ↦ omega arith | suc k ↦ all k ])

max_idx_loop_lem :
    (v xs : Vec) (i m : ℕ)
    → ((k : ℕ) → get_or xs k 0 ≡ get_or v (i + k) 0)
    → i + length xs ≡ length v
    → m < length v
    → Tops v xs m (max_idx_loop i m (get_or v m 0) xs)
unfolding max_idx_loop
max_idx_loop_lem v [] i m same e h = (h, omega arith, λ k. omega arith)
max_idx_loop_lem v (x ∷ xs) i m same e h = elim (Bool-cases (ltb (get_or v m 0) x)) [
  | inl t ↦
      rw (t, max_idx_loop)
        (Tops-cons v xs x m i (max_idx_loop (suc i) i x xs)
          (omega (arith, ltb→lt (get_or v m 0) x t, first)) (omega (arith, first))
          (subst (λ y. Tops v xs i (max_idx_loop (suc i) i y xs)) (sym first)
            (max_idx_loop_lem v xs (suc i) i rest (omega arith) (omega arith))))
  | inr t ↦
      rw (t, max_idx_loop)
        (Tops-cons v xs x m m (max_idx_loop (suc i) m (get_or v m 0) xs) (omega arith)
          (omega (arith, ltb_false→le (get_or v m 0) x t))
          (max_idx_loop_lem v xs (suc i) m rest (omega arith) h))
]
  where
    first : x ≡ get_or v i 0
    first = same 0 ∙ ap (λ n. get_or v n 0) {y = i} (omega arith)

    rest : (k : ℕ) → get_or xs k 0 ≡ get_or v (suc i + k) 0
    rest k = same (suc k) ∙ ap (λ n. get_or v n 0) {y = suc i + k} (omega arith)

-- The vector r comes from v by making components smaller, but no positive one zero.
abbrev pub IsShrunk : Vec → Vec → Type 0
IsShrunk v r =
    (length r ≡ length v)
    × ((k : ℕ) → (get_or r k 0 ≤ get_or v k 0) × (0 < get_or v k 0 → 0 < get_or r k 0))

IsShrunk-trans : (u v r : Vec) → IsShrunk u v → IsShrunk v r → IsShrunk u r
IsShrunk-trans u v r (e, a) (f, b) =
    (f ∙ e, λ k. (omega (arith, (a k).0, (b k).0), λ p. (b k).1 ((a k).1 p)))

-- A component replaced by a smaller positive one.
set-IsShrunk :
    (v : Vec) (j y : ℕ) → j < length v → 0 < y → y < get_or v j 0 → IsShrunk v (set v j y)
set-IsShrunk v j y h p q = (length-set v j y, at)
  where
    at :
        (k : ℕ)
        → (get_or (set v j y) k 0 ≤ get_or v k 0) × (0 < get_or v k 0 → 0 < get_or (set v j y) k 0)
    at k = elim (ℕ_discrete j k) [
      | yes e ↦
          subst
            (λ n.
              (get_or (set v j y) n 0 ≤ get_or v n 0)
              × (0 < get_or v n 0 → 0 < get_or (set v j y) n 0))
            e (omega (arith, get_or-set_same v j y h), λ z. omega (arith, get_or-set_same v j y h))
      | no ne ↦ (
        omega (arith, get_or-set_other v j k y ne),
        λ z. omega (arith, get_or-set_other v j k y ne),
      )
    ]

half_positive : (n : ℕ) → 0 < max (n / 2) 1
half_positive n = omega arith

half-lt : (n : ℕ) → 1 < n → max (n / 2) 1 < n
half-lt n h = omega arith

-- A round above a positive limit makes the vector smaller.
round_lem :
    (w : ℕ) (v : Vec) (l : ℕ)
    → 0 < length v
    → 0 < l
    → l < product w v
    → (total (adjust_round w v l) < total v) × IsShrunk v (adjust_round w v l)
unfolding adjust_round div_ex_zero
round_lem w v l q p h =
    let (less, first, all) =
      max_idx_loop_lem v v 0 0 (λ k. ap (λ n. get_or v n 0) {y = 0 + k} (omega arith)) (omega arith)
        q in
    rw (lt→ltb l (product w v) h, adjust_round)
      (
        omega (
          arith,
          total-set v top (max (get_or v top 0 / 2) 1) less,
          half-lt (get_or v top 0) (big all),
        ),
        set-IsShrunk v top (max (get_or v top 0 / 2) 1) less (half_positive (get_or v top 0))
            (half-lt (get_or v top 0) (big all)),
      )
  where
    top : ℕ
    top = max_idx_loop 0 0 (get_or v 0 0) v

    big : ((k : ℕ) → get_or v k 0 ≤ get_or v top 0) → 1 < get_or v top 0
    big all = elim (dec_lt 1 (get_or v top 0)) [
      | yes more ↦ more
      | no few ↦ absurd (omega (arith, product-small w v (λ k. omega (arith, all k))))
    ]

IsShrunk-refl : (v : Vec) → IsShrunk v v
IsShrunk-refl v = (refl, λ k. (omega arith, λ p. p))

loop_lem :
    (w fuel : ℕ) (v : Vec) (l : ℕ)
    → 0 < length v
    → 0 < l
    → total v < fuel
    → (r : Vec) × (adjust_loop w fuel v l ≡ some r) × (product w r ≤ l) × IsShrunk v r
unfolding adjust_loop
loop_lem w zero v l q p f = absurd (omega arith)
loop_lem w (suc fuel) v l q p f = elim (Bool-cases (ltb l (product w v))) [
  | inl t ↦
      let (fewer, smaller) = round_lem w v l q p (ltb→lt l (product w v) t) in
      let (r, e, ends, below) =
        loop_lem w fuel (adjust_round w v l) l (omega (arith, smaller.0)) p
          (omega (arith, fewer)) in
      (r, rw (t, adjust_loop) e, ends, IsShrunk-trans v (adjust_round w v l) r smaller below)
  | inr t ↦ (v, rw (t, adjust_loop) refl, ltb_false→le l (product w v) t, IsShrunk-refl v)
]

-- For a vector that is not empty and a limit whose value in w bits is positive, with fuel for one more
-- round than the sum of the components: the loop ends with a vector whose w-bit product is within the
-- limit, of the same length, no component of which is larger than before or has become zero.
pub adjust_to_limit-IsShrunk :
    (w : ℕ) (input : Vec) (limit : ℕ)
    → 0 < length input
    → 0 < wrap w limit
    → (r : Vec) × (adjust_to_limit w (suc (total input)) input limit ≡ some r)
      × (product w r ≤ wrap w limit)
      × IsShrunk input r
unfolding adjust_to_limit
adjust_to_limit-IsShrunk w input limit q p =
    loop_lem w (suc (total input)) input (wrap w limit) q p (omega arith)
