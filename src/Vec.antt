-- ===== src/Vec.antt =====
-- include/alpaka/Vec.hpp: vectors of unsigned w-bit integers. The list's length is `T_dim`; the
-- slowest dimension comes first. A division by a zero component, which C++ leaves undefined, gives
-- 0 here, and the callers' theorems ask for nonzero divisors.
pub mod Linear
pub mod RoundTrip
mod Examples
use alpaka.Base.{
  ℕ, zero, suc, ◌+◌, ◌-◌, ◌*◌, ◌/◌, ◌%◌, ◌<◌, min, max, Bool, true, ◌&&◌, List, [], ◌∷◌, ◌==◌,
  length, get_or, set, drop, replicate, add_w, mul_w, sub_w,
}

abbrev pub Vec : Type 0
Vec = List ℕ

unfoldable pub fill : ℕ → ℕ → Vec
fill dim value = replicate dim value

-- `result[i] = lhs[i] op rhs[i]`, the loop of every componentwise operator.
unfoldable pub zip_with {ℓ} : {A : Type ℓ} → (ℕ → ℕ → A) → Vec → Vec → List A
zip_with op (x ∷ xs) (y ∷ ys) = op x y ∷ zip_with op xs ys
zip_with op _ _ = []

unfoldable pub vec_add : ℕ → Vec → Vec → Vec
unfolding zip_with
vec_add w = zip_with (add_w w)

unfoldable pub vec_sub : ℕ → Vec → Vec → Vec
unfolding zip_with
vec_sub w = zip_with (sub_w w)

unfoldable pub vec_mul : ℕ → Vec → Vec → Vec
unfolding zip_with
vec_mul w = zip_with (mul_w w)

unfoldable pub vec_div : Vec → Vec → Vec
unfolding zip_with
vec_div = zip_with ◌/◌

unfoldable pub vec_mod : Vec → Vec → Vec
unfolding zip_with
vec_mod = zip_with ◌%◌

unfoldable pub vec_min : Vec → Vec → Vec
unfolding zip_with
vec_min = zip_with min

unfoldable pub vec_eq : Vec → Vec → Bool
vec_eq (x ∷ xs) (y ∷ ys) = (x == y) && vec_eq xs ys
vec_eq _ _ = true

-- `(a + b - T_Vector0::fill(1)) / b`
unfoldable pub div_ceil : ℕ → Vec → Vec → Vec
unfolding vec_div vec_sub vec_add fill
div_ceil w a b = vec_div (vec_sub w (vec_add w a b) (fill (length a) 1)) b

unfoldable pub product_loop : ℕ → ℕ → Vec → ℕ
product_loop w result [] = result
product_loop w result (x ∷ xs) = product_loop w (mul_w w result x) xs

-- The element at 0 exists, since vectors without elements are not allowed.
unfoldable pub product : ℕ → Vec → ℕ
unfolding product_loop
product w [] = 0
product w (x ∷ xs) = product_loop w x xs

unfoldable pub sum_loop : ℕ → ℕ → Vec → ℕ
sum_loop w result [] = result
sum_loop w result (x ∷ xs) = sum_loop w (add_w w result x) xs

unfoldable pub sum : ℕ → Vec → ℕ
unfolding sum_loop
sum w [] = 0
sum w (x ∷ xs) = sum_loop w x xs

-- `rshrink<n>()`: the last n components.
unfoldable pub rshrink : ℕ → Vec → Vec
rshrink n v = drop (length v - n) v

unfoldable pub erase_back : Vec → Vec
erase_back [] = []
erase_back (x ∷ []) = []
erase_back (x ∷ y ∷ ys) = x ∷ erase_back (y ∷ ys)

unfoldable pub back : Vec → ℕ
back [] = 0
back (x ∷ []) = x
back (x ∷ y ∷ ys) = back (y ∷ ys)

-- `rAssign(value)`: the last component replaced.
unfoldable pub r_assign : Vec → ℕ → Vec
r_assign v value = set v (length v - 1) value

-- The swizzle `v[CVec{...}]`.
unfoldable pub select : Vec → List ℕ → Vec
select v [] = []
select v (d ∷ ds) = get_or v d 0 ∷ select v ds

-- `linearize(dim, idx)` where dim lacks the slowest dimension: the loop from d = 1.
unfoldable pub linearize_loop : ℕ → ℕ → Vec → Vec → ℕ
linearize_loop w linear_idx (e ∷ dim) (i ∷ idx) =
    linearize_loop w (add_w w (mul_w w linear_idx e) i) dim idx
linearize_loop w linear_idx _ _ = linear_idx

unfoldable pub linearize_reduced : ℕ → Vec → Vec → ℕ
unfolding linearize_loop
linearize_reduced w dim [] = 0
linearize_reduced w dim (i ∷ idx) = linearize_loop w i dim idx

unfoldable pub linearize : ℕ → Vec → Vec → ℕ
unfolding linearize_reduced rshrink
linearize w dim idx = linearize_reduced w (rshrink (length dim - 1) dim) idx

-- `pitchExtents`, filled from the back: the products of the extents of the faster dimensions.
unfoldable pub pitch_extents : ℕ → Vec → Vec
pitch_extents w [] = []
pitch_extents w (e ∷ []) = e ∷ []
pitch_extents w (e ∷ f ∷ es) =
    let rest = pitch_extents w (f ∷ es) in mul_w w e (get_or rest 0 0) ∷ rest

-- The second loop of `mapToND`; the last component takes what is left of the linear index.
unfoldable pub map_loop : ℕ → Vec → ℕ → Vec
map_loop w [] linear_idx = linear_idx ∷ []
map_loop w (p ∷ ps) linear_idx =
    linear_idx / p ∷ map_loop w ps (sub_w w linear_idx (mul_w w p (linear_idx / p)))

unfoldable pub map_to_nd : ℕ → Vec → ℕ → Vec
unfolding pitch_extents map_loop
map_to_nd w [] linear_idx = []
map_to_nd w (e ∷ []) linear_idx = linear_idx ∷ []
map_to_nd w (e ∷ f ∷ es) linear_idx = map_loop w (pitch_extents w (f ∷ es)) linear_idx
