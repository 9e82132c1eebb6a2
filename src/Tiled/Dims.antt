-- ===== src/Tiled/Dims.antt =====
-- TiledIdxContainer.hpp: the numbers of the steps in each selected dimension, and one step of a dimension.
use native.Mathlib.Nat.{le-div_iff_mul-le}
use alpaka.Base.{
  ℕ, suc, ◌+◌, ◌-◌, ◌*◌, ◌/◌, ◌^◌, ◌<◌, ◌≤◌, ◌≡◌, ◌∙◌, List, [], ◌∷◌, map, arith, leb, le→leb,
  lt→leb_false, add_w, wrap_small, dec_lt,
}
use alpaka.Vec.{Vec}

-- One selected dimension of an iterator: where it begins, how far it steps, and where it ends.
pub record Dim : Type 0 where
  pub first : ℕ
  pub stride : ℕ
  pub extent : ℕ

-- How many indices the dimension has.
abbrev pub num_steps : Dim → ℕ
num_steps d = (d.extent - d.first + d.stride - 1) / d.stride

-- The stride is positive and a step from below the extent does not wrap around.
abbrev pub IsDim : ℕ → Dim → Type 0
IsDim w d = (0 < d.stride) × (d.extent + d.stride ≤ 2 ^ w)

abbrev pub IsBox : ℕ → List Dim → Type 0
IsBox w [] = Unit {0}
IsBox w (d ∷ ds) = IsDim w d × IsBox w ds

abbrev pub counts : List Dim → Vec
counts ds = map num_steps ds

abbrev pub coordinate : Dim → ℕ → ℕ
coordinate d k = d.first + k * d.stride

-- The components after the given numbers of steps.
unfoldable pub place : List Dim → Vec → Vec
place (d ∷ ds) (k ∷ ks) = coordinate d k ∷ place ds ks
place _ _ = []

pub coordinate-lt :
    (w : ℕ) (d : Dim) (k : ℕ) → IsDim w d → k < num_steps d → coordinate d k < d.extent
coordinate-lt w d k b h = omega (arith, (le-div_iff_mul-le {x = suc k} b.0).0 h)

pub coordinate-le :
    (w : ℕ) (d : Dim) (k : ℕ) → IsDim w d → num_steps d ≤ k → d.extent ≤ coordinate d k
coordinate-le w d k b h = elim (dec_lt (coordinate d k) d.extent) [
  | yes less ↦ absurd (
      omega (
        arith,
        (le-div_iff_mul-le {x = suc k} {y = d.extent - d.first + d.stride - 1} b.0).1 (omega arith),
      ))
  | no more ↦ omega arith
]

pub num_steps-lt : (w : ℕ) (d : Dim) → IsDim w d → num_steps d < 2 ^ w
num_steps-lt w d b = elim (dec_lt d.extent (num_steps d)) [
  | yes less ↦ absurd (wide (coordinate-lt w d d.extent b less))
  | no more ↦ omega arith
]
  where
    wide : d.first + d.extent * d.stride < d.extent → ⊥
    wide h = grind (arith, b.0)

-- One step of a coordinate, and the test that follows it.
pub coordinate_step :
    (w : ℕ) (d : Dim) (k : ℕ)
    → IsDim w d
    → k < num_steps d
    → add_w w (coordinate d k) d.stride ≡ coordinate d (k + 1)
coordinate_step w d k b h =
    wrap_small w {n = d.first + k * d.stride + d.stride}
      (omega (arith, coordinate-lt w d k b h, b.1))
    ∙ omega arith

pub test_exact :
    (w : ℕ) (d : Dim) (k : ℕ) → IsDim w d → leb d.extent (coordinate d k) ≡ leb (num_steps d) k
test_exact w d k b = elim (dec_lt k (num_steps d)) [
  | yes less ↦
      rw (lt→leb_false (num_steps d) k less)
        (lt→leb_false d.extent (coordinate d k) (coordinate-lt w d k b less))
  | no more ↦
      rw (le→leb (num_steps d) k (omega arith))
        (le→leb d.extent (coordinate d k) (coordinate-le w d k b (omega arith)))
]
