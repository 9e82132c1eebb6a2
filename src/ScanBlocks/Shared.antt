-- ===== src/ScanBlocks/Shared.antt =====
-- scan.hpp: the sweeps over the shared memory of a block.
use mathlib.Core.Option
use mathlib.Core.Option.{some-injective}
use alpaka.Base.{ℕ, ◌-◌, ◌/◌, ◌^◌, ◌<◌, ◌≡◌, refl, ap, ◌∙◌, Option, none, some, lt→ltb}
use alpaka.Scan.{Block, store, down_sweep}
use alpaka.Scan.Prefix.{IsSum, prefix, prefixed, sweeps_lem}
use alpaka.ScanBlocks.{conflict_free_access, up_stages, down_stages}
use alpaka.ScanBlocks.View.{view, view-store, view-up_stages, view-down_stages}

option_found :
    {A B : Type 0} (f : A → B) (o : Option A) (b : B)
    → Option.map f o ≡ some b
    → (a : A) × (o ≡ some a) × (f a ≡ b)
option_found f none b h = cc
option_found f (some a) b h = (a, refl, some-injective (f a) b h)

module _ {A : Type 0} (add : A → A → A) (nil : A) (laws : IsSum add nil) (warp : ℕ)
    (pos : 0 < warp) where
  -- Both sweeps over the padded addresses of 2 ^ q elements.
  pub shared_sweeps :
      (fuel q : ℕ) (tmp : Block A)
      → q < fuel
      → (summed scanned : Block A) × (up_stages add nil fuel warp (2 ^ q / 2) 1 tmp ≡ some summed)
        × (summed (conflict_free_access warp (2 ^ q - 1)) ≡ prefix add nil (2 ^ q) (view warp tmp))
        × (down_stages add nil fuel warp
              (2 ^ q)
              1
              (2 ^ q / 2)
              (store summed (conflict_free_access warp (2 ^ q - 1)) nil)
            ≡ some scanned)
        × ((b : ℕ)
            → b < 2 ^ q
            → scanned (conflict_free_access warp b) ≡ prefix add nil b (view warp tmp))
  unfolding view
  shared_sweeps fuel q tmp h =
      let (bare, up, last, down) = sweeps_lem add nil laws fuel q (view warp tmp) h in
      let (summed, found, same) =
        option_found (view warp) (up_stages add nil fuel warp (2 ^ q / 2) 1 tmp) bare
          (view-up_stages add nil warp pos fuel (2 ^ q / 2) 1 tmp ∙ up) in
      let (scanned, found', same') =
        option_found (view warp)
          (down_stages add nil fuel warp (2 ^ q) 1 (2 ^ q / 2)
            (store summed (conflict_free_access warp (2 ^ q - 1)) nil))
          (prefixed add nil laws q (view warp tmp))
          (view-down_stages add nil warp pos fuel (2 ^ q) 1 (2 ^ q / 2)
              (store summed (conflict_free_access warp (2 ^ q - 1)) nil)
            ∙ ap (down_sweep add fuel (2 ^ q) 1 (2 ^ q / 2)) (
                view-store warp pos summed (2 ^ q - 1) nil
                ∙ ap (λ (g : Block A). store g (2 ^ q - 1) nil) same)
            ∙ down) in
      (
        summed,
        scanned,
        found,
        ap (λ (g : Block A). g (2 ^ q - 1)) same ∙ last,
        found',
        λ b less. ap (λ (g : Block A). g b) same' ∙ (rw (lt→ltb b (2 ^ q) less) refl),
      )
