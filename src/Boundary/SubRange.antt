-- ===== src/Boundary/SubRange.antt =====
-- IdxRange.hpp, makeDirectionSubRange: the sub-ranges of the directions are a partition.
use native.Mathlib.Nat.{pow-le-pow_right, add-zero}
use mathlib.Core.List.{append-nil}
use alpaka.Base.{
  ℕ, zero, suc, ◌+◌, ◌-◌, ◌^◌, ◌<◌, ◌≤◌, ◌≡◌, refl, sym, ap, ◌∙◌, Bool, true, false, ◌&&◌, List, [],
  ◌∷◌, ◌++◌, map, Option, none, some, arith, if◌then◌else◌, ltb, leb, wrap, sub_w, add_w,
  wrap_small, wrap-add_modulus,
}
use alpaka.Vec.{Vec}
use alpaka.Boundary.{BoundaryType, lower, middle, upper, BoundaryVec, sub_bounds, sub_range_loop}
use alpaka.Boundary.Iteration.{directions}

-- The point lies between begin and end in each dimension.
unfoldable pub inside : Vec → Vec → Vec → Bool
inside (b ∷ bs) (e ∷ es) (p ∷ ps) = (leb b p && ltb p e) && inside bs es ps
inside _ _ _ = true

abbrev pub in_bounds_of : Option (Vec × Vec) → Vec → Bool
in_bounds_of none p = false
in_bounds_of (some (bs, es)) p = inside bs es p

-- How many of the directions have a sub-range that holds the point.
unfoldable pub holders : ℕ → Vec → Vec → Vec → Vec → List BoundaryVec → Vec → ℕ
unfolding inside
holders w bs es los his [] p = 0
holders w bs es los his (v ∷ vs) p =
    (if in_bounds_of (sub_range_loop w v bs es los his) p then 1 else 0)
    + holders w bs es los his vs p

-- A volume of n dimensions with 32-bit bounds, whose halos do not overlap, and a point of it.
abbrev pub IsVolume : ℕ → ℕ → Vec → Vec → Vec → Vec → Vec → Type 0
IsVolume w zero [] [] [] [] [] = Unit {0}
IsVolume w (suc n) (b ∷ bs) (e ∷ es) (lo ∷ los) (hi ∷ his) (p ∷ ps) =
    (b + lo + hi ≤ e) × (e < 2 ^ 32) × (b ≤ p) × (p < e) × IsVolume w n bs es los his ps
IsVolume w _ _ _ _ _ _ = ⊥

-- The number of holders among directions with first component t.
unfoldable pub component : ℕ → BoundaryType → ℕ → ℕ → ℕ → ℕ → ℕ → Bool
component w t b e lo hi p = elim (sub_bounds w t b e lo hi) [
  | none ↦ false
  | some (sub_begin, sub_end) ↦ leb sub_begin p && ltb p sub_end
]

holders-block :
    (w : ℕ) (t : BoundaryType) (b e lo hi p : ℕ) (bs es los his ps : Vec)
    (vs rest : List BoundaryVec)
    → holders w (b ∷ bs) (e ∷ es) (lo ∷ los) (hi ∷ his) (map (◌∷◌ t) vs ++ rest) (p ∷ ps)
      ≡ (if component w t b e lo hi p then holders w bs es los his vs ps else 0)
        + holders w (b ∷ bs) (e ∷ es) (lo ∷ los) (hi ∷ his) rest (p ∷ ps)
unfolding holders sub_range_loop component
holders-block w t b e lo hi p bs es los his ps [] rest = ground arith
holders-block w t b e lo hi p bs es los his ps (v ∷ vs) rest =
    ground (arith, holders-block w t b e lo hi p bs es los his ps vs rest)

-- In one dimension the point is in one of the three parts.
component-sum :
    (w b e lo hi p : ℕ)
    → 32 ≤ w
    → b + lo + hi ≤ e
    → e < 2 ^ 32
    → b ≤ p
    → p < e
    → (x : ℕ)
    → (if component w lower b e lo hi p then x else 0)
        + ((if component w middle b e lo hi p then x else 0)
            + (if component w upper b e lo hi p then x else 0))
      ≡ x
unfolding component sub_bounds
component-sum w b e lo hi p wide fits small below above x =
    rw (wrap_small 32 {n = b} (omega arith), wrap_small 32 {n = e} (omega arith), low, high)
      (ground arith)
  where
    room : 2 ^ 32 ≤ 2 ^ w
    room = pow-le-pow_right {n = 2} (omega arith) wide

    low : wrap 32 (add_w w b lo) ≡ b + lo
    low = ap (wrap 32) (wrap_small w (omega (arith, room))) ∙ wrap_small 32 (omega arith)

    high : wrap 32 (sub_w w e hi) ≡ e - hi
    high =
        ap (λ t. wrap 32 (wrap w t)) {y = (e - hi) + 2 ^ w} (omega arith)
        ∙ ap (wrap 32) (wrap-add_modulus w (e - hi) ∙ wrap_small w (omega (arith, room)))
        ∙ wrap_small 32 (omega arith)

-- Of the directions of a volume whose halos do not overlap, exactly one has a sub-range that holds a
-- given point of the volume. The bounds are below 2 ^ 32, the range's indices have 32 bits or more.
pub holders-directions :
    (w n : ℕ) (bs es los his p : Vec)
    → 32 ≤ w
    → IsVolume w n bs es los his p
    → holders w bs es los his (directions n) p ≡ 1
unfolding directions holders sub_range_loop
holders-directions w zero [] [] [] [] [] wide h = refl
holders-directions w (suc n) (b ∷ bs) (e ∷ es) (lo ∷ los) (hi ∷ his) (p ∷ ps) wide h =
    holders-block w lower b e lo hi p bs es los his ps (directions n) _
    ∙ ap (◌+◌ (part lower)) (holders-block w middle b e lo hi p bs es los his ps (directions n) _)
    ∙ ap (λ t. part lower + (part middle + t)) upper_block
    ∙ component-sum w b e lo hi p wide h.0 h.1 h.2 h.3 (holders w bs es los his (directions n) ps)
    ∙ holders-directions w n bs es los his ps wide h.4
  where
    part : BoundaryType → ℕ
    part t = if component w t b e lo hi p then holders w bs es los his (directions n) ps else 0

    upper_block :
        holders w (b ∷ bs) (e ∷ es) (lo ∷ los) (hi ∷ his) (map (◌∷◌ upper) (directions n)) (p ∷ ps)
        ≡ part upper
    upper_block =
        ap (λ l. holders w (b ∷ bs) (e ∷ es) (lo ∷ los) (hi ∷ his) l (p ∷ ps)) (sym (append-nil _))
        ∙ holders-block w upper b e lo hi p bs es los his ps (directions n) []
        ∙ add-zero (part upper)
holders-directions w _ _ _ _ _ _ wide h = absurd h
