-- ===== src/SimdConcurrent/Calls.antt =====
-- SimdConcurrent.hpp: the calls of the function, the elements of a call, and what the loops of a worker
-- must respect.
use alpaka.Base.{ℕ, suc, ◌+◌, ◌<◌, ◌≤◌, ◌≡◌, arith, List, [], ◌∷◌, some, length, get_or}
use alpaka.Vec.{Vec}
use alpaka.Vec.Linear.{InBounds}
use alpaka.Tiled.{visited}
use alpaka.SimdConcurrent.{SimdPolicy, pack_range, make_idx_map, pack_calls, element_calls}
use alpaka.SimdConcurrent.Packs.{concat, AllLength}

-- The pack that begins at an index has the element of another: the same row, and less than the width
-- before it.
abbrev pub Holds : ℕ → Vec → Vec → Type 0
Holds width (b ∷ []) (x ∷ []) = (b ≤ x) × (x < b + width)
Holds width (b ∷ c ∷ bs) (x ∷ y ∷ xs) = (b ≡ x) × Holds width (c ∷ bs) (y ∷ xs)
Holds width _ _ = ⊥

-- All elements of the pack that begins at an index lie within the extents.
abbrev pub PackInBounds : ℕ → Vec → Vec → Type 0
PackInBounds width (e ∷ []) (b ∷ []) = b + width ≤ e
PackInBounds width (e ∷ f ∷ es) (b ∷ c ∷ bs) = (b < e) × PackInBounds width (f ∷ es) (c ∷ bs)
PackInBounds width _ _ = ⊥

abbrev pub All : (Vec → Type 0) → List Vec → Type 0
All P [] = Unit {0}
All P (v ∷ vs) = P v × All P vs

pub All-get_or :
    (P : Vec → Type 0) (vs : List Vec) → ((j : ℕ) → j < length vs → P (get_or vs j [])) → All P vs
All-get_or P [] h = tt
All-get_or P (v ∷ vs) h = (h 0 (omega arith), All-get_or P vs (λ j q. h (suc j) (omega arith)))

-- A call of the function, by its worker and its place in the worker's loop: with a pack or with one
-- element.
pub data Call : Type 0 where
  pack element : Vec → ℕ → Call

-- The call is made, and the element of an index is in its pack, wherever the pack begins, or is its
-- element.
abbrev pub Handles : ℕ → SimdPolicy → Vec → Vec → Call → Vec → Type 0
Handles w p threads extents (Call.pack us j) x =
    InBounds threads us
    × (fuel : ℕ) × (rounds : List (List Vec)) × (pack_calls w fuel p
          (record { m_thread_idx = us; m_thread_count = threads }) extents
        ≡ some rounds)
    × (j < length (concat rounds))
    × Holds p.simd_width (get_or (concat rounds) j []) x
Handles w p threads extents (Call.element us j) x =
    InBounds threads us
    × (fuel : ℕ) × (indices : List Vec) × (element_calls w fuel p
          (record { m_thread_idx = us; m_thread_count = threads }) extents
        ≡ some indices)
    × (j < length indices)
    × (get_or indices j [] ≡ x)

-- The loops of a worker end. Each call has all its packs, every pack lies within the extents, and the
-- packs of all calls are those of a loop over the same container that tests for the end before each
-- increment. The single elements lie within the extents.
abbrev pub StaysInside : ℕ → SimdPolicy → Vec → Vec → Vec → Type 0
StaysInside w p threads extents us =
    (fuel : ℕ) × (rounds : List (List Vec)) × (pack_calls w fuel p
        (record { m_thread_idx = us; m_thread_count = threads }) extents
      ≡ some rounds)
    × AllLength p.num_simd_per_fn_call rounds
    × All (PackInBounds p.simd_width extents) (concat rounds)
    × (steps : ℕ) × (visited w steps (
          make_idx_map p (record { m_thread_idx = us; m_thread_count = threads })
            (pack_range w p (record { m_thread_idx = us; m_thread_count = threads }) extents))
        ≡ some (concat rounds))
    × (fuel' : ℕ) × (indices : List Vec) × (element_calls w fuel' p
          (record { m_thread_idx = us; m_thread_count = threads }) extents
        ≡ some indices)
    × All (InBounds extents) indices
