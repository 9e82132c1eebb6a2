-- ===== src/Memset.antt =====
-- include/alpaka/api/host/Queue.hpp, Memset: the rows of bytes that a memset of a host queue writes.
pub mod Covers
mod Examples
use mathlib.Core.Option
use alpaka.Base.{ℕ, true, false, List, [], ◌∷◌, map, Option, some, ◌==◌, mul_w}
use alpaka.Vec.{Vec, product, sum, vec_mul, back, erase_back}
use alpaka.NdLoop.{nd_loop_inc_idx}

-- `(idx * destPitchBytesWithoutColumn).sum()` and the number of bytes of a row. Everything is size_t.
unfoldable pub memset_row : ℕ → Vec → Vec → Vec → ℕ × ℕ
unfolding sum vec_mul erase_back back
memset_row size pitches extents idx =
    (sum 64 (vec_mul 64 idx (erase_back pitches)), mul_w 64 (back extents) size)

-- The calls of `std::memset`, each as offset and number of bytes.
unfoldable pub memset_rows : ℕ → Vec → Vec → Option (List (ℕ × ℕ))
unfolding product memset_row nd_loop_inc_idx
memset_rows size pitches [] = some []
memset_rows size pitches (e ∷ []) = elim (product 64 (e ∷ []) == 0) [
  | true ↦ some []
  | false ↦ some ((0, mul_w 64 e size) ∷ [])
]
memset_rows size pitches (e ∷ f ∷ es) = elim (product 64 (e ∷ f ∷ es) == 0) [
  | true ↦ some []
  | false ↦
      Option.map (map (memset_row size pitches (e ∷ f ∷ es)))
        (nd_loop_inc_idx 64 (erase_back (e ∷ f ∷ es)))
]
