-- ===== src/Shared/Examples.antt =====
-- Concrete inputs for the theorems on include/alpaka/api/host/block/mem.
use alpaka.Base.{ℕ, ◌+◌, ◌≡◌, ◌++◌, ◌==◌, false, refl, arith, [], ◌∷◌, none, some}
use alpaka.Shared.{Place, Storage, empty, alloc_dynamic, alloc_dynamic_var, get_var_ptr}
use alpaka.Shared.Chunk.{IsPlace, chunk_begin}
use alpaka.Shared.Chain.{IsStorage, found, get_var_ptr-found}
use alpaka.Shared.Alloc.{IsNew, alloc_dynamic-IsStorage, alloc_dynamic_full}
use alpaka.Shared.Again.{alloc_dynamic_var-again}

abbrev a_place : Place
a_place = record { m_data = 4096; min_data_align_bytes = 16; sizeof_meta = 16; alignof_meta = 16 }

abbrev meta_place : IsPlace a_place 16
meta_place = record { low = omega arith; aligns = omega arith; small = omega arith }

abbrev word_place : IsPlace a_place 4
word_place = record { low = omega arith; aligns = omega arith; small = omega arith }

abbrev holds_nothing : IsStorage a_place empty []
holds_nothing = record {
  meta_place = meta_place;
  has_meta = omega arith;
  meta_small = omega arith;
  in_total = omega arith;
  chain = refl;
}

get_var_ptr-found_example : get_var_ptr a_place 5 4 7 empty ≡ some (found 4 7 [])
get_var_ptr-found_example = get_var_ptr-found a_place empty [] 4 7 5 holds_nothing (omega arith)

alloc_dynamic-IsStorage_example :
    (after : Storage) × (alloc_dynamic a_place 4 7 32 empty ≡ some after)
    × IsStorage a_place after ([] ++ ((7, after.m_allocd_bytes) ∷ []))
    × IsNew a_place 4 32 empty after
unfolding chunk_begin
alloc_dynamic-IsStorage_example =
    alloc_dynamic-IsStorage a_place 4 7 32 empty [] word_place (omega arith) holds_nothing
      (omega arith)

alloc_dynamic_full_example : alloc_dynamic a_place 4 7 70000 empty ≡ none
unfolding chunk_begin
alloc_dynamic_full_example =
    alloc_dynamic_full a_place 4 7 70000 empty [] word_place (omega arith) holds_nothing
      (omega arith)

alloc_dynamic_var-again_example :
    (after : Storage) × (p : ℕ) × (alloc_dynamic_var a_place 5 4 4 7 32 empty ≡ some (after, p))
    × (p + 4 ≡ after.m_allocd_bytes)
    × IsNew a_place 4 32 empty after
    × (alloc_dynamic_var a_place 5 4 4 7 32 after ≡ some (after, p))
    × ((j : ℕ)
        → (7 == j) ≡ false
        → get_var_ptr a_place 5 4 j after ≡ get_var_ptr a_place 5 4 j empty)
unfolding chunk_begin found
alloc_dynamic_var-again_example =
    alloc_dynamic_var-again a_place 4 7 32 empty [] word_place (omega arith) holds_nothing 5 4
      (omega arith) (omega arith) refl (omega arith)
