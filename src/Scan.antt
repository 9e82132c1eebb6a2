-- ===== src/Scan.antt =====
-- include/alpaka/onHost/algo/internal/scan.hpp: the prefix sums of a miniblock, and the buffer and the
-- launches of the scan over all chunks. `+` and `T_Data{0}` are parameters.
pub mod Sweep
pub mod Rounds
pub mod Fuel
pub mod Prefix
pub mod Need
pub mod Buffer
mod Examples
use mathlib.Core.Option
use alpaka.Base.{
  ◌>>=◌, ℕ, zero, suc, ◌+◌, ◌-◌, ◌*◌, ◌/◌, Bool, true, false, List, [], ◌∷◌, ◌++◌, Option, none,
  some, ltb, leb, ◌==◌, if◌then◌else◌, add_w, sub_w, mul_w,
}
use alpaka.Util.{div_ceil}

-- What a pointer to T_Data points to, by the index.
abbrev pub Block : Type 0 → Type 0
Block A = ℕ → A

unfoldable pub store {ℓ} : {A : Type ℓ} → (ℕ → A) → ℕ → A → ℕ → A
store block i v j = if j == i then v else block j

module _ {A : Type 0} (add : A → A → A) where
  -- `block[right] += block[left]`, for the given number of frame elements, the first at 2 * j.
  unfoldable pub up_inner : ℕ → ℕ → ℕ → Block A → Block A
  unfolding store
  up_inner offset zero j block = block
  up_inner offset (suc rounds) j block =
      let left = offset * (2 * j + 1) - 1 in
      let right = offset * (2 * j + 2) - 1 in
      up_inner offset rounds (j + 1) (store block right (add (block right) (block left)))

  -- The up-sweep from some d and offset on; `none` if the fuel runs out.
  unfoldable pub up_sweep : ℕ → ℕ → ℕ → Block A → Option (Block A)
  unfolding up_inner
  up_sweep zero d offset block = none
  up_sweep (suc fuel) d offset block = elim (ltb 0 d) [
    | false ↦ some block
    | true ↦ up_sweep fuel (d / 2) (offset * 2) (up_inner offset d 0 block)
  ]

  -- `t = block[left]; block[left] = block[right]; block[right] += t`.
  unfoldable pub down_inner : ℕ → ℕ → ℕ → Block A → Block A
  unfolding store
  down_inner offset zero j block = block
  down_inner offset (suc rounds) j block =
      let left = offset * (2 * j + 1) - 1 in
      let right = offset * (2 * j + 2) - 1 in
      let t = block left in
      let moved = store block left (block right) in
      down_inner offset rounds (j + 1) (store moved right (add (moved right) t))

  -- The down-sweep from some d and offset on.
  unfoldable pub down_sweep : ℕ → ℕ → ℕ → ℕ → Block A → Option (Block A)
  unfolding down_inner
  down_sweep zero extent d offset block = none
  down_sweep (suc fuel) extent d offset block = elim (ltb d extent) [
    | false ↦ some block
    | true ↦ down_sweep fuel extent (d * 2) (offset / 2) (down_inner offset d 0 block)
  ]

  -- `scanMiniBlock(block, extent)`: the block afterwards, and the total sum.
  unfoldable pub scan_mini_block : A → ℕ → ℕ → Block A → Option (Block A × A)
  unfolding up_sweep down_sweep store
  scan_mini_block nil fuel extent block = do
    summed ← up_sweep fuel (extent / 2) 1 block
    let block_sum = summed (extent - 1)
    scanned ← down_sweep fuel extent 1 (extent / 2) (store summed (extent - 1) nil)
    some (scanned, block_sum)

  -- `addIncrements(block, blockSum, extent)`: the loop from i on.
  unfoldable pub add_increments : ℕ → ℕ → A → Block A → Block A
  unfolding store
  add_increments zero i block_sum block = block
  add_increments (suc rounds) i block_sum block =
      add_increments rounds (i + 1) block_sum (store block i (add (block i) block_sum))

-- `chunkSize`
abbrev pub chunk_size : ℕ
chunk_size = 2048

-- The loop of `scanBufferSize`: the number of elements of the buffer.
unfoldable pub buffer_loop : ℕ → ℕ → ℕ → ℕ → Option ℕ
unfolding div_ceil
buffer_loop w zero elements buf_size = none
buffer_loop w (suc fuel) elements buf_size = elim (ltb 1 elements) [
  | false ↦ some buf_size
  | true ↦ buffer_loop w fuel (div_ceil w elements chunk_size) (add_w w buf_size elements)
]

-- `scanBufferSize<T_Data>(extent)`, in bytes.
unfoldable pub scan_buffer_size : ℕ → ℕ → ℕ → ℕ → Option ℕ
unfolding buffer_loop div_ceil
scan_buffer_size w fuel sizeof extent =
    Option.map (λ buf_size. mul_w w buf_size sizeof)
      (buffer_loop w fuel (div_ceil w extent chunk_size) 0)

-- The launches of a scan: what is scanned in place, and where the sums of its chunks stand.
pub data Launch : Type 0 where
  -- `scanBlocks` over an extent, with the number of chunks, and where the increments begin in the buffer.
  scan_blocks : ℕ → ℕ → Option ℕ → Launch
  -- `addIncrements` over an extent with the increments at an offset of the buffer.
  add_increments_kernel : ℕ → ℕ → Launch

-- `scan(queue, ..., buffer, outputVec, inputVec)` with a buffer of bytes that begins at an offset: the
-- launches in the order of their enqueueing. The outer `none` is a failing assertion or the end of the
-- fuel.
unfoldable pub scan : ℕ → ℕ → ℕ → ℕ → ℕ → ℕ → Option (List Launch)
unfolding div_ceil
scan w zero sizeof offset buffer extent = none
scan w (suc fuel) sizeof offset buffer extent =
    let num_chunks = div_ceil w extent chunk_size in
    let buf_size_bytes = mul_w w num_chunks sizeof in
    elim (ltb 1 num_chunks) [
      | false ↦ some (scan_blocks extent num_chunks none ∷ [])
      | true ↦ elim (leb buf_size_bytes buffer) [
        | false ↦ none
        | true ↦
            Option.map
              (λ inner.
                scan_blocks extent num_chunks (some offset)
                ∷ (inner ++ (add_increments_kernel extent offset ∷ [])))
              (scan w fuel sizeof (offset + buf_size_bytes) (sub_w w buffer buf_size_bytes)
                num_chunks)
      ]
    ]
