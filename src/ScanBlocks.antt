-- ===== src/ScanBlocks.antt =====
-- include/alpaka/onHost/algo/internal/scan.hpp: the kernel that scans each chunk, the kernel that adds the
-- sums of the chunks before, and the recursion of both over the levels. What the threads of a block do
-- between two barriers is taken one thread after the other, as the one thread per block of the host
-- executors does it. The registers of all threads of a block are one array: register i of the thread with
-- frame element f stands at f + i. Addresses count elements.
pub mod Loops
pub mod View
pub mod Totals
pub mod Shared
pub mod Registers
pub mod Tuned
pub mod Load
pub mod Increments
pub mod Writes
pub mod Chunk
pub mod Scanned
pub mod Kernel
pub mod Calls
pub mod Levels
mod Examples
use alpaka.Base.{
  ◌>>=◌, ℕ, zero, suc, ◌+◌, ◌-◌, ◌*◌, ◌/◌, ◌%◌, min, Bool, true, false, not, ◌&&◌, ◌||◌, List, [],
  ◌∷◌, Option, none, some, ltb, ◌==◌, if◌then◌else◌, add_w, sub_w, mul_w,
}
use alpaka.Util.{div_ceil}
use alpaka.Scan.{Block, store, scan_mini_block, add_increments, chunk_size}

-- A counted loop from i on, and one whose rounds may run out of fuel.
unfoldable pub for_in : {S : Type 0} → ℕ → (ℕ → S → S) → ℕ → S → S
for_in zero body i s = s
for_in (suc rounds) body i s = for_in rounds body (i + 1) (body i s)

unfoldable pub for_try : {S : Type 0} → ℕ → (ℕ → S → Option S) → ℕ → S → Option S
for_try zero body i s = some s
for_try (suc rounds) body i s = do s' ← body i s; for_try rounds body (i + 1) s'

pub data ScanType : Type 0 where
  exclusive_scan inclusive_scan : ScanType

-- The threads of a block, `maximumMiniBlockSize` and the size of a warp.
pub record Config : Type 0 where
  pub num_threads : ℕ
  pub maximum_mini_block_size : ℕ
  pub warp_size : ℕ

unfoldable pub els_per_thread : Config → ℕ
els_per_thread c = chunk_size / c.num_threads

unfoldable pub chunk_extent : Config → ℕ
unfolding els_per_thread
chunk_extent c = els_per_thread c * c.num_threads

unfoldable pub mini_block_size : Config → ℕ
unfolding els_per_thread
mini_block_size c = min c.maximum_mini_block_size (els_per_thread c)

unfoldable pub mini_blocks_per_chunk : Config → ℕ
unfolding chunk_extent mini_block_size
mini_blocks_per_chunk c = chunk_extent c / mini_block_size c

-- The rounds of a loop over the miniblocks of a thread.
unfoldable pub mini_block_rounds : Config → ℕ
unfolding els_per_thread mini_block_size
mini_block_rounds c = (els_per_thread c + mini_block_size c - 1) / mini_block_size c

unfoldable pub conflict_free_access : ℕ → ℕ → ℕ
conflict_free_access warp_size n = n + n / warp_size

-- The arguments of `scanBlocks`: where the vectors begin, the number of elements, and the chunks.
pub record ScanTask : Type 0 where
  pub scan_type : ScanType
  pub input : ℕ
  pub output : ℕ
  pub block_sums : Option ℕ
  pub num_elements : ℕ
  pub num_chunks : ℕ

abbrev pub level_task : ScanType → ℕ → ℕ → ℕ → ℕ → Option ℕ → ScanTask
level_task scan_type output input num_elements num_chunks sums = record {
  scan_type = scan_type;
  input = input;
  output = output;
  block_sums = sums;
  num_elements = num_elements;
  num_chunks = num_chunks;
}

-- `frameOffset + frameElem + i`
unfoldable pub position : ℕ → ℕ → ℕ → ℕ → ℕ
position w frame_offset frame_elem i = add_w w (add_w w frame_offset frame_elem) i

-- `block + n` for a pointer: what a function makes of the elements from n on.
unfoldable pub paste : {A : Type 0} → ℕ → Block A → Block A → Block A
paste n later block j = if ltb j n then block j else later (j - n)

-- The test of both copies: `(!lastFrameFull && isLastFrame) || elsPerThread % 4 != 0`.
unfoldable pub elementwise : ℕ → Config → ScanTask → ℕ → Bool
unfolding els_per_thread chunk_extent
elementwise w c t chunk_idx =
    let valid_elements = sub_w w t.num_elements 1 % chunk_extent c + 1 in
    let last_frame_full = valid_elements == chunk_extent c in
    let is_last_frame = chunk_idx == sub_w w t.num_chunks 1 in
    (not last_frame_full && is_last_frame) || not (els_per_thread c % 4 == 0)

module _ {A : Type 0} (add : A → A → A) (nil : A) where
  -- The copy to the registers of a thread, element by element or four at a time.
  unfoldable pub load_elements : ℕ → Config → ScanTask → ℕ → ℕ → Block A → Block A → Block A
  unfolding els_per_thread for_in position store
  load_elements w c t frame_offset frame_elem memory =
      for_in (els_per_thread c)
        (λ i reg. store reg (frame_elem + i) (
          if ltb (position w frame_offset frame_elem i) t.num_elements
          then memory (t.input + position w frame_offset frame_elem i)
          else nil))
        0

  unfoldable pub load_packs : ℕ → Config → ScanTask → ℕ → ℕ → Block A → Block A → Block A
  unfolding els_per_thread for_in position store
  load_packs w c t frame_offset frame_elem memory =
      for_in (els_per_thread c / 4)
        (λ r.
          for_in 4
            (λ l reg.
              store reg (frame_elem + 4 * r + l)
                (memory (t.input + position w frame_offset frame_elem (4 * r) + l)))
            0)
        0

  -- The miniblocks of a thread are scanned, and their sums written to the shared memory.
  unfoldable pub scan_mini_blocks : ℕ → Config → ℕ → Block A × Block A → Option (Block A × Block A)
  unfolding mini_block_rounds mini_block_size for_try scan_mini_block store paste
      conflict_free_access
  scan_mini_blocks fuel c frame_elem =
      for_try (mini_block_rounds c)
        (λ k (reg, tmp). do
          let n = frame_elem + k * mini_block_size c
          (scanned, mini_block_sum) ←
              scan_mini_block add nil fuel (mini_block_size c) (λ j. reg (n + j))
          some (
            paste n scanned reg,
            store tmp (conflict_free_access c.warp_size (n / mini_block_size c)) mini_block_sum,
          ))
        0

  -- All threads, up to the first barrier.
  unfoldable pub load_threads :
      ℕ → ℕ → Config → ScanTask → ℕ → Block A → Block A × Block A → Option (Block A × Block A)
  unfolding for_try elementwise load_elements load_packs scan_mini_blocks chunk_extent
      els_per_thread
  load_threads w fuel c t chunk_idx memory =
      for_try c.num_threads
        (λ thread (reg, tmp).
          let frame_elem = thread * els_per_thread c in
          let frame_offset = mul_w w (chunk_extent c) chunk_idx in
          scan_mini_blocks fuel c frame_elem (
            (if elementwise w c t chunk_idx
                then load_elements w c t frame_offset frame_elem memory reg
                else load_packs w c t frame_offset frame_elem memory reg),
            tmp,
          ))
        0

  -- One stage of the up-sweep over the shared memory, and all stages.
  unfoldable pub up_stage : ℕ → ℕ → ℕ → Block A → Block A
  unfolding for_in store conflict_free_access
  up_stage warp_size offset d =
      for_in d
        (λ j tmp.
          let left = conflict_free_access warp_size (offset * (2 * j + 1) - 1) in
          let right = conflict_free_access warp_size (offset * (2 * j + 2) - 1) in
          store tmp right (add (tmp right) (tmp left)))
        0

  unfoldable pub up_stages : ℕ → ℕ → ℕ → ℕ → Block A → Option (Block A)
  unfolding up_stage
  up_stages zero warp_size d offset tmp = none
  up_stages (suc fuel) warp_size d offset tmp = elim (ltb 0 d) [
    | false ↦ some tmp
    | true ↦ up_stages fuel warp_size (d / 2) (offset * 2) (up_stage warp_size offset d tmp)
  ]

  -- One stage of the down-sweep, and all stages.
  unfoldable pub down_stage : ℕ → ℕ → ℕ → Block A → Block A
  unfolding for_in store conflict_free_access
  down_stage warp_size offset d =
      for_in d
        (λ j tmp.
          let left = conflict_free_access warp_size (offset * (2 * j + 1) - 1) in
          let right = conflict_free_access warp_size (offset * (2 * j + 2) - 1) in
          let moved = store tmp left (tmp right) in
          store moved right (add (moved right) (tmp left)))
        0

  unfoldable pub down_stages : ℕ → ℕ → ℕ → ℕ → ℕ → Block A → Option (Block A)
  unfolding down_stage
  down_stages zero warp_size extent d offset tmp = none
  down_stages (suc fuel) warp_size extent d offset tmp = elim (ltb d extent) [
    | false ↦ some tmp
    | true ↦
        down_stages fuel warp_size extent (d * 2) (offset / 2) (down_stage warp_size offset d tmp)
  ]

  -- The sums of the miniblocks before are added to the miniblocks of a thread.
  unfoldable pub add_block_sums : ℕ → Config → ScanTask → ℕ → ℕ → Block A → Block A → Block A
  unfolding for_in mini_block_rounds mini_block_size position conflict_free_access paste
      add_increments
  add_block_sums w c t frame_offset frame_elem tmp =
      for_in (mini_block_rounds c)
        (λ k reg.
          let n = frame_elem + k * mini_block_size c in
          let block_sum =
            if ltb (position w frame_offset frame_elem (k * mini_block_size c)) t.num_elements
            then tmp (conflict_free_access c.warp_size (n / mini_block_size c))
            else nil in
          paste n (add_increments add (mini_block_size c) 0 block_sum (λ j. reg (n + j))) reg)
        0

  -- What is written for an element of the input and a register.
  unfoldable pub result : ScanType → A → A → A
  result exclusive_scan input reg = reg
  result inclusive_scan input reg = add input reg

  -- The copy to the output, element by element or four at a time.
  unfoldable pub write_elements : ℕ → Config → ScanTask → ℕ → ℕ → Block A → Block A → Block A
  unfolding els_per_thread for_in position store result
  write_elements w c t frame_offset frame_elem reg =
      for_in (els_per_thread c)
        (λ i memory.
          let n = position w frame_offset frame_elem i in
          if ltb n t.num_elements
          then store memory (t.output + n)
              (result t.scan_type (memory (t.input + n)) (reg (frame_elem + i)))
          else memory)
        0

  unfoldable pub write_packs : ℕ → Config → ScanTask → ℕ → ℕ → Block A → Block A → Block A
  unfolding els_per_thread for_in position store result
  write_packs w c t frame_offset frame_elem reg =
      for_in (els_per_thread c / 4)
        (λ r memory.
          let n = position w frame_offset frame_elem (4 * r) in
          for_in 4
            (λ l later.
              store later (t.output + n + l)
                (result t.scan_type (memory (t.input + n + l)) (reg (frame_elem + 4 * r + l))))
            0 memory)
        0

  -- All threads, from the last barrier on.
  unfoldable pub write_threads :
      ℕ → Config → ScanTask → ℕ → Block A → Block A × Block A → Block A × Block A
  unfolding for_in elementwise add_block_sums write_elements write_packs chunk_extent els_per_thread
  write_threads w c t chunk_idx tmp =
      for_in c.num_threads
        (λ thread (reg, memory).
          let frame_elem = thread * els_per_thread c in
          let frame_offset = mul_w w (chunk_extent c) chunk_idx in
          let reg' = add_block_sums w c t frame_offset frame_elem tmp reg in
          (
            reg',
            if elementwise w c t chunk_idx
                then write_elements w c t frame_offset frame_elem reg' memory
                else write_packs w c t frame_offset frame_elem reg' memory,
          ))
        0

  unfoldable pub save_sum : ScanTask → ℕ → A → Block A → Block A
  unfolding store
  save_sum t chunk_idx sum memory = elim (t.block_sums) [
    | none ↦ memory
    | some sums ↦ store memory (sums + chunk_idx) sum
  ]

  -- The work of a block on one chunk. What the registers and the shared memory hold before is a parameter.
  unfoldable pub scan_chunk :
      ℕ → ℕ → Config → ScanTask → Block A → Block A → ℕ → Block A → Option (Block A)
  unfolding load_threads up_stages down_stages write_threads save_sum mini_blocks_per_chunk store
      conflict_free_access
  scan_chunk w fuel c t reg tmp chunk_idx memory = do
    let last = conflict_free_access c.warp_size (mini_blocks_per_chunk c - 1)
    (loaded, sums) ← load_threads w fuel c t chunk_idx memory (reg, tmp)
    summed ← up_stages fuel c.warp_size (mini_blocks_per_chunk c / 2) 1 sums
    let saved = save_sum t chunk_idx (summed last) memory
    scanned ←
        down_stages fuel c.warp_size (mini_blocks_per_chunk c) 1 (mini_blocks_per_chunk c / 2)
          (store summed last nil)
    some (write_threads w c t chunk_idx scanned (loaded, saved)).1

  -- `Scan_ScanBlocksKernel`: the chunks in the order in which the blocks take them.
  unfoldable pub scan_blocks_kernel :
      ℕ → ℕ → Config → ScanTask → (ℕ → Block A × Block A) → List ℕ → Block A → Option (Block A)
  unfolding scan_chunk
  scan_blocks_kernel w fuel c t unset [] memory = some memory
  scan_blocks_kernel w fuel c t unset (chunk_idx ∷ order) memory = do
    memory' ← scan_chunk w fuel c t (unset chunk_idx).0 (unset chunk_idx).1 chunk_idx memory
    scan_blocks_kernel w fuel c t unset order memory'

  -- `Scan_AddIncrementsKernel`: the calls of the function by `SimdAlgo::concurrent`, each with the first
  -- element of its pack and the width of the pack.
  unfoldable pub add_increments_kernel : Config → ℕ → ℕ → List (ℕ × ℕ) → Block A → Block A
  unfolding for_in chunk_extent store
  add_increments_kernel c block_sums output [] memory = memory
  add_increments_kernel c block_sums output ((idx, width) ∷ calls) memory =
      add_increments_kernel c block_sums output calls (
        for_in width
          (λ l later.
            store later (output + idx + l)
              (add (memory (output + idx + l)) (memory (block_sums + idx / chunk_extent c))))
          0 memory)

  -- What a launch does not choose itself: the order of the chunks, the calls for the elements, and what
  -- registers and shared memory hold when the work on a chunk begins.
  pub record Environment : Type 0 where
    pub order : ℕ → List ℕ
    pub calls : ℕ → List (ℕ × ℕ)
    pub unset : ℕ → Block A × Block A

  -- `scan(queue, devAcc, exec, buffer, outputVec, inputVec)` on a queue that runs its tasks in their order,
  -- with the buffer from an address on. The second fuel is that of the sweeps.
  unfoldable pub scan_levels :
      ℕ → ℕ → ℕ → Config → Environment → ScanType → ℕ → ℕ → ℕ → ℕ → Block A → Option (Block A)
  unfolding scan_blocks_kernel add_increments_kernel div_ceil
  scan_levels w zero stages c e scan_type buffer output input num_elements memory = none
  scan_levels w (suc fuel) stages c e scan_type buffer output input num_elements memory =
      let num_chunks = div_ceil w num_elements chunk_size in
      let task = level_task scan_type output input num_elements num_chunks in
      elim (ltb 1 num_chunks) [
        | false ↦ scan_blocks_kernel w stages c (task none) e.unset (e.order num_chunks) memory
        | true ↦ (do
          scanned ←
              scan_blocks_kernel w stages c (task (some buffer)) e.unset (e.order num_chunks) memory
          increments ←
              scan_levels w fuel stages c e exclusive_scan (buffer + num_chunks) buffer buffer
                num_chunks scanned
          some (add_increments_kernel c buffer output (e.calls num_elements) increments))
      ]
