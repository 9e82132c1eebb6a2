-- ===== src/ScanBlocks/Scanned.antt =====
-- scan.hpp: the work on a chunk as a whole.
use mathlib.Core.Option.{some-injective}
use alpaka.Base.{
  ◌>>=◌, ℕ, ◌+◌, ◌-◌, ◌*◌, ◌/◌, ◌^◌, ◌<◌, ◌≤◌, ◌≡◌, ◌≢◌, refl, sym, ap, ◌∙◌, arith, Option, none,
  some,
}
use alpaka.Scan.{Block, store}
use alpaka.Scan.Sweep.{store_same, store_other}
use alpaka.Scan.Prefix.{IsSum, prefix, total-ext}
use alpaka.ScanBlocks.{
  Config, ScanTask, conflict_free_access, load_threads, up_stages, down_stages, write_threads,
  save_sum, scan_chunk,
}
use alpaka.ScanBlocks.View.{view}
use alpaka.ScanBlocks.Totals.{block_total, prefix_all}
use alpaka.ScanBlocks.Shared.{shared_sweeps}
use alpaka.ScanBlocks.Registers.{IsLoaded}
use alpaka.ScanBlocks.Tuned.{IsTuned, IsPart, chunk_size_lem, num_blocks_lem}
use alpaka.ScanBlocks.Load.{load_threads_lem}
use alpaka.ScanBlocks.Increments.{value}
use alpaka.ScanBlocks.Writes.{Apart, IsWritten}
use alpaka.ScanBlocks.Chunk.{Room, IsScanned, write_threads_lem}

save_sum_lem :
    {A : Type 0} (add : A → A → A) (nil : A) (t : ScanTask) (k : ℕ) (sum : A) (memory : Block A)
    → ((s : ℕ) → t.block_sums ≡ some s → save_sum add nil t k sum memory (s + k) ≡ sum)
      × ((a : ℕ)
          → ((s : ℕ) → t.block_sums ≡ some s → a ≢ s + k)
          → save_sum add nil t k sum memory a ≡ memory a)
unfolding save_sum
save_sum_lem {A} add nil t k sum memory = split t.block_sums refl
  where
    split :
        (o : Option ℕ)
        → t.block_sums ≡ o
        → ((s : ℕ) → t.block_sums ≡ some s → save_sum add nil t k sum memory (s + k) ≡ sum)
          × ((a : ℕ)
              → ((s : ℕ) → t.block_sums ≡ some s → a ≢ s + k)
              → save_sum add nil t k sum memory a ≡ memory a)
    split none e = (λ s f. cc, λ a h. (rw (e, save_sum) refl))
    split (some r) e = (
      λ s f.
          rw (e, save_sum)
            (ap (λ n. store memory (r + k) sum (n + k)) {y = r} (some-injective s r (sym f ∙ e))
              ∙ store_same memory (r + k) sum),
      λ a h. (rw (e, save_sum) (store_other memory (r + k) a sum (h r e))),
    )

module _ {A : Type 0} (add : A → A → A) (nil : A) (laws : IsSum add nil) (w : ℕ) (c : Config)
    (t : ScanTask) (k : ℕ) (u : IsTuned c) (p : IsPart w t k) (memory : Block A) (apart : Apart t)
    (room : Room t) where
  abbrev chunk : ℕ → A
  chunk = value add nil laws w c t k u p memory

  -- The work on a chunk with a given number of miniblocks.
  abbrev chunk_work : ℕ → Block A × Block A → ℕ → Option (Block A)
  chunk_work fuel unset blocks = do
    let last = conflict_free_access c.warp_size (blocks - 1)
    (loaded, sums) ← load_threads add nil w fuel c t k memory unset
    summed ← up_stages add nil fuel c.warp_size (blocks / 2) 1 sums
    let saved = save_sum add nil t k (summed last) memory
    scanned ← down_stages add nil fuel c.warp_size blocks 1 (blocks / 2) (store summed last nil)
    some (write_threads add nil w c t k scanned (loaded, saved)).1

  scan_chunk-work :
      (fuel : ℕ) (reg tmp : Block A)
      → scan_chunk add nil w fuel c t reg tmp k memory ≡ chunk_work fuel (reg, tmp) (2 ^ u.shared)
  unfolding scan_chunk
  scan_chunk-work fuel reg tmp = ap (chunk_work fuel (reg, tmp)) (num_blocks_lem c u)

  -- From the loaded registers and the sums of the miniblocks on.
  work_after_load :
      (reg sums scanned : Block A) (sum : A)
      → IsLoaded add nil laws c.warp_size u.mini u.has_warp chunk
          (2 ^ u.shared)
          (2 ^ u.shared)
          (reg, sums)
      → ((b : ℕ)
          → b < 2 ^ u.shared
          → scanned (conflict_free_access c.warp_size b) ≡ prefix add nil b (view c.warp_size sums))
      → sum ≡ prefix add nil (2 ^ u.shared) (view c.warp_size sums)
      → IsScanned add nil laws w c t k u p memory
          (write_threads add nil w c t k scanned (reg, save_sum add nil t k sum memory)).1
  unfolding view
  work_after_load reg sums scanned sum loaded each whole = record {
    inside = written.inside;
    total = λ s f.
        written.outside (s + k) (λ g lo hi z e. omega (arith, e, (room s f).1))
        ∙ (save_sum_lem add nil t k sum memory).0 s f
        ∙ whole
        ∙ block_sums (2 ^ u.shared) (omega arith)
        ∙ prefix_all add nil laws (2 ^ u.mini) (2 ^ u.shared) chunk
        ∙ ap (λ n. prefix add nil n chunk) (chunk_size_lem c u);
    outside = λ a h r. written.outside a h ∙ (save_sum_lem add nil t k sum memory).1 a r;
  }
    where
      block_sums :
          (b : ℕ)
          → b ≤ 2 ^ u.shared
          → prefix add nil b (view c.warp_size sums)
            ≡ prefix add nil b (block_total add nil laws (2 ^ u.mini) chunk)
      block_sums b h =
          total-ext add nil laws b (view c.warp_size sums) _ (λ i z. loaded.sums i (omega arith))

      kept :
          (g : ℕ)
          → g < t.num_elements
          → save_sum add nil t k sum memory (t.input + g) ≡ memory (t.input + g)
      kept g h =
          (save_sum_lem add nil t k sum memory).1 (t.input + g)
            (λ s f e. omega (arith, e, (room s f).0))

      written :
          IsWritten add nil laws w c t k u p memory
            (save_sum add nil t k sum memory)
            apart
            kept
            (k * 2048 + 2048)
            (write_threads add nil w c t k scanned (reg, save_sum add nil t k sum memory)).1
      written =
          write_threads_lem add nil laws w c t k u p memory (save_sum add nil t k sum memory) apart
            kept scanned (λ b h. each b h ∙ block_sums b (omega arith)) reg
            (record {
              final = λ b r z. absurd (omega arith);
              rest = λ b r lo hi z. loaded.scanned b r hi z;
            })

  pub scan_chunk_lem :
      (fuel : ℕ) (reg tmp : Block A)
      → u.mini < fuel
      → u.shared < fuel
      → (after : Block A) × (scan_chunk add nil w fuel c t reg tmp k memory ≡ some after)
        × IsScanned add nil laws w c t k u p memory after
  scan_chunk_lem fuel reg tmp h g =
      let (v, found, loaded) = load_threads_lem add nil w c t k u p memory laws fuel (reg, tmp) h in
      let (summed, scanned, up, last, down, each) =
        shared_sweeps add nil laws c.warp_size u.has_warp fuel u.shared v.1 g in
      let sum = summed (conflict_free_access c.warp_size (2 ^ u.shared - 1)) in
      (
        (write_threads add nil w c t k scanned (v.0, save_sum add nil t k sum memory)).1,
        scan_chunk-work fuel reg tmp ∙ (rw (found, up, down) refl),
        work_after_load v.0 v.1 scanned sum loaded each last,
      )
