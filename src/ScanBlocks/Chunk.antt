-- ===== src/ScanBlocks/Chunk.antt =====
-- scan.hpp: what a block does to one chunk.
use native.Mathlib.Nat.{mul-le-mul_right}
use alpaka.Base.{
  ℕ, ◌+◌, ◌*◌, ◌^◌, ◌<◌, ◌≤◌, ◌≡◌, ◌≢◌, refl, ap, ◌∙◌, arith, some, subst, if◌then◌else◌, mul_w,
}
use alpaka.Scan.{Block}
use alpaka.Scan.Prefix.{IsSum, prefix}
use alpaka.ScanBlocks.{
  Config, ScanTask, els_per_thread, chunk_extent, conflict_free_access, elementwise, add_block_sums,
  write_elements, write_packs, write_threads,
}
use alpaka.ScanBlocks.Loops.{for_in-each}
use alpaka.ScanBlocks.Totals.{block_total}
use alpaka.ScanBlocks.Tuned.{IsTuned, IsPart}
use alpaka.ScanBlocks.Load.{frame_end}
use alpaka.ScanBlocks.Increments.{value, IsSummed, IsSummed-final, add_block_sums_lem}
use alpaka.ScanBlocks.Writes.{Apart, scan_value, IsWritten, written_lem}

-- The sums of the chunks stand behind the input and the output.
abbrev pub Room : ScanTask → Type 0
Room t =
    (s : ℕ)
    → t.block_sums ≡ some s
    → (t.input + t.num_elements ≤ s) × (t.output + t.num_elements ≤ s)

module _ {A : Type 0} (add : A → A → A) (nil : A) (laws : IsSum add nil) (w : ℕ) (c : Config)
    (t : ScanTask) (k : ℕ) (u : IsTuned c) (p : IsPart w t k) (memory : Block A) where
  module _ (saved : Block A) (apart : Apart t)
      (kept : (g : ℕ) → g < t.num_elements → saved (t.input + g) ≡ memory (t.input + g))
      (tmp : Block A)
      (sums : (b : ℕ)
        → b < 2 ^ u.shared
        → tmp (conflict_free_access c.warp_size b)
          ≡ prefix add nil b
              (block_total add nil laws (2 ^ u.mini) (value add nil laws w c t k u p memory))) where
    abbrev Summed : ℕ → Block A → Type 0
    Summed = IsSummed add nil laws w c t k u p memory

    abbrev Written : ℕ → Block A → Type 0
    Written = IsWritten add nil laws w c t k u p memory saved apart kept

    abbrev registers : ℕ → Block A → Block A
    registers thread reg =
        add_block_sums add nil w c t (mul_w w (chunk_extent c) k) (thread * els_per_thread c) tmp
          reg

    abbrev written : ℕ → Block A → Block A → Block A
    written thread reg after =
        if elementwise w c t k
        then write_elements add nil w c t (mul_w w (chunk_extent c) k) (thread * els_per_thread c)
            reg after
        else write_packs add nil w c t (mul_w w (chunk_extent c) k) (thread * els_per_thread c) reg
            after

    thread_step :
        (thread : ℕ) (reg after : Block A)
        → thread < c.num_threads
        → Summed (thread * u.rounds) reg
        → Written (k * 2048 + thread * els_per_thread c) after
        → Summed ((thread + 1) * u.rounds) (registers thread reg)
          × Written
              (k * 2048 + (thread + 1) * els_per_thread c)
              (written thread (registers thread reg) after)
    thread_step thread reg after less h q = (
      summed,
      subst (λ n. Written (k * 2048 + n) (written thread (registers thread reg) after))
          {x = thread * els_per_thread c + els_per_thread c} (omega arith)
          (written_lem add nil laws w c t k u p memory saved apart kept (thread * els_per_thread c)
            (registers thread reg) fits
            (λ i z y.
              IsSummed-final add nil laws w c t k u p memory ((thread + 1) * u.rounds)
                (thread * els_per_thread c + i) (registers thread reg) summed
                (omega (arith, place, z, u.rounds_exact)) y)
            after q),
    )
      where
        fits : thread * els_per_thread c + els_per_thread c ≤ 2048
        fits = frame_end add nil w c t k u p memory laws thread less

        place : thread * els_per_thread c ≡ thread * u.rounds * 2 ^ u.mini
        place = ap (λ (n : ℕ). thread * n) u.rounds_exact ∙ omega arith

        summed : Summed ((thread + 1) * u.rounds) (registers thread reg)
        summed =
            subst (λ n. Summed n (registers thread reg)) {x = thread * u.rounds + u.rounds}
              (omega arith)
              (add_block_sums_lem add nil laws w c t k u p memory tmp sums (thread * u.rounds)
                (thread * els_per_thread c) reg place fits
                (omega (
                  arith,
                  u.shared_exact,
                  mul-le-mul_right {m = thread + 1} {n = c.num_threads} u.rounds (omega arith),
                ))
                h)

    pub write_threads_lem :
        (reg : Block A)
        → Summed 0 reg
        → Written (k * 2048 + 2048) (write_threads add nil w c t k tmp (reg, saved)).1
    unfolding write_threads chunk_extent
    write_threads_lem reg h =
        let both =
          for_in-each
            (λ thread (s : Block A × Block A).
              Summed (thread * u.rounds) s.0 × Written (k * 2048 + thread * els_per_thread c) s.1)
            _ c.num_threads (reg, saved)
            (λ thread s less q. thread_step thread s.0 s.1 less q.0 q.1)
            (
              subst (λ n. Summed n reg) {x = 0} (omega arith) h,
              record { inside = λ g lo hi z. absurd (omega arith); outside = λ a z. refl },
            ) in
        subst (λ n. Written (k * 2048 + n) (write_threads add nil w c t k tmp (reg, saved)).1) whole
          both.1
      where
        whole : c.num_threads * els_per_thread c ≡ 2048
        whole = omega (arith, u.whole)

  -- What a block leaves: the elements of the chunk in the output, the sum of the chunk, and the rest as
  -- it was.
  pub record IsScanned (after : Block A) : Type 0 where
    pub inside :
        (g : ℕ)
        → k * 2048 ≤ g
        → g < k * 2048 + 2048
        → g < t.num_elements
        → after (t.output + g) ≡ scan_value add nil laws w c t k u p memory g
    pub total :
        (s : ℕ)
        → t.block_sums ≡ some s
        → after (s + k) ≡ prefix add nil 2048 (value add nil laws w c t k u p memory)
    pub outside :
        (a : ℕ)
        → ((g : ℕ) → k * 2048 ≤ g → g < k * 2048 + 2048 → g < t.num_elements → a ≢ t.output + g)
        → ((s : ℕ) → t.block_sums ≡ some s → a ≢ s + k)
        → after a ≡ memory a
