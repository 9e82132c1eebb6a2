-- ===== src/ScanBlocks/Tuned.antt =====
-- scan.hpp: sizes that fit each other, and the positions of the elements of a chunk.
use native.Mathlib.Nat.{mul-div_left}
use alpaka.Base.{
  ℕ, ◌+◌, ◌-◌, ◌*◌, ◌/◌, ◌%◌, ◌^◌, ◌<◌, ◌≤◌, ◌≡◌, sym, ap, ap₂, ◌∙◌, arith, false, not, ◌&&◌, ◌||◌,
  ◌==◌, wrap, wrap_small, mul_w, sub_w, pow_pos, wrap-add_modulus,
}
use alpaka.ScanBlocks.{
  Config, ScanTask, els_per_thread, chunk_extent, mini_block_size, mini_blocks_per_chunk, position,
  elementwise,
}

-- The threads divide a chunk; a miniblock is a power of two of elements and divides those of a
-- thread, and the number of miniblocks is a power of two.
pub record IsTuned (c : Config) : Type 0 where
  pub mini : ℕ
  pub shared : ℕ
  pub rounds : ℕ
  pub has_warp : 0 < c.warp_size
  pub whole : chunk_extent c ≡ 2048
  pub mini_exact : mini_block_size c ≡ 2 ^ mini
  pub rounds_exact : els_per_thread c ≡ rounds * 2 ^ mini
  pub shared_exact : c.num_threads * rounds ≡ 2 ^ shared

-- The chunk begins inside the vector, and positions up to its end fit w bits.
pub record IsPart (w : ℕ) (t : ScanTask) (chunk_idx : ℕ) : Type 0 where
  pub fits : t.num_elements + 2048 ≤ 2 ^ w
  pub chunks_exact : t.num_chunks ≡ (t.num_elements + 2048 - 1) / 2048
  pub inside : chunk_idx * 2048 < t.num_elements

pub chunk_size_lem : (c : Config) (u : IsTuned c) → 2 ^ u.shared * 2 ^ u.mini ≡ 2048
unfolding chunk_extent
chunk_size_lem c u =
    ap (λ n. n * 2 ^ u.mini) (sym u.shared_exact) ∙ grind (arith, u.whole, u.rounds_exact)

pub num_blocks_lem : (c : Config) (u : IsTuned c) → mini_blocks_per_chunk c ≡ 2 ^ u.shared
unfolding mini_blocks_per_chunk
num_blocks_lem c u =
    ap₂ (λ a b. a / b) (u.whole ∙ sym (chunk_size_lem c u)) u.mini_exact
    ∙ mul-div_left (2 ^ u.shared) (pow_pos u.mini)

module _ (w : ℕ) (c : Config) (t : ScanTask) (k : ℕ) (u : IsTuned c) (p : IsPart w t k) where
  pub position_lem :
      (frame_elem i : ℕ)
      → frame_elem + i < 2048
      → position w (mul_w w (chunk_extent c) k) frame_elem i ≡ k * 2048 + (frame_elem + i)
  unfolding position
  position_lem frame_elem i h =
      ap (λ n. wrap w (wrap w (n + frame_elem) + i))
        (wrap_small w {n = chunk_extent c * k}
          (omega (arith, p.fits, p.inside, ap (λ (n : ℕ). n * k) u.whole)))
      ∙ ap (λ n. wrap w (n + i))
          (wrap_small w {n = chunk_extent c * k + frame_elem}
            (omega (arith, p.fits, p.inside, ap (λ (n : ℕ). n * k) u.whole)))
      ∙ wrap_small w {n = chunk_extent c * k + frame_elem + i}
          (omega (arith, p.fits, p.inside, ap (λ (n : ℕ). n * k) u.whole))
      ∙ omega (arith, ap (λ (n : ℕ). n * k) u.whole)

  sub_exact : (a : ℕ) → 0 < a → a < 2 ^ w → sub_w w a 1 ≡ a - 1
  sub_exact a q h =
      ap (wrap w) {y = (a - 1) + 2 ^ w} (omega arith)
      ∙ wrap-add_modulus w (a - 1)
      ∙ wrap_small w (omega arith)

  -- A chunk that is copied four elements at a time is full.
  pub elementwise_full :
      elementwise w c t k ≡ false → (els_per_thread c % 4 ≡ 0) × (k * 2048 + 2048 ≤ t.num_elements)
  unfolding elementwise
  elementwise_full h = full (
      rw
        (
          u.whole,
          sub_exact t.num_elements (omega (arith, p.inside)) (omega (arith, p.fits)),
          sub_exact t.num_chunks (omega (arith, p.chunks_exact, p.inside))
              (omega (arith, p.chunks_exact, p.inside, p.fits)),
        )
        at h)
    where
      full :
          ((not ((t.num_elements - 1) % 2048 + 1 == 2048) && (k == (t.num_chunks - 1)))
              || not (els_per_thread c % 4 == 0))
            ≡ false
          → (els_per_thread c % 4 ≡ 0) × (k * 2048 + 2048 ≤ t.num_elements)
      full e = ground (arith, e, p.chunks_exact, p.inside)
