-- ===== src/ScanBlocks/Registers.antt =====
-- scan.hpp: the registers and the shared memory while the threads scan their miniblocks.
use native.Mathlib.Nat.{mul-le-mul_right, mul-div_left, div-eq_of_lt-le}
use alpaka.Base.{
  ◌>>=◌, ℕ, suc, ◌+◌, ◌-◌, ◌*◌, ◌/◌, ◌^◌, ◌<◌, ◌≤◌, ◌≡◌, refl, ap, ◌∙◌, arith, Option, some, lt→ltb,
  ltb-false, dec_lt, subst, pow_pos,
}
use alpaka.Scan.{Block, store, scan_mini_block}
use alpaka.Scan.Sweep.{store_same, store_other}
use alpaka.Scan.Prefix.{IsSum, prefix, prefixed, total-ext, scan_mini_block_lem}
use alpaka.ScanBlocks.{
  Config, mini_block_size, els_per_thread, conflict_free_access, paste, scan_mini_blocks,
}
use alpaka.ScanBlocks.Loops.{for_try-each}
use alpaka.ScanBlocks.View.{conflict_free_access-apart}

pub round_up : (n size : ℕ) → 0 < size → (n * size + size - 1) / size ≡ n
round_up n size p = div-eq_of_lt-le size (omega arith) (omega arith)

module _ {A : Type 0} (size d : ℕ) (later reg : Block A) where
  pub paste_below :
      (b r : ℕ) → b < d → r < size → paste (d * size) later reg (b * size + r) ≡ reg (b * size + r)
  unfolding paste
  paste_below b r h p =
      let less : b * size + r < d * size =
        omega (arith, mul-le-mul_right {m = suc b} {n = d} size (omega arith)) in
      rw (lt→ltb (b * size + r) (d * size) less) refl

  pub paste_at : (r : ℕ) → paste (d * size) later reg (d * size + r) ≡ later r
  unfolding paste
  paste_at r = rw (ltb-false (d * size + r) (d * size) (omega arith)) (ap later (omega arith))

  pub paste_above :
      (b r : ℕ)
      → d < b
      → (size ≤ b * size + r - d * size)
        × (d * size + (b * size + r - d * size) ≡ b * size + r)
        × (paste (d * size) later reg (b * size + r) ≡ later (b * size + r - d * size))
  unfolding paste
  paste_above b r h =
      let more : suc d * size ≤ b * size =
        mul-le-mul_right {m = suc d} {n = b} size (omega arith) in
      (omega arith, omega arith, rw (ltb-false (b * size + r) (d * size) (omega arith)) refl)

module _ {A : Type 0} (add : A → A → A) (nil : A) (laws : IsSum add nil) (warp m : ℕ)
    (pos : 0 < warp) (x : ℕ → A) where
  -- `done` miniblocks are scanned, and those up to `until` are loaded.
  pub record IsLoaded (done until : ℕ) (s : Block A × Block A) : Type 0 where
    pub scanned :
        (b r : ℕ)
        → b < done
        → r < 2 ^ m
        → s.0 (b * 2 ^ m + r) ≡ prefix add nil r (λ i. x (b * 2 ^ m + i))
    pub pending :
        (b r : ℕ) → done ≤ b → b < until → r < 2 ^ m → s.0 (b * 2 ^ m + r) ≡ x (b * 2 ^ m + r)
    pub sums :
        (b : ℕ)
        → b < done
        → s.1 (conflict_free_access warp b) ≡ prefix add nil (2 ^ m) (λ i. x (b * 2 ^ m + i))

  abbrev stepped : ℕ → Block A × Block A → Block A × Block A
  stepped d (reg, tmp) = (
    paste (d * 2 ^ m) (prefixed add nil laws m (λ j. reg (d * 2 ^ m + j))) reg,
    store tmp (conflict_free_access warp d) (prefix add nil (2 ^ m) (λ j. reg (d * 2 ^ m + j))),
  )

  -- One miniblock.
  mini_step :
      (d e : ℕ) (reg tmp : Block A)
      → IsLoaded d e (reg, tmp)
      → d < e
      → IsLoaded (d + 1) e (stepped d (reg, tmp))
  mini_step d e reg tmp h less = record {
    scanned = λ b r p q. elim (dec_lt b d) [
      | yes old ↦ paste_below (2 ^ m) d later reg b r old q ∙ h.scanned b r old q
      | no now ↦
          subst
            (λ n.
              paste (d * 2 ^ m) later reg (n * 2 ^ m + r)
              ≡ prefix add nil r (λ i. x (n * 2 ^ m + i)))
            {x = d} {y = b} (omega arith) (paste_at (2 ^ m) d later reg r ∙ scanned_at r q)
    ];
    pending = λ b r p q z.
        let (big, same, value) = paste_above (2 ^ m) d later reg b r (omega arith) in
        value
        ∙ untouched (b * 2 ^ m + r - d * 2 ^ m) big
        ∙ ap reg same
        ∙ h.pending b r (omega arith) q z;
    sums = λ b p. elim (dec_lt b d) [
      | yes old ↦
          store_other tmp (conflict_free_access warp d) (conflict_free_access warp b) _
            (conflict_free_access-apart warp b d pos (λ t. omega (arith, t)))
          ∙ h.sums b old
      | no now ↦
          subst
            (λ n.
              store tmp (conflict_free_access warp d) (prefix add nil (2 ^ m) here)
                (conflict_free_access warp n)
              ≡ prefix add nil (2 ^ m) (λ i. x (n * 2 ^ m + i)))
            {x = d} {y = b} (omega arith)
            (store_same tmp (conflict_free_access warp d) (prefix add nil (2 ^ m) here)
              ∙ total-ext add nil laws (2 ^ m) here (λ i. x (d * 2 ^ m + i))
                  (λ i q. h.pending d i (omega arith) less q))
    ];
  }
    where
      here : Block A
      here j = reg (d * 2 ^ m + j)

      later : Block A
      later = prefixed add nil laws m here

      scanned_at : (r : ℕ) → r < 2 ^ m → later r ≡ prefix add nil r (λ i. x (d * 2 ^ m + i))
      scanned_at r q = rw (lt→ltb r (2 ^ m) q) (
          total-ext add nil laws r here (λ i. x (d * 2 ^ m + i))
            (λ i z. h.pending d i (omega arith) less (omega arith)))

      untouched : (j : ℕ) → 2 ^ m ≤ j → later j ≡ here j
      untouched j q = rw (ltb-false j (2 ^ m) q) refl

  -- The round of `scan_mini_blocks` for the miniblock at n.
  abbrev mini_body : ℕ → ℕ → ℕ → Block A × Block A → Option (Block A × Block A)
  mini_body fuel size n (reg, tmp) = do
    (scanned, mini_block_sum) ← scan_mini_block add nil fuel size (λ j. reg (n + j))
    some (paste n scanned reg, store tmp (conflict_free_access warp (n / size)) mini_block_sum)

  mini_body_lem :
      (fuel d : ℕ) (s : Block A × Block A)
      → m < fuel
      → mini_body fuel (2 ^ m) (d * 2 ^ m) s ≡ some (stepped d s)
  mini_body_lem fuel d s h =
      rw (scan_mini_block_lem add nil laws fuel m (λ j. s.0 (d * 2 ^ m + j)) h, ◌>>=◌)
        (ap
          (λ n. some (
            paste (d * 2 ^ m) (prefixed add nil laws m (λ j. s.0 (d * 2 ^ m + j))) s.0,
            store s.1 (conflict_free_access warp n)
                (prefix add nil (2 ^ m) (λ j. s.0 (d * 2 ^ m + j))),
          ))
          (mul-div_left d (pow_pos m)))

  -- The miniblocks of a thread.
  pub scan_mini_blocks_lem :
      (fuel : ℕ) (c : Config) (d rounds frame_elem : ℕ) (s : Block A × Block A)
      → m < fuel
      → c.warp_size ≡ warp
      → mini_block_size c ≡ 2 ^ m
      → els_per_thread c ≡ rounds * 2 ^ m
      → frame_elem ≡ d * 2 ^ m
      → IsLoaded d (d + rounds) s
      → (u : Block A × Block A) × (scan_mini_blocks add nil fuel c frame_elem s ≡ some u)
        × IsLoaded (d + rounds) (d + rounds) u
  unfolding scan_mini_blocks
  scan_mini_blocks_lem fuel c d rounds frame_elem s h ew es er ef loaded =
      rw (ew, es, er, round_up rounds (2 ^ m) (pow_pos m))
        (for_try-each (λ k t. IsLoaded (d + k) (d + rounds) t)
          (λ k. mini_body fuel (2 ^ m) (frame_elem + k * 2 ^ m)) rounds s
          (λ k t less p. (
            stepped (d + k) t,
            ap (λ n. mini_body fuel (2 ^ m) n t) {x = frame_elem + k * 2 ^ m} {y = (d + k) * 2 ^ m}
                  (omega (arith, ef))
                ∙ mini_body_lem fuel (d + k) t h,
            subst (λ n. IsLoaded n (d + rounds) (stepped (d + k) t)) {x = d + k + 1}
                {y = d + (k + 1)} (omega arith)
                (mini_step (d + k) (d + rounds) t.0 t.1 p (omega arith)),
          ))
          (subst (λ n. IsLoaded n (d + rounds) s) {x = d} {y = d + 0} (omega arith) loaded))
