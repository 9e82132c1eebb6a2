-- ===== src/ScanBlocks/Increments.antt =====
-- scan.hpp: the sums of the miniblocks before are added to the registers of a thread.
use native.Mathlib.Nat.{mul-le-mul_right, mul-div_left, div-add-mod', mod-lt}
use alpaka.Base.{
  ℕ, zero, suc, ◌+◌, ◌-◌, ◌*◌, ◌/◌, ◌%◌, ◌^◌, ◌<◌, ◌≤◌, ◌≡◌, ◌≢◌, refl, ap, ap₂, ◌∙◌, arith, ltb,
  lt→ltb, dec_lt, subst, if◌then◌else◌, pow_pos, mul_w,
}
use alpaka.Scan.{Block, store, add_increments}
use alpaka.Scan.Sweep.{store_same, store_other}
use alpaka.Scan.Prefix.{IsSum, prefix}
use alpaka.ScanBlocks.{
  Config, ScanTask, els_per_thread, chunk_extent, position, paste, conflict_free_access,
  add_block_sums,
}
use alpaka.ScanBlocks.Loops.{for_in-each}
use alpaka.ScanBlocks.Totals.{block_total, prefix_blocks}
use alpaka.ScanBlocks.Registers.{paste_below, paste_at, paste_above, round_up}
use alpaka.ScanBlocks.Tuned.{IsTuned, IsPart, position_lem}
use alpaka.ScanBlocks.Load.{chunk_value}

module _ {A : Type 0} (add : A → A → A) (sum : A) where
  add_increments_rest :
      (rounds i j : ℕ) (f : Block A)
      → ((l : ℕ) → i ≤ l → l < i + rounds → j ≢ l)
      → add_increments add rounds i sum f j ≡ f j
  unfolding add_increments
  add_increments_rest zero i j f h = refl
  add_increments_rest (suc rounds) i j f h =
      add_increments_rest rounds (i + 1) j (store f i (add (f i) sum))
        (λ l lo hi. h l (omega arith) (omega arith))
      ∙ store_other f i j (add (f i) sum) (h i (omega arith) (omega arith))

  add_increments_at :
      (rounds i j : ℕ) (f : Block A)
      → i ≤ j
      → j < i + rounds
      → add_increments add rounds i sum f j ≡ add (f j) sum
  unfolding add_increments
  add_increments_at zero i j f lo hi = absurd (omega arith)
  add_increments_at (suc rounds) i j f lo hi = elim (dec_lt i j) [
    | yes later ↦
        add_increments_at rounds (i + 1) j (store f i (add (f i) sum)) (omega arith) (omega arith)
        ∙ ap (λ v. add v sum) (store_other f i j (add (f i) sum) (λ e. omega (arith, e)))
    | no now ↦
        add_increments_rest rounds (i + 1) j (store f i (add (f i) sum))
          (λ l lo' hi' e. omega (arith, e))
        ∙ subst (λ n. store f i (add (f i) sum) n ≡ add (f n) sum) {x = i} {y = j} (omega arith)
            (store_same f i (add (f i) sum))
  ]

module _ {A : Type 0} (add : A → A → A) (nil : A) (laws : IsSum add nil) (w : ℕ) (c : Config)
    (t : ScanTask) (k : ℕ) (u : IsTuned c) (p : IsPart w t k) (memory : Block A) where
  abbrev pub value : ℕ → A
  value = chunk_value add nil w c t k u p memory

  -- The registers of `done` miniblocks hold the sums of all elements before in the chunk.
  pub record IsSummed (done : ℕ) (reg : Block A) : Type 0 where
    pub final :
        (b r : ℕ)
        → b < done
        → r < 2 ^ u.mini
        → k * 2048 + b * 2 ^ u.mini < t.num_elements
        → reg (b * 2 ^ u.mini + r) ≡ prefix add nil (b * 2 ^ u.mini + r) value
    pub rest :
        (b r : ℕ)
        → done ≤ b
        → b < 2 ^ u.shared
        → r < 2 ^ u.mini
        → reg (b * 2 ^ u.mini + r) ≡ prefix add nil r (λ i. value (b * 2 ^ u.mini + i))

  pub IsSummed-final :
      (done i : ℕ) (reg : Block A)
      → IsSummed done reg
      → i < done * 2 ^ u.mini
      → k * 2048 + i < t.num_elements
      → reg i ≡ prefix add nil i value
  IsSummed-final done i reg h less q =
      subst (λ n. reg n ≡ prefix add nil n value) (div-add-mod' i (2 ^ u.mini))
        (h.final (i / 2 ^ u.mini) (i % 2 ^ u.mini) below (mod-lt i (pow_pos u.mini))
          (omega (arith, div-add-mod' i (2 ^ u.mini))))
    where
      below : i / 2 ^ u.mini < done
      below = elim (dec_lt (i / 2 ^ u.mini) done) [
        | yes z ↦ z
        | no z ↦ absurd (
            omega (
              arith,
              div-add-mod' i (2 ^ u.mini),
              mul-le-mul_right {m = done} {n = i / 2 ^ u.mini} (2 ^ u.mini) (omega arith),
            ))
      ]

  module _ (tmp : Block A)
      (sums : (b : ℕ)
        → b < 2 ^ u.shared
        → tmp (conflict_free_access c.warp_size b)
          ≡ prefix add nil b (block_total add nil laws (2 ^ u.mini) value)) where
    abbrev incremented : ℕ → A → Block A → Block A
    incremented n sum reg = paste n (add_increments add (2 ^ u.mini) 0 sum (λ j. reg (n + j))) reg

    increment_step :
        (d : ℕ) (sum : A) (reg : Block A)
        → d < 2 ^ u.shared
        → (k * 2048 + d * 2 ^ u.mini < t.num_elements
            → sum ≡ prefix add nil d (block_total add nil laws (2 ^ u.mini) value))
        → IsSummed d reg
        → IsSummed (d + 1) (incremented (d * 2 ^ u.mini) sum reg)
    increment_step d sum reg less same h = record {
      final = λ b r z q y. elim (dec_lt b d) [
        | yes old ↦ paste_below (2 ^ u.mini) d later reg b r old q ∙ h.final b r old q y
        | no now ↦
            subst
              (λ n.
                k * 2048 + n * 2 ^ u.mini < t.num_elements
                → paste (d * 2 ^ u.mini) later reg (n * 2 ^ u.mini + r)
                  ≡ prefix add nil (n * 2 ^ u.mini + r) value)
              {x = d} {y = b} (omega arith) (here r q) y
      ];
      rest = λ b r lo hi q.
          let (big, equal, there) = paste_above (2 ^ u.mini) d later reg b r (omega arith) in
          there
          ∙ add_increments_rest add sum (2 ^ u.mini) 0 (b * 2 ^ u.mini + r - d * 2 ^ u.mini)
              (λ j. reg (d * 2 ^ u.mini + j)) (λ l y z e. omega (arith, e, big))
          ∙ ap reg equal
          ∙ h.rest b r (omega arith) hi q;
    }
      where
        later : Block A
        later = add_increments add (2 ^ u.mini) 0 sum (λ j. reg (d * 2 ^ u.mini + j))

        here :
            (r : ℕ)
            → r < 2 ^ u.mini
            → k * 2048 + d * 2 ^ u.mini < t.num_elements
            → paste (d * 2 ^ u.mini) later reg (d * 2 ^ u.mini + r)
              ≡ prefix add nil (d * 2 ^ u.mini + r) value
        here r q y =
            paste_at (2 ^ u.mini) d later reg r
            ∙ add_increments_at add sum (2 ^ u.mini) 0 r (λ j. reg (d * 2 ^ u.mini + j))
                (omega arith) (omega arith)
            ∙ ap₂ add (h.rest d r (omega arith) less q) (same y)
            ∙ prefix_blocks add nil laws (2 ^ u.mini) d r value

    -- The sum that is added to the miniblock at n.
    abbrev sum_at : ℕ → ℕ → ℕ → A
    sum_at size n place =
        if ltb place t.num_elements then tmp (conflict_free_access c.warp_size (n / size)) else nil

    sum_at_lem :
        (d place : ℕ)
        → d < 2 ^ u.shared
        → place ≡ k * 2048 + d * 2 ^ u.mini
        → k * 2048 + d * 2 ^ u.mini < t.num_elements
        → sum_at (2 ^ u.mini) (d * 2 ^ u.mini) place
          ≡ prefix add nil d (block_total add nil laws (2 ^ u.mini) value)
    sum_at_lem d place less e h = rw (lt→ltb place t.num_elements (omega (arith, e))) (
        ap (λ n. tmp (conflict_free_access c.warp_size n)) (mul-div_left d (pow_pos u.mini))
        ∙ sums d less)

    pub add_block_sums_lem :
        (d frame_elem : ℕ) (reg : Block A)
        → frame_elem ≡ d * 2 ^ u.mini
        → frame_elem + els_per_thread c ≤ 2048
        → d + u.rounds ≤ 2 ^ u.shared
        → IsSummed d reg
        → IsSummed
            (d + u.rounds)
            (add_block_sums add nil w c t (mul_w w (chunk_extent c) k) frame_elem tmp reg)
    unfolding add_block_sums
    add_block_sums_lem d frame_elem reg e end_of few h =
        rw (u.mini_exact, u.rounds_exact, round_up u.rounds (2 ^ u.mini) (pow_pos u.mini))
          (for_in-each (λ j f. IsSummed (d + j) f)
            (λ j f.
              incremented (frame_elem + j * 2 ^ u.mini)
                (sum_at (2 ^ u.mini) (frame_elem + j * 2 ^ u.mini)
                  (position w (mul_w w (chunk_extent c) k) frame_elem (j * 2 ^ u.mini)))
                f)
            u.rounds reg
            (λ j f less q.
              subst
                (λ n. IsSummed (d + (j + 1)) (
                  incremented n
                    (sum_at (2 ^ u.mini) n
                      (position w (mul_w w (chunk_extent c) k) frame_elem (j * 2 ^ u.mini)))
                    f))
                {x = (d + j) * 2 ^ u.mini} {y = frame_elem + j * 2 ^ u.mini} (omega (arith, e))
                (subst (λ n. IsSummed n (incremented ((d + j) * 2 ^ u.mini) (sum_of j) f))
                  {x = d + j + 1} {y = d + (j + 1)} (omega arith)
                  (increment_step (d + j) (sum_of j) f (omega arith)
                    (sum_at_lem (d + j) _ (omega arith) (
                      position_lem w c t k u p frame_elem (j * 2 ^ u.mini) (inside j less)
                      ∙ omega (arith, e)))
                    q)))
            (subst (λ n. IsSummed n reg) {x = d} {y = d + 0} (omega arith) h))
      where
        sum_of : ℕ → A
        sum_of j =
            sum_at (2 ^ u.mini) ((d + j) * 2 ^ u.mini)
              (position w (mul_w w (chunk_extent c) k) frame_elem (j * 2 ^ u.mini))

        inside : (j : ℕ) → j < u.rounds → frame_elem + j * 2 ^ u.mini < 2048
        inside j less = omega (
          arith,
          end_of,
          u.rounds_exact,
          pow_pos u.mini,
          mul-le-mul_right {m = j + 1} {n = u.rounds} (2 ^ u.mini) (omega arith),
        )
