-- ===== src/ScanBlocks/Load.antt =====
-- scan.hpp: the copies to the registers, and the threads up to the first barrier.
use native.Mathlib.Nat.{mul-le-mul_right}
use alpaka.Base.{
  ℕ, ◌+◌, ◌-◌, ◌*◌, ◌/◌, ◌%◌, ◌^◌, ◌<◌, ◌≤◌, ◌≡◌, refl, ap, ◌∙◌, arith, some, ltb, lt→ltb, dec_lt,
  subst, if◌then◌else◌, Bool-cases, inl, inr, mul_w,
}
use alpaka.Scan.{Block, store}
use alpaka.Scan.Prefix.{IsSum}
use alpaka.ScanBlocks.{
  Config, ScanTask, els_per_thread, chunk_extent, position, elementwise, for_in, load_elements,
  load_packs, load_threads, scan_mini_blocks,
}
use alpaka.ScanBlocks.Loops.{Filled, for_in-Filled, for_in-each, for_try-each}
use alpaka.ScanBlocks.Registers.{IsLoaded, scan_mini_blocks_lem}
use alpaka.ScanBlocks.Tuned.{IsTuned, IsPart, position_lem, elementwise_full}

module _ {A : Type 0} (base : ℕ) (f : Block A) where
  pub Filled-ext :
      (count : ℕ) (u v : ℕ → A) (g : Block A)
      → ((i : ℕ) → i < count → u i ≡ v i)
      → Filled base count u f g
      → Filled base count v f g
  Filled-ext count u v g same h = (λ i p. h.0 i p ∙ same i p, h.1)

  Filled-append :
      (a b : ℕ) (v : ℕ → A) (g h : Block A)
      → Filled base a v f g
      → Filled (base + a) b (λ i. v (a + i)) g h
      → Filled base (a + b) v f h
  Filled-append a b v g h p q = (
    λ i less. elim (dec_lt i a) [
      | yes low ↦ q.1 (base + i) (λ j z e. omega (arith, e)) ∙ p.0 i low
      | no high ↦
          ap h {x = base + i} {y = base + a + (i - a)} (omega arith)
          ∙ q.0 (i - a) (omega arith)
          ∙ ap v (omega arith)
    ],
    λ j out.
        q.1 j (λ i z e. out (a + i) (omega arith) (omega (arith, e)))
        ∙ p.1 j (λ i z. out i (omega arith)),
  )

module _ {A : Type 0} (add : A → A → A) (nil : A) (w : ℕ) (c : Config) (t : ScanTask) (k : ℕ)
    (u : IsTuned c) (p : IsPart w t k) (memory : Block A) where
  -- Element p of the chunk; zero beyond the end of the vector.
  abbrev pub chunk_value : ℕ → A
  chunk_value i =
      if ltb (k * 2048 + i) t.num_elements then memory (t.input + (k * 2048 + i)) else nil

  abbrev pub loaded : ℕ → Block A → Block A
  loaded frame_elem reg =
      if elementwise w c t k
      then load_elements add nil w c t (mul_w w (chunk_extent c) k) frame_elem memory reg
      else load_packs add nil w c t (mul_w w (chunk_extent c) k) frame_elem memory reg

  elements-Filled :
      (frame_elem : ℕ) (reg : Block A)
      → frame_elem + els_per_thread c ≤ 2048
      → Filled frame_elem
          (els_per_thread c)
          (λ i. chunk_value (frame_elem + i))
          reg
          (load_elements add nil w c t (mul_w w (chunk_extent c) k) frame_elem memory reg)
  unfolding load_elements
  elements-Filled frame_elem reg h =
      Filled-ext frame_elem reg (els_per_thread c) _ _ _
        (λ i q.
          ap (λ n. if ltb n t.num_elements then memory (t.input + n) else nil)
            (position_lem w c t k u p frame_elem i (omega arith)))
        (for_in-Filled frame_elem
          (λ i.
            if ltb (position w (mul_w w (chunk_extent c) k) frame_elem i) t.num_elements
            then memory (t.input + position w (mul_w w (chunk_extent c) k) frame_elem i)
            else nil)
          reg (els_per_thread c))

  packs-Filled :
      (frame_elem : ℕ) (reg : Block A)
      → frame_elem + els_per_thread c ≤ 2048
      → els_per_thread c % 4 ≡ 0
      → k * 2048 + 2048 ≤ t.num_elements
      → Filled frame_elem
          (els_per_thread c)
          (λ i. chunk_value (frame_elem + i))
          reg
          (load_packs add nil w c t (mul_w w (chunk_extent c) k) frame_elem memory reg)
  unfolding load_packs
  packs-Filled frame_elem reg h four full =
      subst
        (λ n.
          Filled frame_elem n (λ i. chunk_value (frame_elem + i)) reg
            (load_packs add nil w c t (mul_w w (chunk_extent c) k) frame_elem memory reg))
        {x = 4 * (els_per_thread c / 4)} {y = els_per_thread c} (omega (arith, four))
        (for_in-each (λ r g. Filled frame_elem (4 * r) (λ i. chunk_value (frame_elem + i)) reg g)
          pack (els_per_thread c / 4) reg
          (λ r g less q.
            subst (λ n. Filled frame_elem n (λ i. chunk_value (frame_elem + i)) reg (pack r g))
              {x = 4 * r + 4} {y = 4 * (r + 1)} (omega arith)
              (Filled-append frame_elem reg (4 * r) 4 (λ i. chunk_value (frame_elem + i)) g
                (pack r g) q
                (Filled-ext (frame_elem + 4 * r) g 4 _ _ _ (λ l z. lane r l less z)
                  (for_in-Filled (frame_elem + 4 * r)
                    (λ l.
                      memory
                        (t.input + position w (mul_w w (chunk_extent c) k) frame_elem (4 * r) + l))
                    g 4))))
          (λ i z. absurd (omega arith), λ j z. refl))
    where
      pack : ℕ → Block A → Block A
      pack r g =
          for_in 4
            (λ l reg.
              store reg (frame_elem + 4 * r + l)
                (memory (t.input + position w (mul_w w (chunk_extent c) k) frame_elem (4 * r) + l)))
            0 g

      lane :
          (r l : ℕ)
          → r < els_per_thread c / 4
          → l < 4
          → memory (t.input + position w (mul_w w (chunk_extent c) k) frame_elem (4 * r) + l)
            ≡ chunk_value (frame_elem + (4 * r + l))
      lane r l less z =
          ap (λ n. memory (t.input + n + l))
            (position_lem w c t k u p frame_elem (4 * r) (omega arith))
          ∙ ap memory {y = t.input + (k * 2048 + (frame_elem + (4 * r + l)))} (omega arith)
          ∙ (rw (lt→ltb (k * 2048 + (frame_elem + (4 * r + l))) t.num_elements (omega arith)) refl)

  loaded-Filled :
      (frame_elem : ℕ) (reg : Block A)
      → frame_elem + els_per_thread c ≤ 2048
      → Filled frame_elem
          (els_per_thread c)
          (λ i. chunk_value (frame_elem + i))
          reg
          (loaded frame_elem reg)
  loaded-Filled frame_elem reg h = elim (Bool-cases (elementwise w c t k)) [
    | inl e ↦ rw e (elements-Filled frame_elem reg h)
    | inr e ↦
        let (four, full) = elementwise_full w c t k u p e in
        rw e (packs-Filled frame_elem reg h four full)
  ]

  module _ (laws : IsSum add nil) where
    abbrev pub Loaded : ℕ → ℕ → Block A × Block A → Type 0
    Loaded done until s =
        IsLoaded add nil laws c.warp_size u.mini u.has_warp chunk_value done until s

    loaded-Loaded :
        (d frame_elem : ℕ) (reg tmp : Block A)
        → frame_elem ≡ d * 2 ^ u.mini
        → frame_elem + els_per_thread c ≤ 2048
        → Loaded d d (reg, tmp)
        → Loaded d (d + u.rounds) (loaded frame_elem reg, tmp)
    loaded-Loaded d frame_elem reg tmp e h q = record {
      scanned = λ b r less z.
          (loaded-Filled frame_elem reg h).1 (b * 2 ^ u.mini + r)
            (λ i y o. omega (arith, o, e, before b r less z))
          ∙ q.scanned b r less z;
      pending = λ b r lo hi z.
          ap (loaded frame_elem reg) {x = b * 2 ^ u.mini + r}
            {y = frame_elem + (b * 2 ^ u.mini + r - frame_elem)} (omega (arith, e, from b lo))
          ∙ (loaded-Filled frame_elem reg h).0 (b * 2 ^ u.mini + r - frame_elem)
              (omega (arith, e, from b lo, upto b r hi z, u.rounds_exact))
          ∙ ap chunk_value (omega (arith, e, from b lo));
      sums = q.sums;
    }
      where
        before : (b r : ℕ) → b < d → r < 2 ^ u.mini → b * 2 ^ u.mini + r < d * 2 ^ u.mini
        before b r less z =
            omega (arith, mul-le-mul_right {m = b + 1} {n = d} (2 ^ u.mini) (omega arith))

        from : (b : ℕ) → d ≤ b → d * 2 ^ u.mini ≤ b * 2 ^ u.mini
        from b lo = mul-le-mul_right {m = d} {n = b} (2 ^ u.mini) lo

        upto :
            (b r : ℕ)
            → b < d + u.rounds
            → r < 2 ^ u.mini
            → b * 2 ^ u.mini + r < d * 2 ^ u.mini + u.rounds * 2 ^ u.mini
        upto b r hi z =
            omega
              (arith, mul-le-mul_right {m = b + 1} {n = d + u.rounds} (2 ^ u.mini) (omega arith))

    pub frame_end :
        (thread : ℕ) → thread < c.num_threads → thread * els_per_thread c + els_per_thread c ≤ 2048
    unfolding chunk_extent
    frame_end thread h = omega (
      arith,
      u.whole,
      mul-le-mul_right {m = thread + 1} {n = c.num_threads} (els_per_thread c) (omega arith),
    )

    pub load_threads_lem :
        (fuel : ℕ) (s : Block A × Block A)
        → u.mini < fuel
        → (v : Block A × Block A) × (load_threads add nil w fuel c t k memory s ≡ some v)
          × Loaded (2 ^ u.shared) (2 ^ u.shared) v
    unfolding load_threads
    load_threads_lem fuel s h =
        let (v, e, q) =
          for_try-each (λ thread v. Loaded (thread * u.rounds) (thread * u.rounds) v) _
            c.num_threads s (λ thread v less q. body thread v less q)
            (record {
              scanned = λ b r z. absurd (omega arith);
              pending = λ b r lo z. absurd (omega arith);
              sums = λ b z. absurd (omega arith);
            }) in
        (v, e, subst (λ n. Loaded n n v) u.shared_exact q)
      where
        body :
            (thread : ℕ) (v : Block A × Block A)
            → thread < c.num_threads
            → Loaded (thread * u.rounds) (thread * u.rounds) v
            → (r : Block A × Block A) × (scan_mini_blocks add nil fuel c
                  (thread * els_per_thread c)
                  (loaded (thread * els_per_thread c) v.0, v.1)
                ≡ some r)
              × Loaded ((thread + 1) * u.rounds) ((thread + 1) * u.rounds) r
        body thread v less q =
            let place : thread * els_per_thread c ≡ thread * u.rounds * 2 ^ u.mini =
              ap (λ (n : ℕ). thread * n) u.rounds_exact ∙ omega arith in
            let (r, e, z) =
              scan_mini_blocks_lem add nil laws c.warp_size u.mini u.has_warp chunk_value fuel c
                (thread * u.rounds) u.rounds (thread * els_per_thread c)
                (loaded (thread * els_per_thread c) v.0, v.1) h refl u.mini_exact u.rounds_exact
                place
                (loaded-Loaded (thread * u.rounds) (thread * els_per_thread c) v.0 v.1 place
                  (frame_end thread less) q) in
            (
              r,
              e,
              subst (λ n. Loaded n n r) {x = thread * u.rounds + u.rounds}
                  {y = (thread + 1) * u.rounds} (omega arith) z,
            )
