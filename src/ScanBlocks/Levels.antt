-- ===== src/ScanBlocks/Levels.antt =====
-- scan.hpp, scan: all levels give the prefix sums.
use mathlib.Core.Option.{some-injective}
use alpaka.Base.{
  ◌>>=◌, ℕ, zero, suc, ◌+◌, ◌-◌, ◌*◌, ◌/◌, ◌^◌, ◌<◌, ◌≤◌, ◌≡◌, ◌≢◌, refl, sym, ap, ap₂, ◌∙◌, arith,
  Option, none, some, true, false, ltb, lt→ltb, ltb-false, dec_lt, if◌then◌else◌,
}
use alpaka.Util.Ceil.{div_ceil_exact}
use alpaka.Scan.{Block}
use alpaka.Scan.Need.{chunks}
use alpaka.Scan.Prefix.{IsSum, prefix, total-ext}
use alpaka.ScanBlocks.{
  Config, ScanTask, Environment, ScanType, exclusive_scan, inclusive_scan, result, level_task,
  scan_blocks_kernel, add_increments_kernel, scan_levels,
}
use alpaka.ScanBlocks.Totals.{block_total, prefix_blocks}
use alpaka.ScanBlocks.Tuned.{IsTuned}
use alpaka.ScanBlocks.Chunk.{Room}
use alpaka.ScanBlocks.Kernel.{IsOrder, Present, IsVector, AreScanned, scan_blocks_kernel_lem}
use alpaka.ScanBlocks.Calls.{AreCalls, AreIncremented, add_increments_kernel_lem}

module _ {A : Type 0} (add : A → A → A) (nil : A) (laws : IsSum add nil) where
  result-add :
      (s : ScanType) (x y z : A) → add (result add nil s x y) z ≡ result add nil s x (add y z)
  unfolding result
  result-add exclusive_scan x y z = refl
  result-add inclusive_scan x y z = laws.add_assoc x y z

  -- Orders and calls as the launches make them.
  pub record IsEnvironment (e : Environment add nil) : Type 0 where
    pub orders : (n : ℕ) → IsOrder n (e.order n)
    pub all_calls : (n : ℕ) → AreCalls n (e.calls n)

  -- What a scan leaves: the prefix sums in the output, and what stands before the buffer and outside the
  -- output as it was.
  pub record IsPrefixSum (s : ScanType) (buffer output input n : ℕ) (memory after : Block A)
      : Type 0 where
    pub inside :
        (g : ℕ)
        → g < n
        → after (output + g)
          ≡ result add nil s (memory (input + g)) (prefix add nil g (λ i. memory (input + i)))
    pub outside : (a : ℕ) → a < buffer → ((g : ℕ) → g < n → a ≢ output + g) → after a ≡ memory a

  module _ (w : ℕ) (c : Config) (u : IsTuned c) (e : Environment add nil)
      (environment : IsEnvironment e) (stages : ℕ) (few : u.mini < stages)
      (short : u.shared < stages) where
    module _ (s : ScanType) (buffer output input n : ℕ) (memory : Block A) (fits : n + 2048 ≤ 2 ^ w)
        (apart : (i g : ℕ) → i < n → g < n → input + i ≡ output + g → i ≡ g)
        (input_room : input + n ≤ buffer) (output_room : output + n ≤ buffer) where
      abbrev task : Option ℕ → ScanTask
      task = level_task s output input n (chunks n)

      -- The elements, and zero beyond the end.
      abbrev padded : ℕ → A
      padded i = if ltb i n then memory (input + i) else nil

      padded_exact :
          (g : ℕ) → g ≤ n → prefix add nil g padded ≡ prefix add nil g (λ i. memory (input + i))
      padded_exact g h =
          total-ext add nil laws g padded _ (λ i z. rw (lt→ltb i n (omega arith)) refl)

      vector : (sums : Option ℕ) → IsVector w (task sums)
      vector sums = record { fits = fits; chunks_exact = refl }

      room : (sums : Option ℕ) → ((r : ℕ) → sums ≡ some r → r ≡ buffer) → Room (task sums)
      room sums only r h =
          (omega (arith, input_room, only r h), omega (arith, output_room, only r h))

      scanned_level :
          (sums : Option ℕ) (only : (r : ℕ) → sums ≡ some r → r ≡ buffer)
          → (after : Block A) × (scan_blocks_kernel add nil w stages c
                (task sums)
                e.unset
                (e.order (chunks n))
                memory
              ≡ some after)
            × AreScanned add nil laws w c
                (task sums)
                u
                (vector sums)
                apart
                (room sums only)
                (e.order (chunks n))
                memory
                after
      scanned_level sums only =
          scan_blocks_kernel_lem add nil laws w c (task sums) u (vector sums) apart (room sums only)
            stages e.unset few short (e.order (chunks n)) memory
            (environment.orders (chunks n)).below (environment.orders (chunks n)).distinct

      abbrev first_element : ℕ → A
      first_element i = padded (0 * 2048 + i)

      -- One level: the only chunk.
      one_level :
          (after : Block A)
          → n ≤ 2048
          → AreScanned add nil laws w c
              (task none)
              u
              (vector none)
              apart
              (room none (λ r f. cc))
              (e.order (chunks n))
              memory
              after
          → IsPrefixSum s buffer output input n memory after
      one_level after few_elements h = record {
        inside = λ g z.
            h.inside 0 g ((environment.orders (chunks n)).complete 0 (omega arith))
              (omega arith, omega arith, z)
            ∙ ap (λ y. result add nil s (memory (input + g)) y)
                (ap (λ m. prefix add nil m first_element) {x = g - 0 * 2048} {y = g} (omega arith)
                  ∙ total-ext add nil laws g first_element padded (λ i y.
                    ap (λ m. if ltb m n then memory (input + m) else nil) {x = 0 * 2048 + i} {y = i}
                      (omega arith))
                  ∙ padded_exact g (omega arith));
        outside = λ a z q. h.outside a (λ k g p y. q g y.2) (λ k r p y. absurd (cc));
      }

      -- Several levels: the sums of the chunks are scanned in place, and added.
      module _ (scanned increments : Block A)
          (first : AreScanned add nil laws w c
            (task (some buffer))
            u
            (vector (some buffer))
            apart
            (room (some buffer) (λ r f. some-injective r buffer (sym f)))
            (e.order (chunks n))
            memory
            scanned)
          (inner : IsPrefixSum exclusive_scan
            (buffer + chunks n)
            buffer
            buffer
            (chunks n)
            scanned
            increments) where
        output_kept : (g : ℕ) → g < n → increments (output + g) ≡ scanned (output + g)
        output_kept g h =
            inner.outside (output + g) (omega (arith, output_room))
              (λ i z y. omega (arith, y, output_room))

        chunk_of : (g : ℕ) → g < n → Present (g / 2048) (e.order (chunks n))
        chunk_of g h = (environment.orders (chunks n)).complete (g / 2048) (omega arith)

        increment_value :
            (k : ℕ)
            → k < chunks n
            → increments (buffer + k) ≡ prefix add nil k (block_total add nil laws 2048 padded)
        unfolding result
        increment_value k h =
            inner.inside k h
            ∙ total-ext add nil laws k (λ i. scanned (buffer + i)) _
                (λ i z.
                  first.totals i buffer
                    ((environment.orders (chunks n)).complete i (omega (arith, z, h))) refl)

        several_levels :
            IsPrefixSum s buffer output input n memory
              (add_increments_kernel add nil c buffer output (e.calls n) increments)
        several_levels = record {
          inside = λ g h.
              added.inside g ((environment.all_calls n).complete g h)
              ∙ ap₂ add
                  (output_kept g h
                    ∙ first.inside (g / 2048) g (chunk_of g h) (omega arith, omega arith, h))
                  (increment_value (g / 2048) (omega arith))
              ∙ result-add s _ _ _
              ∙ ap (result add nil s (memory (input + g))) (
                  prefix_blocks add nil laws 2048 (g / 2048) (g - g / 2048 * 2048) padded
                  ∙ ap (λ m. prefix add nil m padded) (omega arith)
                  ∙ padded_exact g (omega arith));
          outside = λ a z q.
              added.outside a (λ i y. q i ((environment.all_calls n).below i y))
              ∙ inner.outside a (omega (arith, z)) (λ g y f. omega (arith, f, z))
              ∙ first.outside a (λ k g p y. q g y.2)
                  (λ k r p y f. omega (arith, f, z, some-injective buffer r y));
        }
          where
            added :
                AreIncremented add nil c u buffer output n output_room
                  (e.calls n)
                  increments
                  (add_increments_kernel add nil c buffer output (e.calls n) increments)
            added =
                add_increments_kernel_lem add nil c u buffer output n output_room (e.calls n)
                  increments (environment.all_calls n).below (environment.all_calls n).separate

    -- A level with a given number of chunks.
    abbrev level_work : ℕ → ScanType → ℕ → ℕ → ℕ → ℕ → Block A → ℕ → Option (Block A)
    level_work fuel s buffer output input n memory num_chunks = elim (ltb 1 num_chunks) [
      | false ↦
          scan_blocks_kernel add nil w stages c (level_task s output input n num_chunks none)
            e.unset (e.order num_chunks) memory
      | true ↦ (do
        scanned ←
            scan_blocks_kernel add nil w stages c
              (level_task s output input n num_chunks (some buffer)) e.unset (e.order num_chunks)
              memory
        increments ←
            scan_levels add nil w fuel stages c e exclusive_scan (buffer + num_chunks) buffer buffer
              num_chunks scanned
        some (add_increments_kernel add nil c buffer output (e.calls n) increments))
    ]

    scan_levels-work :
        (fuel : ℕ) (s : ScanType) (buffer output input n : ℕ) (memory : Block A)
        → n + 2048 ≤ 2 ^ w
        → scan_levels add nil w (suc fuel) stages c e s buffer output input n memory
          ≡ level_work fuel s buffer output input n memory (chunks n)
    unfolding scan_levels
    scan_levels-work fuel s buffer output input n memory fits =
        ap (level_work fuel s buffer output input n memory)
          (div_ceil_exact w n 2048 (omega arith) fits)

    -- For an addition that is associative and commutative with zero as its unit, sizes that fit each other,
    -- more fuel than stages of the sweeps and than elements, an extent that fits w bits with one more
    -- chunk, an input and an output that are one vector or have no element in common, a buffer behind
    -- both, chunks in any order but each once, packs of elements in any order that each lie in one chunk
    -- and together have every element once, and whatever registers and shared memory hold before: the
    -- scan ends, the output holds the sums of all elements before, or up to, each
    -- element, and before the buffer nothing but the output is changed.
    pub scan_levels-IsPrefixSum :
        (fuel : ℕ) (s : ScanType) (buffer output input n : ℕ) (memory : Block A)
        → n < fuel
        → n + 2048 ≤ 2 ^ w
        → ((i g : ℕ) → i < n → g < n → input + i ≡ output + g → i ≡ g)
        → input + n ≤ buffer
        → output + n ≤ buffer
        → (after : Block A) × (scan_levels add nil w fuel stages c e s buffer output input n memory
            ≡ some after)
          × IsPrefixSum s buffer output input n memory after
    scan_levels-IsPrefixSum zero s buffer output input n memory enough fits apart ir or =
        absurd (omega arith)
    scan_levels-IsPrefixSum (suc fuel) s buffer output input n memory enough fits apart ir or =
        elim (dec_lt 1 (chunks n)) [
          | yes more ↦
              let (scanned, found, first) =
                scanned_level s buffer output input n memory fits apart ir or (some buffer)
                  (λ r f. some-injective r buffer (sym f)) in
              let (increments, found', inner) =
                scan_levels-IsPrefixSum fuel exclusive_scan (buffer + chunks n) buffer buffer
                  (chunks n) scanned (omega arith) (omega arith) (λ i g y z f. omega (arith, f))
                  (omega arith) (omega arith) in
              (
                add_increments_kernel add nil c buffer output (e.calls n) increments,
                scan_levels-work fuel s buffer output input n memory fits
                    ∙ (rw (lt→ltb 1 (chunks n) more, level_work)
                        (rw (found, ◌>>=◌) (rw (found', ◌>>=◌) refl))),
                several_levels s buffer output input n memory fits apart ir or scanned increments
                    first inner,
              )
          | no only ↦
              let (after, found, first) =
                scanned_level s buffer output input n memory fits apart ir or none (λ r f. cc) in
              (
                after,
                scan_levels-work fuel s buffer output input n memory fits
                    ∙ (rw (ltb-false 1 (chunks n) (omega arith), level_work) found),
                one_level s buffer output input n memory fits apart ir or after (omega arith) first,
              )
        ]
