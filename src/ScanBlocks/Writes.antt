-- ===== src/ScanBlocks/Writes.antt =====
-- scan.hpp: the copies from the registers of a thread to the output.
use alpaka.Base.{
  ℕ, ◌+◌, ◌-◌, ◌*◌, ◌/◌, ◌%◌, ◌<◌, ◌≤◌, ◌≡◌, ◌≢◌, refl, sym, ap, ap₂, ◌∙◌, arith, ltb, lt→ltb,
  ltb-false, dec_lt, subst, if◌then◌else◌, Bool-cases, inl, inr, mul_w,
}
use alpaka.Scan.{Block, store}
use alpaka.Scan.Sweep.{store_same, store_other}
use alpaka.Scan.Prefix.{IsSum, prefix}
use alpaka.ScanBlocks.{
  Config, ScanTask, els_per_thread, chunk_extent, position, elementwise, for_in, result,
  write_elements, write_packs,
}
use alpaka.ScanBlocks.Loops.{for_in-each}
use alpaka.ScanBlocks.Tuned.{IsTuned, IsPart, position_lem, elementwise_full}
use alpaka.ScanBlocks.Increments.{value}

-- The input and the output are one vector or have no element in common.
abbrev pub Apart : ScanTask → Type 0
Apart t = (i g : ℕ) → i < t.num_elements → g < t.num_elements → t.input + i ≡ t.output + g → i ≡ g

module _ {A : Type 0} (add : A → A → A) (nil : A) (laws : IsSum add nil) (w : ℕ) (c : Config)
    (t : ScanTask) (k : ℕ) (u : IsTuned c) (p : IsPart w t k) (memory : Block A) where
  -- What element g of the output shall be.
  abbrev pub scan_value : ℕ → A
  scan_value g =
      result add nil t.scan_type (memory (t.input + g))
        (prefix add nil (g - k * 2048) (value add nil laws w c t k u p memory))

  module _ (saved : Block A) (apart : Apart t)
      (kept : (g : ℕ) → g < t.num_elements → saved (t.input + g) ≡ memory (t.input + g)) where
    -- The elements of the chunk below `until` are written, and nothing else.
    pub record IsWritten (until : ℕ) (after : Block A) : Type 0 where
      pub inside :
          (g : ℕ)
          → k * 2048 ≤ g
          → g < until
          → g < t.num_elements
          → after (t.output + g) ≡ scan_value g
      pub outside :
          (a : ℕ)
          → ((g : ℕ) → k * 2048 ≤ g → g < until → g < t.num_elements → a ≢ t.output + g)
          → after a ≡ saved a

    unread :
        (until g : ℕ) (after : Block A)
        → IsWritten until after
        → until ≤ g
        → g < t.num_elements
        → after (t.input + g) ≡ memory (t.input + g)
    unread until g after h lo hi =
        h.outside (t.input + g) (λ i q r s e. omega (arith, apart g i hi s e)) ∙ kept g hi

    write_step :
        (until : ℕ) (after : Block A) (v : A)
        → k * 2048 ≤ until
        → until < t.num_elements
        → v ≡ scan_value until
        → IsWritten until after
        → IsWritten (until + 1) (store after (t.output + until) v)
    write_step until after v lo hi e h = record {
      inside = λ g q r s. elim (dec_lt g until) [
        | yes old ↦
            store_other after (t.output + until) (t.output + g) v (λ z. omega (arith, z))
            ∙ h.inside g q old s
        | no now ↦
            subst (λ n. store after (t.output + until) v (t.output + n) ≡ scan_value n) {x = until}
              {y = g} (omega arith) (store_same after (t.output + until) v ∙ e)
      ];
      outside = λ a q.
          store_other after (t.output + until) a v (q until lo (omega arith) hi)
          ∙ h.outside a (λ g r s z. q g r (omega arith) z);
    }

    skip_step :
        (until : ℕ) (after : Block A)
        → t.num_elements ≤ until
        → IsWritten until after
        → IsWritten (until + 1) after
    skip_step until after lo h = record {
      inside = λ g q r s. h.inside g q (omega arith) s;
      outside = λ a q. h.outside a (λ g r s z. q g r (omega arith) z);
    }

    module _ (frame_elem : ℕ) (reg : Block A) (fits : frame_elem + els_per_thread c ≤ 2048)
        (final : (i : ℕ)
          → i < els_per_thread c
          → k * 2048 + (frame_elem + i) < t.num_elements
          → reg (frame_elem + i)
            ≡ prefix add nil (frame_elem + i) (value add nil laws w c t k u p memory)) where
      -- The value that is computed from an unread element and its register.
      computed :
          (i g : ℕ) (input : A)
          → i < els_per_thread c
          → g ≡ k * 2048 + (frame_elem + i)
          → g < t.num_elements
          → input ≡ memory (t.input + g)
          → result add nil t.scan_type input (reg (frame_elem + i)) ≡ scan_value g
      computed i g input less e hi same = ap₂ (result add nil t.scan_type) same (
          final i less (omega (arith, e))
          ∙ ap (λ n. prefix add nil n (value add nil laws w c t k u p memory)) {y = g - k * 2048}
              (omega (arith, e)))

      abbrev element_round : ℕ → ℕ → Block A → Block A
      element_round i n after =
          if ltb n t.num_elements
          then store after (t.output + n)
              (result add nil t.scan_type (after (t.input + n)) (reg (frame_elem + i)))
          else after

      element_step :
          (i : ℕ) (after : Block A)
          → i < els_per_thread c
          → IsWritten (k * 2048 + (frame_elem + i)) after
          → IsWritten
              (k * 2048 + (frame_elem + (i + 1)))
              (element_round i (k * 2048 + (frame_elem + i)) after)
      element_step i after less h =
          subst (λ n. IsWritten n (element_round i (k * 2048 + (frame_elem + i)) after))
            {x = k * 2048 + (frame_elem + i) + 1} (omega arith)
            (elim (dec_lt (k * 2048 + (frame_elem + i)) t.num_elements) [
              | yes hi ↦ rw (lt→ltb (k * 2048 + (frame_elem + i)) t.num_elements hi) (
                  write_step (k * 2048 + (frame_elem + i)) after _ (omega arith) hi
                    (computed i (k * 2048 + (frame_elem + i)) _ less refl hi (
                      unread (k * 2048 + (frame_elem + i)) (k * 2048 + (frame_elem + i)) after h
                        (omega arith) hi))
                    h)
              | no lo ↦
                  rw (ltb-false (k * 2048 + (frame_elem + i)) t.num_elements (omega arith))
                    (skip_step (k * 2048 + (frame_elem + i)) after (omega arith) h)
            ])

      elements-IsWritten :
          (after : Block A)
          → IsWritten (k * 2048 + frame_elem) after
          → IsWritten
              (k * 2048 + (frame_elem + els_per_thread c))
              (write_elements add nil w c t (mul_w w (chunk_extent c) k) frame_elem reg after)
      unfolding write_elements
      elements-IsWritten after h =
          for_in-each (λ i f. IsWritten (k * 2048 + (frame_elem + i)) f)
            (λ i f. element_round i (position w (mul_w w (chunk_extent c) k) frame_elem i) f)
            (els_per_thread c) after
            (λ i f less q.
              subst (λ n. IsWritten (k * 2048 + (frame_elem + (i + 1))) (element_round i n f))
                (sym (position_lem w c t k u p frame_elem i (omega (arith, fits))))
                (element_step i f less q))
            (subst (λ n. IsWritten n after) (omega arith) h)

      abbrev lane_round : ℕ → ℕ → Block A → ℕ → Block A → Block A
      lane_round r n before l later =
          store later (t.output + n + l)
            (result add nil t.scan_type (before (t.input + n + l)) (reg (frame_elem + 4 * r + l)))

      lane_step :
          (r l n : ℕ) (before later : Block A)
          → 4 * r + l < els_per_thread c
          → n ≡ k * 2048 + (frame_elem + 4 * r)
          → n + l < t.num_elements
          → IsWritten n before
          → IsWritten (n + l) later
          → IsWritten (n + (l + 1)) (lane_round r n before l later)
      lane_step r l n before later less e hi b h =
          subst (λ x. IsWritten x (lane_round r n before l later)) {x = n + l + 1} (omega arith)
            (subst
              (λ (x : ℕ). IsWritten (n + l + 1) (
                store later x (
                  result add nil t.scan_type (before (t.input + n + l))
                    (reg (frame_elem + 4 * r + l)))))
              {x = t.output + (n + l)} (omega arith)
              (write_step (n + l) later _ (omega (arith, e)) hi
                (ap (λ x. result add nil t.scan_type (before (t.input + n + l)) (reg x))
                    {y = frame_elem + (4 * r + l)} (omega arith)
                  ∙ computed (4 * r + l) (n + l) _ less (omega (arith, e)) hi
                      (ap before (omega arith) ∙ unread n (n + l) before b (omega arith) hi))
                h))

      packs-IsWritten :
          (after : Block A)
          → els_per_thread c % 4 ≡ 0
          → k * 2048 + 2048 ≤ t.num_elements
          → IsWritten (k * 2048 + frame_elem) after
          → IsWritten
              (k * 2048 + (frame_elem + els_per_thread c))
              (write_packs add nil w c t (mul_w w (chunk_extent c) k) frame_elem reg after)
      unfolding write_packs
      packs-IsWritten after four full h =
          subst
            (λ n.
              IsWritten (k * 2048 + (frame_elem + n))
                (write_packs add nil w c t (mul_w w (chunk_extent c) k) frame_elem reg after))
            {x = 4 * (els_per_thread c / 4)} {y = els_per_thread c} (omega (arith, four))
            (for_in-each (λ r f. IsWritten (k * 2048 + (frame_elem + 4 * r)) f)
              (λ r f. pack r (position w (mul_w w (chunk_extent c) k) frame_elem (4 * r)) f)
              (els_per_thread c / 4) after
              (λ r f less q.
                subst (λ n. IsWritten (k * 2048 + (frame_elem + 4 * (r + 1))) (pack r n f))
                  (sym (position_lem w c t k u p frame_elem (4 * r) (omega (arith, fits))))
                  (pack_step r f less q))
              (subst (λ n. IsWritten n after) (omega arith) h))
        where
          pack : ℕ → ℕ → Block A → Block A
          pack r n before = for_in 4 (lane_round r n before) 0 before

          pack_step :
              (r : ℕ) (before : Block A)
              → r < els_per_thread c / 4
              → IsWritten (k * 2048 + (frame_elem + 4 * r)) before
              → IsWritten
                  (k * 2048 + (frame_elem + 4 * (r + 1)))
                  (pack r (k * 2048 + (frame_elem + 4 * r)) before)
          pack_step r before less q =
              subst (λ n. IsWritten n (pack r (k * 2048 + (frame_elem + 4 * r)) before))
                {x = k * 2048 + (frame_elem + 4 * r) + 4} (omega arith)
                (for_in-each (λ l f. IsWritten (k * 2048 + (frame_elem + 4 * r) + l) f)
                  (lane_round r (k * 2048 + (frame_elem + 4 * r)) before) 4 before
                  (λ l f z y.
                    lane_step r l (k * 2048 + (frame_elem + 4 * r)) before f (omega arith) refl
                      (omega (arith, fits, full)) q y)
                  (subst (λ n. IsWritten n before) (omega arith) q))

      pub written_lem :
          (after : Block A)
          → IsWritten (k * 2048 + frame_elem) after
          → IsWritten (k * 2048 + (frame_elem + els_per_thread c)) (
              if elementwise w c t k
              then write_elements add nil w c t (mul_w w (chunk_extent c) k) frame_elem reg after
              else write_packs add nil w c t (mul_w w (chunk_extent c) k) frame_elem reg after)
      written_lem after h = elim (Bool-cases (elementwise w c t k)) [
        | inl e ↦ rw e (elements-IsWritten after h)
        | inr e ↦
            let (four, full) = elementwise_full w c t k u p e in
            rw e (packs-IsWritten after four full h)
      ]
