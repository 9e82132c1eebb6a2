-- ===== src/ScanBlocks/Kernel.antt =====
-- scan.hpp, Scan_ScanBlocksKernel: the chunks in any order.
use alpaka.Base.{
  ℕ, ◌+◌, ◌-◌, ◌*◌, ◌/◌, ◌^◌, ◌<◌, ◌≤◌, ◌≡◌, ◌≢◌, ◌⊎◌, inl, inr, refl, sym, ap, ap₂, ◌∙◌, arith,
  List, [], ◌∷◌, some, subst, ltb, lt→ltb, ltb-false, dec_lt, if◌then◌else◌,
}
use mathlib.Core.Option.{some-injective}
use alpaka.Executor.Order.{All}
use alpaka.Scan.{Block}
use alpaka.Scan.Prefix.{IsSum, prefix, total-ext}
use alpaka.ScanBlocks.{Config, ScanTask, result, scan_blocks_kernel}
use alpaka.ScanBlocks.Tuned.{IsTuned, IsPart}
use alpaka.ScanBlocks.Writes.{Apart}
use alpaka.ScanBlocks.Chunk.{Room, IsScanned}
use alpaka.ScanBlocks.Scanned.{scan_chunk_lem}

abbrev pub Present : ℕ → List ℕ → Type 0
Present k [] = ⊥
Present k (j ∷ js) = (k ≡ j) ⊎ Present k js

abbrev pub Distinct : List ℕ → Type 0
Distinct [] = Unit {0}
Distinct (k ∷ ks) = (Present k ks → ⊥) × Distinct ks

-- Every chunk once, in some order.
pub record IsOrder (num_chunks : ℕ) (order : List ℕ) : Type 0 where
  pub below : All (λ (k : ℕ). k < num_chunks) order
  pub distinct : Distinct order
  pub complete : (k : ℕ) → k < num_chunks → Present k order

pub Present-lt : (n k : ℕ) (ks : List ℕ) → All (λ (j : ℕ). j < n) ks → Present k ks → k < n
Present-lt n k [] h p = absurd p
Present-lt n k (j ∷ js) h (inl e) = omega (arith, e, h.0)
Present-lt n k (j ∷ js) h (inr p) = Present-lt n k js h.1 p

-- The vector fits w bits with one more chunk, and its chunks are counted.
pub record IsVector (w : ℕ) (t : ScanTask) : Type 0 where
  pub fits : t.num_elements + 2048 ≤ 2 ^ w
  pub chunks_exact : t.num_chunks ≡ (t.num_elements + 2048 - 1) / 2048

module _ {A : Type 0} (add : A → A → A) (nil : A) (laws : IsSum add nil) (w : ℕ) (c : Config)
    (t : ScanTask) (u : IsTuned c) (v : IsVector w t) (apart : Apart t) (room : Room t) where
  -- Element i of chunk k, and what element g of the output shall be.
  abbrev pub element : ℕ → Block A → ℕ → A
  element k memory i =
      if ltb (k * 2048 + i) t.num_elements then memory (t.input + (k * 2048 + i)) else nil

  abbrev pub chunk_result : ℕ → Block A → ℕ → A
  chunk_result k memory g =
      result add nil t.scan_type (memory (t.input + g))
        (prefix add nil (g - k * 2048) (element k memory))

  abbrev pub Inside : ℕ → ℕ → Type 0
  Inside k g = (k * 2048 ≤ g) × (g < k * 2048 + 2048) × (g < t.num_elements)

  same_chunk : (j k g : ℕ) → Inside j g → Inside k g → j ≡ k
  same_chunk j k g h q = omega arith

  -- What the chunks of a list leave.
  pub record AreScanned (ks : List ℕ) (memory after : Block A) : Type 0 where
    pub inside :
        (k g : ℕ) → Present k ks → Inside k g → after (t.output + g) ≡ chunk_result k memory g
    pub totals :
        (k s : ℕ)
        → Present k ks
        → t.block_sums ≡ some s
        → after (s + k) ≡ prefix add nil 2048 (element k memory)
    pub outside :
        (a : ℕ)
        → ((k g : ℕ) → Present k ks → Inside k g → a ≢ t.output + g)
        → ((k s : ℕ) → Present k ks → t.block_sums ≡ some s → a ≢ s + k)
        → after a ≡ memory a

  part : (k : ℕ) → k < t.num_chunks → IsPart w t k
  part k h = record {
    fits = v.fits;
    chunks_exact = v.chunks_exact;
    inside = omega (arith, v.chunks_exact, h);
  }

  module _ (k : ℕ) (ks : List ℕ) (memory middle after : Block A) (less : k < t.num_chunks)
      (fresh : Present k ks → ⊥)
      (first : IsScanned add nil laws w c t k u (part k less) memory middle)
      (rest : AreScanned ks middle after) where
    -- The input of the other chunks is still there.
    input_kept : (j g : ℕ) → Present j ks → Inside j g → middle (t.input + g) ≡ memory (t.input + g)
    input_kept j g q h =
        first.outside (t.input + g)
          (λ i lo hi z e. fresh (
            subst (λ n. Present n ks)
              (same_chunk j k g h
                (omega (arith, apart g i h.2 z e), omega (arith, apart g i h.2 z e), h.2))
              q))
          (λ s f e. omega (arith, e, h.2, (room s f).0))

    element_kept : (j i : ℕ) → Present j ks → i < 2048 → element j middle i ≡ element j memory i
    element_kept j i q h = elim (dec_lt (j * 2048 + i) t.num_elements) [
      | yes z ↦
          rw (lt→ltb (j * 2048 + i) t.num_elements z)
            (input_kept j (j * 2048 + i) q (omega arith, omega arith, z))
      | no z ↦ rw (ltb-false (j * 2048 + i) t.num_elements (omega arith)) refl
    ]

    chunk_result_kept :
        (j g : ℕ) → Present j ks → Inside j g → chunk_result j middle g ≡ chunk_result j memory g
    chunk_result_kept j g q h = ap₂ (result add nil t.scan_type) (input_kept j g q h) (
        total-ext add nil laws (g - j * 2048) (element j middle) (element j memory)
          (λ i z. element_kept j i q (omega (arith, h.0, h.1))))

    output_both :
        (j g : ℕ) → Present j (k ∷ ks) → Inside j g → after (t.output + g) ≡ chunk_result j memory g
    output_both j g (inl e) h =
        rest.outside (t.output + g)
          (λ i m q z f. absurd (
            fresh (
              subst (λ n. Present n ks)
                (same_chunk i k g (omega (arith, f, z), omega (arith, f, z), h.2)
                  (omega (arith, e, h), omega (arith, e, h), h.2))
                q)))
          (λ i s q f z. omega (arith, z, h.2, (room s f).1))
        ∙ first.inside g (omega (arith, e, h.0)) (omega (arith, e, h.1)) h.2
        ∙ ap (λ n. chunk_result n memory g) (sym e)
    output_both j g (inr q) h = rest.inside j g q h ∙ chunk_result_kept j g q h

    totals_both :
        (j s : ℕ)
        → Present j (k ∷ ks)
        → t.block_sums ≡ some s
        → after (s + j) ≡ prefix add nil 2048 (element j memory)
    totals_both j s (inl e) f =
        rest.outside (s + j) (λ i g q h z. omega (arith, z, h.2, (room s f).1))
          (λ i r q y z. absurd (
            fresh
              (subst (λ n. Present n ks) (omega (arith, z, e, some-injective s r (sym f ∙ y))) q)))
        ∙ ap (λ n. middle (s + n)) e
        ∙ first.total s f
        ∙ ap (λ n. prefix add nil 2048 (element n memory)) (sym e)
    totals_both j s (inr q) f =
        rest.totals j s q f
        ∙ total-ext add nil laws 2048 (element j middle) (element j memory)
            (λ i z. element_kept j i q z)

    AreScanned-cons : AreScanned (k ∷ ks) memory after
    AreScanned-cons = record {
      inside = output_both;
      totals = totals_both;
      outside = λ a h q.
          rest.outside a (λ j g z. h j g (inr z)) (λ j s z. q j s (inr z))
          ∙ first.outside a (λ g lo hi z. h k g (inl refl) (lo, hi, z)) (λ s. q k s (inl refl));
    }

  module _ (fuel : ℕ) (unset : ℕ → Block A × Block A) (few : u.mini < fuel)
      (short : u.shared < fuel) where
    pub scan_blocks_kernel_lem :
        (ks : List ℕ) (memory : Block A)
        → All (λ (k : ℕ). k < t.num_chunks) ks
        → Distinct ks
        → (after : Block A) × (scan_blocks_kernel add nil w fuel c t unset ks memory ≡ some after)
          × AreScanned ks memory after
    unfolding scan_blocks_kernel
    scan_blocks_kernel_lem [] memory h d = (
      memory,
      refl,
      record { inside = λ k g q. absurd q; totals = λ k s q. absurd q; outside = λ a q z. refl },
    )
    scan_blocks_kernel_lem (k ∷ ks) memory h d =
        let (middle, found, first) =
          scan_chunk_lem add nil laws w c t k u (part k h.0) memory apart room fuel (unset k).0
            (unset k).1 few short in
        let (after, found', rest) = scan_blocks_kernel_lem ks middle h.1 d.1 in
        (after, rw found found', AreScanned-cons k ks memory middle after h.0 d.0 first rest)
