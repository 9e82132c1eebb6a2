-- ===== src/Philox/Rounds.antt =====
-- PhiloxStateless.hpp and multiplyAndSplit64to32.hpp: the multiplication and the schedule of the keys.
use native.Mathlib.Nat.{mul-le-mul}
use alpaka.Base.{
  ℕ, zero, suc, ◌+◌, ◌-◌, ◌*◌, ◌^◌, ◌<◌, ◌≡◌, refl, sym, ap, ap₂, ◌∙◌, List, [], ◌∷◌, arith, wrap,
  add_w, wrap_small, wrap-add_left,
}
use alpaka.Philox.{
  Counter, Key, multiply_and_split, high32_bits, low32_bits, single_round, bump_key, round_loop,
  n_rounds, weyl_32_0, weyl_32_1,
}

-- For 32-bit factors the two halves together are the product, with nothing lost.
pub multiply_and_split-product :
    (a b : ℕ)
    → a < 2 ^ 32
    → b < 2 ^ 32
    → (multiply_and_split a b).0 * 2 ^ 32 + (multiply_and_split a b).1 ≡ a * b
unfolding multiply_and_split high32_bits low32_bits wrap
multiply_and_split-product a b h k = omega (arith, below)
  where
    below : a * b < 2 ^ 64
    below = omega (
      arith,
      mul-le-mul {n₁ = a} {m₁ = b} {n₂ = 2 ^ 32 - 1} {m₂ = 2 ^ 32 - 1} (omega arith) (omega arith),
    )

-- The key of round i, and the keys of n rounds from round i on.
unfoldable pub round_key : Key → ℕ → Key
round_key k i = record { k0 = wrap 32 (k.k0 + i * weyl_32_0); k1 = wrap 32 (k.k1 + i * weyl_32_1) }

unfoldable pub schedule : Key → ℕ → ℕ → List Key
unfolding round_key
schedule k i zero = []
schedule k i (suc n) = round_key k i ∷ schedule k (suc i) n

unfoldable pub apply_rounds : List Key → Counter → Counter
unfolding single_round
apply_rounds [] c = c
apply_rounds (k ∷ ks) c = apply_rounds ks (single_round c k)

bump-round_key : (k : Key) (i : ℕ) → bump_key (round_key k i) ≡ round_key k (suc i)
unfolding bump_key round_key
bump-round_key k i =
    ap₂ (λ a b. record { k0 = a; k1 = b }) (word k.k0 weyl_32_0) (word k.k1 weyl_32_1)
  where
    word : (a s : ℕ) → add_w 32 (wrap 32 (a + i * s)) s ≡ wrap 32 (a + suc i * s)
    word a s = wrap-add_left 32 (a + i * s) s ∙ ap (wrap 32) (omega arith)

round_loop-schedule :
    (n i : ℕ) (c : Counter) (k : Key)
    → round_loop n c (round_key k i) ≡ apply_rounds (schedule k (suc i) n) c
unfolding round_loop schedule apply_rounds
round_loop-schedule zero i c k = refl
round_loop-schedule (suc n) i c k =
    ap (λ q. round_loop n (single_round c q) q) (bump-round_key k i)
    ∙ round_loop-schedule n (suc i) (single_round c (round_key k (suc i))) k

-- For a key of 32-bit words, `nRounds` applies rounds + 1 rounds, with the keys k, k + W, k + 2 W and
-- so on for the Weyl step W, each word modulo 2 ^ 32.
pub n_rounds-schedule :
    (rounds : ℕ) (c : Counter) (k : Key)
    → k.k0 < 2 ^ 32
    → k.k1 < 2 ^ 32
    → n_rounds rounds c k ≡ apply_rounds (schedule k 0 (suc rounds)) c
unfolding n_rounds schedule apply_rounds
n_rounds-schedule rounds c k p q =
    ap (λ t. round_loop rounds (single_round c t) t) (sym first)
    ∙ round_loop-schedule rounds 0 (single_round c (round_key k 0)) k
  where
    word : (a s : ℕ) → a < 2 ^ 32 → wrap 32 (a + 0 * s) ≡ a
    word a s h = ap (wrap 32) (omega arith) ∙ wrap_small 32 h

    first : round_key k 0 ≡ k
    first = ap₂ (λ a b. record { k0 = a; k1 = b }) (word k.k0 weyl_32_0 p) (word k.k1 weyl_32_1 q)
