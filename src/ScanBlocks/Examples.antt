-- ===== src/ScanBlocks/Examples.antt =====
-- Concrete inputs for the theorem on include/alpaka/onHost/algo/internal/scan.hpp.
use mathlib.Core.Option
use native.Mathlib.Nat.{add_comm, add_assoc, zero-add}
use alpaka.Base.{
  ℕ, zero, suc, ◌+◌, ◌*◌, ◌^◌, ◌<◌, ◌≤◌, ◌≡◌, inl, inr, refl, arith, List, [], ◌∷◌, some, wrap,
  dec_lt,
}
use alpaka.Scan.{Block}
use alpaka.Scan.Prefix.{IsSum}
use alpaka.ThreadSpace.{iota, iota_from}
use alpaka.Executor.Order.{iota_from-All}
use alpaka.ScanBlocks.{
  Config, Environment, exclusive_scan, inclusive_scan, chunk_extent, mini_block_size,
  els_per_thread, scan_levels,
}
use alpaka.ScanBlocks.Tuned.{IsTuned}
use alpaka.ScanBlocks.Kernel.{Present, Distinct}
use alpaka.ScanBlocks.Calls.{Touched, Separate}
use alpaka.ScanBlocks.Levels.{IsEnvironment, IsPrefixSum, scan_levels-IsPrefixSum}

abbrev config : Config
config = record { num_threads = 256; maximum_mini_block_size = 8; warp_size = 32 }

config_whole : chunk_extent config ≡ 2048
unfolding chunk_extent els_per_thread
config_whole = refl

config_mini : mini_block_size config ≡ 2 ^ 3
unfolding mini_block_size els_per_thread
config_mini = refl

config_rounds : els_per_thread config ≡ 1 * 2 ^ 3
unfolding els_per_thread
config_rounds = refl

config_warp : 0 < config.warp_size
config_warp = omega arith

abbrev config-IsTuned : IsTuned config
config-IsTuned = record {
  mini = 3;
  shared = 8;
  rounds = 1;
  has_warp = config_warp;
  whole = config_whole;
  mini_exact = config_mini;
  rounds_exact = config_rounds;
  shared_exact = refl;
}

-- One call for each element.
abbrev singles : ℕ → ℕ → List (ℕ × ℕ)
singles first zero = []
singles first (suc n) = (first, 1) ∷ singles (first + 1) n

abbrev environment : Environment ◌+◌ 0
environment = record { order = iota; calls = singles 0; unset = λ k. (λ i. 7, λ i. 9) }

iota_from-Present : (first n k : ℕ) → first ≤ k → k < first + n → Present k (iota_from first n)
unfolding iota_from
iota_from-Present first zero k h q = absurd (omega arith)
iota_from-Present first (suc n) k h q = elim (dec_lt first k) [
  | yes later ↦ inr (iota_from-Present (first + 1) n k (omega arith) (omega arith))
  | no now ↦ inl (omega arith)
]

Present-iota_from : (first n k : ℕ) → Present k (iota_from first n) → first ≤ k
unfolding iota_from
Present-iota_from first zero k h = absurd h
Present-iota_from first (suc n) k (inl e) = omega (arith, e)
Present-iota_from first (suc n) k (inr h) = omega (arith, Present-iota_from (first + 1) n k h)

iota_from-Distinct : (first n : ℕ) → Distinct (iota_from first n)
unfolding iota_from
iota_from-Distinct first zero = tt
iota_from-Distinct first (suc n) =
    (λ h. omega (arith, Present-iota_from (first + 1) n first h), iota_from-Distinct (first + 1) n)

touched : (first n i : ℕ) → Touched i (singles first n) → (first ≤ i) × (i < first + n)
touched first zero i h = absurd h
touched first (suc n) i (inl h) = (h.0, omega (arith, h.1))
touched first (suc n) i (inr h) =
    let (lo, hi) = touched (first + 1) n i h in (omega (arith, lo), omega (arith, hi))

touches : (first n i : ℕ) → first ≤ i → i < first + n → Touched i (singles first n)
touches first zero i h q = absurd (omega arith)
touches first (suc n) i h q = elim (dec_lt first i) [
  | yes later ↦ inr (touches (first + 1) n i (omega arith) (omega arith))
  | no now ↦ inl (h, omega arith)
]

singles-Separate : (first n : ℕ) → Separate (singles first n)
singles-Separate first zero = tt
singles-Separate first (suc n) = (
  λ i h. (λ q. omega (arith, (touched (first + 1) n i q).0, h.1), omega (arith, h.0, h.1)),
  singles-Separate (first + 1) n,
)

plus-IsSum : IsSum ◌+◌ 0
plus-IsSum = record { add_assoc = add_assoc; add_comm = add_comm; nil_add = zero-add }

environment-IsEnvironment : IsEnvironment ◌+◌ 0 plus-IsSum environment
unfolding iota
environment-IsEnvironment = record {
  orders = λ n. record {
    below = iota_from-All n 0 n (omega arith);
    distinct = iota_from-Distinct 0 n;
    complete = λ k h. iota_from-Present 0 n k (omega arith) (omega arith);
  };
  all_calls = λ n. record {
    below = λ i h. omega (arith, (touched 0 n i h).1);
    separate = singles-Separate 0 n;
    complete = λ i h. touches 0 n i (omega arith) (omega arith);
  };
}

-- Five thousand elements in three chunks, scanned in place.
scan_levels-IsPrefixSum_example :
    (after : Block ℕ) × (scan_levels ◌+◌ 0 32 5001 9 config environment inclusive_scan 6000 100 100
        5000
        (λ i. i)
      ≡ some after)
    × IsPrefixSum ◌+◌ 0 plus-IsSum inclusive_scan 6000 100 100 5000 (λ i. i) after
scan_levels-IsPrefixSum_example =
    scan_levels-IsPrefixSum ◌+◌ 0 plus-IsSum 32 config config-IsTuned environment
      environment-IsEnvironment 9 (omega arith) (omega arith) 5001 inclusive_scan 6000 100 100 5000
      (λ i. i) (omega arith) (omega arith) (λ i g h q e. omega (arith, e)) (omega arith)
      (omega arith)

-- The third of five elements, with both kinds of scan.
five_inclusive :
    Option.map
      (λ (f : Block ℕ). f 2)
      (scan_levels ◌+◌ 0 32 1 9 config environment inclusive_scan 100 0 0 5 (λ i. i + 1))
    ≡ some 6
unfolding scan_levels wrap iota
five_inclusive = refl

five_exclusive :
    Option.map
      (λ (f : Block ℕ). f 12)
      (scan_levels ◌+◌ 0 32 1 9 config environment exclusive_scan 100 10 0 5 (λ i. i + 1))
    ≡ some 3
unfolding scan_levels wrap iota
five_exclusive = refl
