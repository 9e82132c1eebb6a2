-- ===== src/Reduce/Examples.antt =====
-- Concrete inputs for the theorem on include/alpaka/onHost/algo/internal/transformReduce.hpp.
use alpaka.Base.{ℕ, ◌+◌, ◌*◌, ◌≡◌, refl, arith, List, [], ◌∷◌, some, wrap}
use alpaka.Flat.{strided}
use alpaka.Flat.Steps.{count}
use alpaka.Scan.{Block}
use alpaka.Scan.Prefix.{IsSum}
use alpaka.Reduce.{reduce_blocks}
use alpaka.Reduce.Sums.{sum}
use alpaka.Reduce.Threads.{EachOnce}
use alpaka.Reduce.Result.{reduce_blocks-sum}

abbrev ints : IsSum {A = ℕ} (λ x y. x + y) 0
ints = record {
  add_assoc = λ x y z. omega arith;
  add_comm = λ x y. omega arith;
  nil_add = λ x. omega arith;
}

-- Four threads, of which the last comes first, and two blocks in reverse order.
abbrev threads : List ℕ
threads = 3 ∷ 0 ∷ 1 ∷ 2 ∷ []

threads-EachOnce : EachOnce 4 threads
unfolding count
threads-EachOnce k = ground arith

abbrev grid : List ℕ
grid = 1 ∷ 0 ∷ []

grid-EachOnce : EachOnce 2 grid
unfolding count
grid-EachOnce k = ground arith

abbrev slots : ℕ → Block ℕ
slots i k = 100 * i + k * k

-- Six slots for four threads.
slots_reduced : reduce_blocks (λ x y. x + y) 16 strided 4 6 (λ i k. threads) slots grid 0 ≡ some 710
unfolding reduce_blocks wrap
slots_reduced = refl

reduce_blocks-sum_example :
    reduce_blocks (λ x y. x + y) 16 strided 4 6 (λ i k. threads) slots grid 0
    ≡ some (sum (λ x y. x + y) 0 ints 2 (λ i. sum (λ x y. x + y) 0 ints 6 (slots i)))
reduce_blocks-sum_example =
    reduce_blocks-sum (λ x y. x + y) 0 ints 16 strided 4 6 (2, refl) (omega arith) (omega arith)
      (λ i k. threads) slots 2 grid (λ i k. threads-EachOnce) grid-EachOnce
