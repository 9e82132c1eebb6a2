-- ===== src/ScanBlocks/Totals.antt =====
-- scan.hpp: the prefix sums of a vector from those of its blocks.
use alpaka.Base.{ℕ, zero, suc, ◌+◌, ◌*◌, ◌≡◌, sym, ap, ◌∙◌, arith}
use alpaka.Scan.Prefix.{IsSum, prefix}

module _ {A : Type 0} (add : A → A → A) (nil : A) (laws : IsSum add nil) where
  pub add_nil : (x : A) → add x nil ≡ x
  add_nil x = laws.add_comm x nil ∙ laws.nil_add x

  pub prefix-add :
      (a r : ℕ) (x : ℕ → A)
      → prefix add nil (a + r) x ≡ add (prefix add nil a x) (prefix add nil r (λ i. x (a + i)))
  unfolding prefix
  prefix-add a zero x =
      ap (λ n. prefix add nil n x) {x = a + 0} {y = a} (omega arith)
      ∙ sym (add_nil (prefix add nil a x))
  prefix-add a (suc r) x =
      ap (λ n. prefix add nil n x) {x = a + suc r} {y = suc (a + r)} (omega arith)
      ∙ ap (λ t. add t (x (a + r))) (prefix-add a r x)
      ∙ laws.add_assoc (prefix add nil a x) (prefix add nil r (λ i. x (a + i))) (x (a + r))

  -- The sum of block b of the given size.
  abbrev pub block_total : ℕ → (ℕ → A) → ℕ → A
  block_total size x b = prefix add nil size (λ i. x (b * size + i))

  prefix_whole :
      (size b : ℕ) (x : ℕ → A) → prefix add nil (b * size) x ≡ prefix add nil b (block_total size x)
  unfolding prefix
  prefix_whole size zero x = ap (λ n. prefix add nil n x) {x = 0 * size} {y = 0} (omega arith)
  prefix_whole size (suc b) x =
      ap (λ n. prefix add nil n x) {x = suc b * size} {y = b * size + size} (omega arith)
      ∙ prefix-add (b * size) size x
      ∙ ap (λ t. add t (block_total size x b)) (prefix_whole size b x)

  pub prefix_blocks :
      (size b r : ℕ) (x : ℕ → A)
      → add (prefix add nil r (λ i. x (b * size + i))) (prefix add nil b (block_total size x))
        ≡ prefix add nil (b * size + r) x
  prefix_blocks size b r x =
      laws.add_comm _ _
      ∙ ap (λ t. add t (prefix add nil r (λ i. x (b * size + i)))) (sym (prefix_whole size b x))
      ∙ sym (prefix-add (b * size) r x)

  pub prefix_all :
      (size b : ℕ) (x : ℕ → A) → prefix add nil b (block_total size x) ≡ prefix add nil (b * size) x
  prefix_all size b x = sym (prefix_whole size b x)
