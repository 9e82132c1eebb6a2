-- ===== src/Scan/Prefix.antt =====
-- scan.hpp, scanMiniBlock: the exclusive prefix sums of a block whose extent is a power of two.
use alpaka.Base.{
  ℕ, zero, suc, ◌+◌, ◌-◌, ◌*◌, ◌/◌, ◌%◌, ◌^◌, ◌<◌, ◌≤◌, ◌≡◌, ◌≢◌, refl, sym, ap, ap₂, ◌∙◌, arith,
  some, ltb, lt→ltb, ltb-false, dec_lt, subst, if◌then◌else◌, pow_pos,
}
use mathlib.Core.Path.{fun_ext}
use alpaka.Scan.{Block, store, up_inner, up_sweep, down_inner, down_sweep, scan_mini_block}
use alpaka.Scan.Fuel.{up_sweep-more, down_sweep-more}
use alpaka.Scan.Rounds.{up_all, down_all, up_sweep-up_all, down_sweep-down_all}
use alpaka.Scan.Sweep.{
  place, place-apart, place_double, store_same, store_other, up_rest, up_right, down_rest,
  down_pair,
}

-- The laws of `+` and `T_Data{0}` that the sweeps rely on.
pub record IsSum {A : Type 0} (add : A → A → A) (nil : A) : Type 0 where
  pub add_assoc : (x y z : A) → add (add x y) z ≡ add x (add y z)
  pub add_comm : (x y : A) → add x y ≡ add y x
  pub nil_add : (x : A) → add nil x ≡ x

-- The sum of the first elements.
unfoldable pub prefix {ℓ} : {A : Type ℓ} → (A → A → A) → A → ℕ → (ℕ → A) → A
prefix add nil zero x = nil
prefix add nil (suc n) x = add (prefix add nil n x) (x n)

module _ {A : Type 0} (add : A → A → A) (nil : A) (laws : IsSum add nil) where
  abbrev pub total : ℕ → (ℕ → A) → A
  total = prefix add nil

  pub total-ext : (n : ℕ) (x y : ℕ → A) → ((i : ℕ) → i < n → x i ≡ y i) → total n x ≡ total n y
  unfolding prefix
  total-ext zero x y h = refl
  total-ext (suc n) x y h = ap₂ add (total-ext n x y (λ i q. h i (omega arith))) (h n (omega arith))

  total_pairs :
      (n : ℕ) (x : ℕ → A) → total n (λ i. add (x (2 * i + 1)) (x (2 * i))) ≡ total (2 * n) x
  unfolding prefix
  total_pairs zero x = refl
  total_pairs (suc n) x =
      ap₂ add (total_pairs n x) (laws.add_comm (x (2 * n + 1)) (x (2 * n)))
      ∙ sym (laws.add_assoc (total (2 * n) x) (x (2 * n)) (x (2 * n + 1)))
      ∙ ap (λ k. add (add (total (2 * n) x) (x (2 * n))) (x k)) {y = suc (2 * n)} (omega arith)
      ∙ ap (λ k. total k x) {x = suc (suc (2 * n))} {y = 2 * suc n} (omega arith)

  -- The sweeps of a view: the total, the prefix sums, and what lies outside the view.
  record Swept (m s : ℕ) (f : Block A) : Type 0 where
    all : up_all add m s f (place s (2 ^ m - 1)) ≡ total (2 ^ m) (λ i. f (place s i))
    each :
        (j : ℕ)
        → j < 2 ^ m
        → down_all add m s (store (up_all add m s f) (place s (2 ^ m - 1)) nil) (place s j)
          ≡ total j (λ i. f (place s i))
    others :
        (p : ℕ)
        → ((k : ℕ) → k < 2 ^ m → p ≢ place s k)
        → down_all add m s (store (up_all add m s f) (place s (2 ^ m - 1)) nil) p ≡ f p

  Swept-zero : (s : ℕ) (f : Block A) → Swept zero s f
  unfolding up_all down_all prefix
  Swept-zero s f = record {
    all = sym (laws.nil_add (f (place s 0)));
    each = λ j h.
        ap (λ k. store f (place s 0) nil (place s k)) {y = 0} (omega arith)
        ∙ store_same f (place s 0) nil
        ∙ ap (λ k. total k (λ i. f (place s i))) {x = 0} (omega arith);
    others = λ p h. store_other f (place s 0) p nil (h 0 (omega arith));
  }

  module _ (m s : ℕ) (pos : 0 < s) (f : Block A) where
    -- After the first stage of the up-sweep.
    abbrev paired : Block A
    paired = up_inner add s (2 ^ m) 0 f

    paired_right :
        (i : ℕ)
        → i < 2 ^ m
        → paired (place (s * 2) i) ≡ add (f (place s (2 * i + 1))) (f (place s (2 * i)))
    paired_right i h =
        ap paired (place_double s i) ∙ up_right add s pos (2 ^ m) 0 i f (omega arith) (omega arith)

    paired_left : (i : ℕ) → paired (place s (2 * i)) ≡ f (place s (2 * i))
    paired_left i =
        up_rest add s pos (2 ^ m) 0 (place s (2 * i)) f
          (λ k q r. place-apart s (2 * i) (2 * k + 1) pos (λ e. omega (arith, e)))

    total-paired :
        (j : ℕ)
        → j ≤ 2 ^ m
        → total j (λ i. paired (place (s * 2) i)) ≡ total (2 * j) (λ i. f (place s i))
    total-paired j h =
        total-ext j _ _ (λ i q. paired_right i (omega arith)) ∙ total_pairs j (λ i. f (place s i))

    last_place : place (s * 2) (2 ^ m - 1) ≡ place s (2 ^ suc m - 1)
    last_place = place_double s (2 ^ m - 1) ∙ ap (place s) (omega (arith, pow_pos m))

    module _ (half : Swept m (s * 2) paired) where
      -- Before the last stage of the down-sweep.
      abbrev before_last : Block A
      before_last =
          down_all add m (s * 2)
            (store (up_all add m (s * 2) paired) (place (s * 2) (2 ^ m - 1)) nil)

      abbrev after_last : Block A
      after_last = down_inner add s (2 ^ m) 0 before_last

      right_before :
          (i : ℕ)
          → i < 2 ^ m
          → before_last (place s (2 * i + 1)) ≡ total (2 * i) (λ k. f (place s k))
      right_before i h =
          ap before_last (sym (place_double s i)) ∙ half.each i h ∙ total-paired i (omega arith)

      left_before : (i : ℕ) → before_last (place s (2 * i)) ≡ f (place s (2 * i))
      left_before i =
          half.others (place s (2 * i)) (λ k q e.
            place-apart s (2 * i) (2 * k + 1) pos (λ d. omega (arith, d)) (e ∙ place_double s k))
          ∙ paired_left i

      each_after :
          (i : ℕ)
          → i < 2 ^ m
          → (after_last (place s (2 * i)) ≡ total (2 * i) (λ k. f (place s k)))
            × (after_last (place s (2 * i + 1)) ≡ total (suc (2 * i)) (λ k. f (place s k)))
      unfolding prefix
      each_after i h =
          let pair = down_pair add s pos (2 ^ m) 0 i before_last (omega arith) (omega arith) in
          (pair.0 ∙ right_before i h, pair.1 ∙ ap₂ add (right_before i h) (left_before i))

      each_of : (j : ℕ) → j < 2 ^ suc m → after_last (place s j) ≡ total j (λ k. f (place s k))
      each_of j h = elim (dec_lt 0 (j % 2)) [
        | yes odd ↦
            ap (λ k. after_last (place s k)) {y = 2 * (j / 2) + 1} (omega arith)
            ∙ (each_after (j / 2) (omega arith)).1
            ∙ ap (λ n. total n (λ k. f (place s k))) {y = j} (omega arith)
        | no even ↦
            ap (λ k. after_last (place s k)) {y = 2 * (j / 2)} (omega arith)
            ∙ (each_after (j / 2) (omega arith)).0
            ∙ ap (λ n. total n (λ k. f (place s k))) {y = j} (omega arith)
      ]

      others_of : (p : ℕ) → ((k : ℕ) → k < 2 ^ suc m → p ≢ place s k) → after_last p ≡ f p
      others_of p h =
          down_rest add s pos (2 ^ m) 0 p before_last (λ k q r. h k (omega arith))
          ∙ half.others p (λ k q e. h (2 * k + 1) (omega arith) (e ∙ place_double s k))
          ∙ up_rest add s pos (2 ^ m) 0 p f (λ k q r. h (2 * k + 1) (omega arith))

      Swept-suc : Swept (suc m) s f
      unfolding up_all down_all
      Swept-suc = record {
        all =
            ap (up_all add m (s * 2) paired) (sym last_place)
            ∙ half.all
            ∙ total-paired (2 ^ m) (omega arith)
            ∙ ap (λ n. total n (λ i. f (place s i))) {y = 2 ^ suc m} (omega arith);
        each =
            subst
              (λ q.
                (j : ℕ)
                → j < 2 ^ suc m
                → down_inner add s (2 ^ m) 0
                    (down_all add m (s * 2) (store (up_all add m (s * 2) paired) q nil)) (place s j)
                  ≡ total j (λ k. f (place s k)))
              last_place each_of;
        others =
            subst
              (λ q.
                (p : ℕ)
                → ((k : ℕ) → k < 2 ^ suc m → p ≢ place s k)
                → down_inner add s (2 ^ m) 0
                    (down_all add m (s * 2) (store (up_all add m (s * 2) paired) q nil)) p
                  ≡ f p)
              last_place others_of;
      }

  swept : (m s : ℕ) (f : Block A) → 0 < s → Swept m s f
  swept zero s f pos = Swept-zero s f
  swept (suc m) s f pos =
      Swept-suc m s pos f (swept m (s * 2) (up_inner add s (2 ^ m) 0 f) (omega arith))

  at_one : (k : ℕ) → place 1 k ≡ k
  at_one k = omega arith

  scanned : ℕ → Block A → Block A
  scanned m block = down_all add m 1 (store (up_all add m 1 block) (2 ^ m - 1) nil)

  down_from_one :
      (m : ℕ) (f : Block A)
      → down_sweep add (suc m) (2 ^ m) 1 (2 ^ m / 2) f ≡ some (down_all add m 1 f)
  unfolding down_all
  down_from_one m f =
      ap (λ k. down_sweep add (suc m) (2 ^ k) 1 (2 ^ m / 2) f) {y = 0 + m} (omega arith)
      ∙ down_sweep-down_all add 0 m f
      ∙ ap (λ k. some (down_all add k 1 f)) {x = 0 + m} (omega arith)

  total_at_one : (n : ℕ) (block : Block A) → total n (λ i. block (place 1 i)) ≡ total n block
  total_at_one n block = total-ext n _ _ (λ i q. ap block (at_one i))

  scanned_value :
      (m : ℕ) (block : Block A) (j : ℕ)
      → scanned m block j ≡ (if ltb j (2 ^ m) then total j block else block j)
  unfolding scanned
  scanned_value m block j = elim (dec_lt j (2 ^ m)) [
    | yes less ↦ rw (lt→ltb j (2 ^ m) less) (
        moved
        ∙ ap whole (sym (at_one j))
        ∙ Swept.each (swept m 1 block (omega arith)) j less
        ∙ total_at_one j block)
    | no more ↦ rw (ltb-false j (2 ^ m) (omega arith)) (
        moved
        ∙ Swept.others (swept m 1 block (omega arith)) j (λ k q e. omega (arith, at_one k, e)))
  ]
    where
      whole : Block A
      whole = down_all add m 1 (store (up_all add m 1 block) (place 1 (2 ^ m - 1)) nil)

      moved : down_all add m 1 (store (up_all add m 1 block) (2 ^ m - 1) nil) j ≡ whole j
      moved =
          ap (λ q. down_all add m 1 (store (up_all add m 1 block) q nil) j)
            (sym (at_one (2 ^ m - 1)))

  -- The block after the sweeps.
  abbrev pub prefixed : ℕ → Block A → Block A
  prefixed m block j = if ltb j (2 ^ m) then prefix add nil j block else block j

  swept_values :
      (m : ℕ) (block : Block A)
      → (up_sweep add (suc m) (2 ^ m / 2) 1 block ≡ some (up_all add m 1 block))
        × (up_all add m 1 block (2 ^ m - 1) ≡ prefix add nil (2 ^ m) block)
        × (down_sweep add
              (suc m)
              (2 ^ m)
              1
              (2 ^ m / 2)
              (store (up_all add m 1 block) (2 ^ m - 1) nil)
            ≡ some (prefixed m block))
  unfolding scanned
  swept_values m block = (
    up_sweep-up_all add m 1 block,
    ap (up_all add m 1 block) (sym (at_one (2 ^ m - 1)))
        ∙ Swept.all (swept m 1 block (omega arith))
        ∙ total_at_one (2 ^ m) block,
    down_from_one m (store (up_all add m 1 block) (2 ^ m - 1) nil)
        ∙ ap some (fun_ext (scanned_value m block)),
  )

  -- The sweeps with fuel for at least m + 1 tests each.
  pub sweeps_lem :
      (fuel m : ℕ) (block : Block A)
      → m < fuel
      → (summed : Block A) × (up_sweep add fuel (2 ^ m / 2) 1 block ≡ some summed)
        × (summed (2 ^ m - 1) ≡ prefix add nil (2 ^ m) block)
        × (down_sweep add fuel (2 ^ m) 1 (2 ^ m / 2) (store summed (2 ^ m - 1) nil)
            ≡ some (prefixed m block))
  sweeps_lem fuel m block h =
      let (up, last, down) = swept_values m block in
      (
        up_all add m 1 block,
        up_sweep-more add (suc m) fuel (2 ^ m / 2) 1 block (up_all add m 1 block) up h,
        last,
        down_sweep-more add (suc m) fuel (2 ^ m) 1 (2 ^ m / 2)
            (store (up_all add m 1 block) (2 ^ m - 1) nil) (prefixed m block) down h,
      )

  pub scan_mini_block_lem :
      (fuel m : ℕ) (block : Block A)
      → m < fuel
      → scan_mini_block add nil fuel (2 ^ m) block
        ≡ some (prefixed m block, prefix add nil (2 ^ m) block)
  unfolding scan_mini_block
  scan_mini_block_lem fuel m block h =
      let (summed, up, last, down) = sweeps_lem fuel m block h in
      rw (up, down) (ap (λ t. some (prefixed m block, t)) last)

  -- For a miniblock of 2 ^ m elements and an addition that is associative, commutative, and has the
  -- zero element as its unit, with fuel for m + 1 tests of each sweep: both sweeps end, the result is the
  -- sum of all elements, and each element is replaced by the sum of the elements before it; what lies
  -- beyond the extent is left alone.
  pub scan_mini_block-prefix :
      (m : ℕ) (block : Block A) (j : ℕ)
      → (after : Block A) × (scan_mini_block add nil (suc m) (2 ^ m) block
          ≡ some (after, prefix add nil (2 ^ m) block))
        × (after j ≡ (if ltb j (2 ^ m) then prefix add nil j block else block j))
  scan_mini_block-prefix m block j =
      (prefixed m block, scan_mini_block_lem (suc m) m block (omega arith), refl)
