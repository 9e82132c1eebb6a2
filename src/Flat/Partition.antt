-- ===== src/Flat/Partition.antt =====
-- FlatIdxContainer.hpp with all dimensions selected, as `makeIdxMap` builds it: the workers of a
-- group share the linear indices of the range, each index going to one worker, once.
use native.Mathlib.Nat.{mod-eq_of_lt, mod-lt, mod-one, mod-add-mod, mod-eq-sub-mod}
use alpaka.Base.{
  ℕ, suc, ◌+◌, ◌-◌, ◌%◌, ◌^◌, ◌≤◌, ◌<◌, ◌≡◌, refl, sym, subst, ap, ap₂, ◌∙◌, List, map, some, arith,
  length, min, ◌&&◌, ltb, leb, ◌==◌, if◌then◌else◌, dec_lt, wrap, wrap_small,
}
use alpaka.Vec.{product}
use alpaka.IdxRange.{IdxRange}
use alpaka.ThreadSpace.{ThreadSpace, iota}
use alpaka.Flat.{
  strided, contiguous, FlatIdxContainer, make, begin, end_of, visited, begin_strided,
  begin_contiguous, end_strided, end_contiguous, extent_of, slot_begin,
}
use alpaka.Flat.Steps.{steps, count, hit, count-steps}
use alpaka.Flat.Loop.{position, visit-steps}
use alpaka.Flat.Group.{
  IsWorker, worker_number, num_workers, worker_number-lt, linearize_worker, product_workers,
  linearize_given, product_given,
}
use alpaka.Flat.Slots.{
  slot_start, slot_owner, slot_begin_exact, slot_owner_bounds, slot_owner_unique,
}

shift_mod : (k s d : ℕ) → s ≤ k → ((k - s) % d + s) % d ≡ k % d
shift_mod k s d q = mod-add-mod (k - s) d s ∙ ap (λ t. t % d) (omega arith)

zero→remainder : (k s d : ℕ) → s < d → s ≤ k → (k - s) % d ≡ 0 → k % d ≡ s
zero→remainder k s d h q e =
    sym (shift_mod k s d q)
    ∙ ap (λ t. (t + s) % d) e
    ∙ ap (λ t. t % d) {y = s} (omega arith)
    ∙ mod-eq_of_lt h

remainder→zero : (k s d : ℕ) → s < d → s ≤ k → k % d ≡ s → (k - s) % d ≡ 0
remainder→zero k s d h q e = elim (dec_lt ((k - s) % d + s) d) [
  | yes small ↦
      let back : (k - s) % d + s ≡ s = sym (mod-eq_of_lt small) ∙ shift_mod k s d q ∙ e in
      omega (arith, back)
  | no large ↦ absurd (omega (arith, wrapped (omega arith), mod-lt (k - s) {m = d} (omega arith)))
]
  where
    x : ℕ
    x = (k - s) % d

    wrapped : d ≤ x + s → x + s - d ≡ s
    wrapped l =
        sym (mod-eq_of_lt {m = d} (omega (arith, mod-lt (k - s) {m = d} (omega arith))))
        ∙ sym (mod-eq-sub-mod l)
        ∙ shift_mod k s d q
        ∙ e

-- Among numbers below e, those that start at s below d in steps of d are the ones with remainder s.
hit-mod : (k s d e : ℕ) → s < d → hit k s d e ≡ (if ltb k e && (k % d == s) then 1 else 0)
unfolding hit
hit-mod k s d e h = elim (dec_lt k s) [
  | yes below ↦ let r : k % d ≡ k = mod-eq_of_lt (omega arith) in ground (arith, r)
  | no above ↦
      ground (arith, zero→remainder k s d h (omega arith), remainder→zero k s d h (omega arith))
]

hit-one : (k s e : ℕ) → hit k s 1 e ≡ (if leb s k && ltb k e then 1 else 0)
unfolding hit
hit-one k s e = ground (arith, mod-one (k - s))

-- Membership in a slot is ownership.
hit-slot :
    (k n m s : ℕ)
    → s < m
    → hit k (slot_start n m s) 1 (min (slot_start n m (s + 1)) n)
      ≡ (if ltb k n && (slot_owner n m k == s) then 1 else 0)
hit-slot k n m s h =
    hit-one k (slot_start n m s) (min (slot_start n m (s + 1)) n)
    ∙ ground (arith, slot_owner_unique n m k s, owned)
  where
    owned : k < n → slot_owner n m k ≡ s → (slot_start n m s ≤ k) × (k < slot_start n m (s + 1))
    owned q e =
        subst (λ t. (slot_start n m t ≤ k) × (k < slot_start n m (t + 1))) e
          ((slot_owner_bounds n m k (omega arith) q).1, (slot_owner_bounds n m k (omega arith) q).2)

-- What the loop of a container yields, from the facts that its iterator starts at s, in steps of d,
-- and ends at e.
abbrev pub Visits : ℕ → FlatIdxContainer → (ℕ → ℕ) → Type 0
Visits w c times =
    (ks : List ℕ) × (visited w (suc (product w (extent_of w c))) c
      ≡ some (map (position w c.c_select (begin w c)) ks))
    × ((k : ℕ) → count k ks ≡ times k)

visits :
    (w : ℕ) (c : FlatIdxContainer) (times : ℕ → ℕ)
    → 0 < (begin w c).m_stride
    → end_of w c + (begin w c).m_stride ≤ 2 ^ w
    → end_of w c ≤ product w (extent_of w c)
    → ((k : ℕ) → hit k (begin w c).m_current (begin w c).m_stride (end_of w c) ≡ times k)
    → Visits w c times
unfolding visited
visits w c times p fits le h = (
  steps (product w (extent_of w c)) (begin w c).m_current (begin w c).m_stride (end_of w c),
  visit-steps w c.c_select (product w (extent_of w c)) (begin w c) (end_of w c) p fits
      (omega arith),
  λ k.
      count-steps (product w (extent_of w c)) k (begin w c).m_current (begin w c).m_stride
        (end_of w c) (omega arith) p
      ∙ h k,
)

hit_congr : (k e : ℕ) {s s' d d' : ℕ} → s ≡ s' → d ≡ d' → hit k s d e ≡ hit k s' d' e
hit_congr k e p q = ap₂ (λ s d. hit k s d e) p q

module _ (w : ℕ) (r : IdxRange) (ts : ThreadSpace) (worker : IsWorker w ts)
    (same_dim : length r.m_end ≡ length ts.m_thread_idx) where
  current_strided : (begin w (make r ts strided)).m_current ≡ worker_number ts
  unfolding begin begin_strided make
  current_strided = linearize_worker w ts worker (iota (length r.m_end)) (ap iota same_dim)

  stride_strided : (begin w (make r ts strided)).m_stride ≡ num_workers ts
  unfolding begin begin_strided make
  stride_strided = product_workers w ts worker (iota (length r.m_end)) (ap iota same_dim)

  -- For a worker index in bounds of a group of fewer than 2 ^ w workers, a range of as many
  -- dimensions, and the strided layout: if the number of indices and the number of workers together
  -- are at most 2 ^ w, the worker's loop ends, and it yields the positions of a list of linear
  -- indices in which k occurs once if it is below the number of indices and leaves the worker's
  -- number as its remainder by the number of workers, and does not occur otherwise.
  pub strided-partition :
      product w (extent_of w (make r ts strided)) + num_workers ts ≤ 2 ^ w
      → Visits w (make r ts strided) (λ k.
        if ltb k (product w (extent_of w (make r ts strided)))
          && (k % num_workers ts == worker_number ts)
        then 1
        else 0)
  unfolding end_of end_strided make
  strided-partition fits =
      visits w (make r ts strided) _ (omega (arith, stride_strided, inside))
        (omega (arith, stride_strided)) (omega arith)
        (λ k.
          hit_congr k (product w (extent_of w (make r ts strided))) current_strided stride_strided
          ∙ hit-mod k (worker_number ts) (num_workers ts) _ inside)
    where
      inside : worker_number ts < num_workers ts
      inside = worker_number-lt w ts worker

  abbrev total : ℕ
  total = product w (extent_of w (make r ts contiguous))

  current_contiguous :
      total < 2 ^ w
      → (begin w (make r ts contiguous)).m_current
        ≡ slot_start total (num_workers ts) (worker_number ts)
  unfolding begin begin_contiguous make
  current_contiguous fits =
      ap₂ (slot_begin w total)
        (product_given w ts worker (iota (length r.m_end)) (ap iota same_dim))
        (linearize_given w ts worker (iota (length r.m_end)) (ap iota same_dim))
      ∙ slot_begin_exact w total (num_workers ts) (worker_number ts)
          (omega (arith, worker_number-lt w ts worker))
          (omega (arith, worker_number-lt w ts worker)) fits

  stride_contiguous : (begin w (make r ts contiguous)).m_stride ≡ 1
  unfolding begin begin_contiguous make
  stride_contiguous = refl

  end_contiguous_lem :
      total < 2 ^ w
      → end_of w (make r ts contiguous)
        ≡ min (slot_start total (num_workers ts) (worker_number ts + 1)) total
  unfolding end_of end_contiguous make
  end_contiguous_lem fits =
      ap₂ (λ m s. min (slot_begin w total m (wrap w (s + 1))) total)
        (product_workers w ts worker (iota (length r.m_end)) (ap iota same_dim))
        (linearize_worker w ts worker (iota (length r.m_end)) (ap iota same_dim))
      ∙ ap (λ s. min (slot_begin w total (num_workers ts) s) total)
          (wrap_small w (omega (arith, worker_number-lt w ts worker, few)))
      ∙ ap (λ e. min e total)
          (slot_begin_exact w total (num_workers ts) (worker_number ts + 1)
            (omega (arith, worker_number-lt w ts worker))
            (omega (arith, worker_number-lt w ts worker)) fits)
    where
      open worker use {few}

  -- For a worker index in bounds of a group of fewer than 2 ^ w workers, a range of as many
  -- dimensions, and the contiguous layout: if the number of indices is below 2 ^ w, the worker's loop
  -- ends, and it yields the positions of a list of linear indices in which k occurs once if it is
  -- below the number of indices and `slot_owner` gives it to the worker, and does not occur otherwise.
  pub contiguous-partition :
      total < 2 ^ w
      → Visits w (make r ts contiguous) (λ k.
        if ltb k total && (slot_owner total (num_workers ts) k == worker_number ts) then 1 else 0)
  contiguous-partition fits =
      visits w (make r ts contiguous) _ (omega (arith, stride_contiguous))
        (omega (arith, stride_contiguous, end_contiguous_lem fits))
        (omega (arith, end_contiguous_lem fits))
        (λ k.
          ap₂ (λ s d. hit k s d (end_of w (make r ts contiguous))) (current_contiguous fits)
            stride_contiguous
          ∙ ap (hit k (slot_start total (num_workers ts) (worker_number ts)) 1)
              (end_contiguous_lem fits)
          ∙ hit-slot k total (num_workers ts) (worker_number ts) (worker_number-lt w ts worker))
