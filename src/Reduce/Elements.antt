-- ===== src/Reduce/Elements.antt =====
-- transformReduce.hpp: the slots that each thread of a block adds to its own.
use native.Mathlib.Nat.{div-one, mod-lt}
use alpaka.Base.{
  ℕ, ◌+◌, ◌-◌, ◌%◌, ◌^◌, ◌<◌, ◌≤◌, ◌≡◌, refl, ap, ap₂, ◌∙◌, arith, List, [], ◌∷◌, map, some, ltb,
  ◌==◌, ◌&&◌, if◌then◌else◌, wrap_small, add_w, mul_w,
}
use alpaka.Vec.{product, vec_add, vec_mul}
use alpaka.Vec.Linear.{volume, row_major}
use alpaka.Vec.RoundTrip.{unrank}
use alpaka.IdxRange.{IdxRange, distance}
use alpaka.ThreadSpace.{ThreadSpace}
use alpaka.Flat.{Layout, strided, contiguous, make, begin, extent_of}
use alpaka.Flat.Steps.{count}
use alpaka.Flat.Loop.{position}
use alpaka.Flat.Group.{IsWorker, worker_number, num_workers}
use alpaka.Flat.Slots.{slot_owner, slot_owner_bounds}
use alpaka.Flat.Position.{extent_exact}
use alpaka.Flat.Partition.{Visits, strided-partition, contiguous-partition}
use alpaka.Flat.Grid.{position-OnGrid}
use alpaka.Reduce.{shared_elements}

-- The thread that adds the slot `block_size + k`.
abbrev pub owner : Layout → ℕ → ℕ → ℕ → ℕ
owner Layout.strided b n k = k % b
owner Layout.contiguous b n k = slot_owner n b k

pub owner-lt : (l : Layout) (b n k : ℕ) → 0 < b → k < n → owner l b n k < b
owner-lt Layout.strided b n k p h = mod-lt k p
owner-lt Layout.contiguous b n k p h = (slot_owner_bounds n b k p h).0

map-below :
    {A : Type 0} (n : ℕ) (f g : ℕ → A) (ks : List ℕ)
    → ((k : ℕ) → 0 < count k ks → k < n)
    → ((k : ℕ) → k < n → f k ≡ g k)
    → map f ks ≡ map g ks
unfolding count
map-below n f g [] below same = refl
map-below n f g (j ∷ ks) below same =
    ap₂ (λ x xs. x ∷ xs) (same j (below j (ground arith)))
      (map-below n f g ks (λ k p. below k (omega (arith, p))) same)

module _ (w b p lane : ℕ) (inside : lane < b) (le : b ≤ p) (fits : p < 2 ^ w) where
  abbrev range : IdxRange
  range = record { m_begin = b ∷ []; m_end = p ∷ []; m_stride = 1 ∷ [] }

  abbrev threads : ThreadSpace
  threads = record { m_thread_idx = lane ∷ []; m_thread_count = b ∷ [] }

  extent_lem : (l : Layout) → extent_of w (make range threads l) ≡ (p - b) ∷ []
  unfolding extent_of make distance
  extent_lem l =
      ap (λ n. n ∷ [])
        (extent_exact w b p 1 le (omega arith) (omega arith) ∙ div-one _ ∙ omega arith)

  worker : IsWorker w threads
  worker = record {
    nonempty = omega arith;
    bounded = (inside, tt);
    few = unfold volume in omega arith;
  }

  product_lem : (l : Layout) → product w (extent_of w (make range threads l)) ≡ p - b
  unfolding product
  product_lem l = ap (product w) (extent_lem l)

  volume_lem : (l : Layout) → volume (extent_of w (make range threads l)) ≡ p - b
  unfolding volume
  volume_lem l = ap volume (extent_lem l) ∙ omega arith

  place :
      (l : Layout) (k : ℕ)
      → k < p - b
      → position w (make range threads l).c_select (begin w (make range threads l)) k ≡ (b + k) ∷ []
  unfolding vec_add vec_mul unrank volume
  place l k h =
      (position-OnGrid w range threads (le, omega arith, omega arith, tt) refl l k
        (omega (arith, h, volume_lem l)) (omega (arith, volume_lem l))).0
      ∙ ap (λ e. vec_add w (b ∷ []) (vec_mul w (unrank e k) (1 ∷ []))) (extent_lem l)
      ∙ ap (λ n. n ∷ [])
          (ap (λ x. add_w w b (mul_w w x 1)) (div-one k)
            ∙ ap (add_w w b) (wrap_small w (omega arith) ∙ omega arith)
            ∙ wrap_small w (omega arith))

  workers_lem : num_workers threads ≡ b
  unfolding volume
  workers_lem = omega arith

  number_lem : worker_number threads ≡ lane
  unfolding row_major volume
  number_lem = omega arith

  owner_one :
      (l : Layout)
      → Visits w
          (make range threads l)
          (λ k. if ltb k (p - b) && (owner l b (p - b) k == lane) then 1 else 0)
  owner_one Layout.strided =
      let (ks, e, counts) =
        strided-partition w range threads worker refl
          (omega (arith, product_lem strided, workers_lem)) in
      (
        ks,
        e,
        λ k.
            counts k
            ∙ ap
                (λ n.
                  (if ltb k n && (k % num_workers threads == worker_number threads) then 1 else 0))
                (product_lem strided)
            ∙ ap₂ (λ m i. (if ltb k (p - b) && (k % m == i) then 1 else 0)) workers_lem number_lem,
      )
  owner_one Layout.contiguous =
      let (ks, e, counts) =
        contiguous-partition w range threads worker refl (omega (arith, product_lem contiguous)) in
      (
        ks,
        e,
        λ k.
            counts k
            ∙ ap
                (λ n.
                  (if ltb k n && (slot_owner n (num_workers threads) k == worker_number threads)
                    then 1
                    else 0))
                (product_lem contiguous)
            ∙ ap₂ (λ m i. (if ltb k (p - b) && (slot_owner (p - b) m k == i) then 1 else 0))
                workers_lem number_lem,
      )

  -- The slots from `block_size` on, each by the thread that owns it.
  pub shared_elements_lem :
      (l : Layout)
      → (ks : List ℕ) × (shared_elements w l b p lane ≡ some (map (λ k. (b + k) ∷ []) ks))
        × ((k : ℕ) → count k ks ≡ (if ltb k (p - b) && (owner l b (p - b) k == lane) then 1 else 0))
  unfolding shared_elements
  shared_elements_lem l =
      let (ks, e, counts) = owner_one l in
      (
        ks,
        e
            ∙ ap some (
                map-below (p - b) _ (λ k. (b + k) ∷ []) ks
                  (λ k q. let c = counts k in ground (arith, q, c)) (place l)),
        counts,
      )
