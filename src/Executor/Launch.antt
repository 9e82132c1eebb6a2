-- ===== src/Executor/Launch.antt =====
-- Serial.hpp, OmpBlocks.hpp and TbbBlocks.hpp: the executors agree, in whatever order the blocks run.
use mathlib.Core.List.{foldl, Permᴰ}
use alpaka.Base.{
  ℕ, ◌^◌, ◌<◌, ◌≡◌, refl, sym, ap, ◌∙◌, Bool, false, not, ◌&&◌, leb, List, [], ◌∷◌, map, arith,
  length, ◌==◌, subst, wrap_small,
}
use alpaka.Vec.{Vec, product, map_to_nd}
use alpaka.Vec.Linear.{InBounds, volume, product-wrap}
use alpaka.Vec.RoundTrip.{unrank, unrank-InBounds, map_to_nd-unrank}
use alpaka.ThreadSpace.{iota, iota_from}
use alpaka.Flat.Select.{Fits}
use alpaka.NdLoop.Order.{nd_loop_inc_idx-row_major}
use alpaka.Executor.{
  Acc, ThreadSpec, returned, make_acc, construct, serial_block, loop_result, serial, omp_round,
  omp_blocks, tbb_call, tbb_blocks, all_numa_domains,
}
use alpaka.Executor.Order.{All, All-perm, foldl-perm, foldl-map, iota_from-All}

-- A launch with one thread per block, over blocks whose numbers fit w bits together.
pub record IsLaunch (w : ℕ) (spec : ThreadSpec) : Type 0 where
  pub one_thread : product w spec.num_threads ≡ 1
  pub has_dim : 0 < length spec.num_blocks
  pub blocks_fit : Fits w spec.num_blocks
  pub volume_fits : volume spec.num_blocks < 2 ^ w

blocks_exact :
    (w : ℕ) (v : Vec) → 0 < length v → Fits w v → volume v < 2 ^ w → product w v ≡ volume v
blocks_exact w [] h f fits = absurd (omega arith)
blocks_exact w (e ∷ es) h f fits = product-wrap w e es f.0 ∙ wrap_small w fits

-- The iterations of the loop up to the product of the numbers of blocks, in some order.
abbrev pub EachOnce : ℕ → ThreadSpec → List ℕ → Type 0
EachOnce w spec order = Permᴰ (iota (product w spec.num_blocks)) order

pub construct_lem :
    (w : ℕ) (spec : ThreadSpec) → product w spec.num_threads ≡ 1 → construct w spec ≡ returned spec
unfolding construct
construct_lem w spec h = rw h refl

-- A kernel for which the order of the blocks does not matter: what it does to the memory does not
-- depend on what it finds in the shared storage, and two blocks commute.
pub record IsParallel {G S : Type 0} (kernel : Acc → G × S → G × S) (spec : ThreadSpec)
    : Type 0 where
  pub uninitialised :
      (acc : Acc) (memory : G) (s t : S) → (kernel acc (memory, s)).0 ≡ (kernel acc (memory, t)).0
  pub commute :
      (a b : Vec) (memory : G) (s : S)
      → InBounds spec.num_blocks a
      → InBounds spec.num_blocks b
      → (kernel (make_acc spec b) ((kernel (make_acc spec a) (memory, s)).0, s)).0
        ≡ (kernel (make_acc spec a) ((kernel (make_acc spec b) (memory, s)).0, s)).0

module _ {G S : Type 0} (kernel : Acc → G × S → G × S) (fresh : S) (w : ℕ) (spec : ThreadSpec)
    (par : IsParallel kernel spec) where
  -- What a block does to the memory.
  abbrev effect : G → Vec → G
  effect memory block_idx = (kernel (make_acc spec block_idx) (memory, fresh)).0

  abbrev numbered : G → ℕ → G
  numbered memory i = effect memory (unrank spec.num_blocks i)

  serial_effect :
      (memory : G) (s : S) (blocks : List Vec)
      → (foldl (serial_block kernel fresh spec) (memory, s) blocks).0 ≡ foldl effect memory blocks
  unfolding serial_block
  serial_effect memory s [] = refl
  serial_effect memory s (b ∷ bs) =
      serial_effect (kernel (make_acc spec b) (memory, s)).0
        (kernel (make_acc spec b) (memory, s)).1 bs
      ∙ ap (λ m. foldl effect m bs) (par.uninitialised (make_acc spec b) memory s fresh)

  serial-numbered :
      IsLaunch w spec
      → (memory : G)
      → serial kernel fresh w spec memory
        ≡ returned (foldl numbered memory (iota (volume spec.num_blocks)))
  unfolding serial loop_result
  serial-numbered l memory =
      rw
        (
          construct_lem w spec l.one_thread,
          nd_loop_inc_idx-row_major w spec.num_blocks l.blocks_fit,
        )
        (ap returned (
          serial_effect memory fresh (map (unrank spec.num_blocks) (iota (volume spec.num_blocks)))
          ∙ foldl-map effect (unrank spec.num_blocks) memory (iota (volume spec.num_blocks))))

  omp_effect :
      (memory : G) (storage : ℕ → S) (schedule : List (ℕ × ℕ))
      → volume spec.num_blocks < 2 ^ w
      → All (λ (i : ℕ). i < volume spec.num_blocks) (map (λ r. r.0) schedule)
      → (foldl (omp_round kernel fresh w spec) (memory, storage) schedule).0
        ≡ foldl numbered memory (map (λ r. r.0) schedule)
  unfolding omp_round
  omp_effect memory storage [] fits h = refl
  omp_effect memory storage ((i, thread) ∷ rest) fits h =
      omp_effect (kernel block (memory, storage thread)).0 _ rest fits h.1
      ∙ ap (λ m. foldl numbered m (map (λ r. r.0) rest))
          (par.uninitialised block memory (storage thread) fresh
            ∙ ap (effect memory) (map_to_nd-unrank w spec.num_blocks i h.0 fits))
    where
      block : Acc
      block = make_acc spec (map_to_nd w spec.num_blocks i)

  tbb_effect :
      (memory : G) (order : List ℕ)
      → volume spec.num_blocks < 2 ^ w
      → All (λ (i : ℕ). i < volume spec.num_blocks) order
      → foldl (tbb_call kernel fresh w spec) memory order ≡ foldl numbered memory order
  unfolding tbb_call
  tbb_effect memory [] fits h = refl
  tbb_effect memory (i ∷ rest) fits h =
      tbb_effect (tbb_call kernel fresh w spec memory i) rest fits h.1
      ∙ ap (λ b. foldl numbered (effect memory b) rest)
          (map_to_nd-unrank w spec.num_blocks i h.0 fits)

  -- The iterations in any order.
  any_order :
      (memory : G) (order : List ℕ)
      → Permᴰ (iota (volume spec.num_blocks)) order
      → foldl numbered memory (iota (volume spec.num_blocks)) ≡ foldl numbered memory order
  unfolding iota iota_from
  any_order memory order p =
      foldl-perm numbered (λ (i : ℕ). i < volume spec.num_blocks)
        (λ i j m h k.
          par.commute (unrank spec.num_blocks i) (unrank spec.num_blocks j) m fresh
            (unrank-InBounds spec.num_blocks i h) (unrank-InBounds spec.num_blocks j k))
        p (iota_from-All (volume spec.num_blocks) 0 (volume spec.num_blocks) (omega arith)) memory

  in_range :
      (order : List ℕ)
      → Permᴰ (iota (volume spec.num_blocks)) order
      → All (λ (i : ℕ). i < volume spec.num_blocks) order
  unfolding iota iota_from
  in_range order p =
      All-perm (λ (i : ℕ). i < volume spec.num_blocks) p
        (iota_from-All (volume spec.num_blocks) 0 (volume spec.num_blocks) (omega arith))

  each_once :
      IsLaunch w spec
      → {order : List ℕ} → EachOnce w spec order
      → Permᴰ (iota (volume spec.num_blocks)) order
  each_once l {order} p =
      subst (λ n. Permᴰ (iota n) order)
        (blocks_exact w spec.num_blocks l.has_dim l.blocks_fit l.volume_fits) p

  -- For a launch with one thread per block and with blocks whose number fits w bits, and a kernel whose
  -- effect on the memory depends neither on what the shared storage holds before nor on the order of the
  -- blocks: whichever thread takes which iteration and in whichever order the iterations take effect, as
  -- long as each is run once, OmpBlocks leaves the memory that Serial leaves, and both return.
  pub omp_blocks-serial :
      (schedule : List (ℕ × ℕ)) (memory : G)
      → IsLaunch w spec
      → EachOnce w spec (map (λ r. r.0) schedule)
      → (result : G) × (omp_blocks kernel fresh w schedule spec memory ≡ returned result)
        × (serial kernel fresh w spec memory ≡ returned result)
  unfolding omp_blocks
  omp_blocks-serial schedule memory l p = (
    foldl numbered memory (iota (volume spec.num_blocks)),
    rw (construct_lem w spec l.one_thread) (
        ap returned (
          omp_effect memory (λ t. fresh) schedule l.volume_fits
            (in_range (map (λ r. r.0) schedule) (each_once l p))
          ∙ sym (any_order memory (map (λ r. r.0) schedule) (each_once l p)))),
    serial-numbered l memory,
  )

  -- For a launch with one thread per block and with blocks whose number fits w bits, and a kernel whose
  -- effect on the memory depends neither on what the shared storage holds before nor on the order of the
  -- blocks: in whichever order the iterations take effect, as long as each is run once, TbbBlocks leaves
  -- the memory that Serial leaves, and both return, if the NUMA index exists, stands for all domains, or
  -- is not used because the threads are not pinned.
  pub tbb_blocks-serial :
      (order : List ℕ) (num_nodes numa_idx : ℕ) (set_thread_affinity : Bool) (memory : G)
      → IsLaunch w spec
      → EachOnce w spec order
      → not (numa_idx == all_numa_domains) && set_thread_affinity && leb num_nodes numa_idx ≡ false
      → (result : G) × (tbb_blocks kernel fresh w order num_nodes numa_idx set_thread_affinity spec
            memory
          ≡ returned result)
        × (serial kernel fresh w spec memory ≡ returned result)
  unfolding tbb_blocks
  tbb_blocks-serial order num_nodes numa_idx set_thread_affinity memory l p q = (
    foldl numbered memory (iota (volume spec.num_blocks)),
    rw (construct_lem w spec l.one_thread, q)
        (ap returned (
          tbb_effect memory order l.volume_fits (in_range order (each_once l p))
          ∙ sym (any_order memory order (each_once l p)))),
    serial-numbered l memory,
  )
