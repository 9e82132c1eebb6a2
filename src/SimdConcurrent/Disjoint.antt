-- ===== src/SimdConcurrent/Disjoint.antt =====
-- SimdConcurrent.hpp: no element is handled by two calls.
use alpaka.Base.{ℕ, ◌*◌, ◌<◌, ◌≡◌, sym, ap, ap₂, ◌∙◌, arith, List, [], length, get_or, subst}
use alpaka.Vec.{Vec, back}
use alpaka.Vec.Linear.{InBounds}
use alpaka.Flat.Position.{OnGrid}
use alpaka.Tiled.Tile.{Share}
use alpaka.Tiled.Group.{range}
use alpaka.SimdConcurrent.{SimdPolicy}
use alpaka.SimdConcurrent.Packs.{concat}
use alpaka.SimdConcurrent.Calls.{Call, Handles}
use alpaka.SimdConcurrent.Bounds.{Holds-pack_of}
use alpaka.SimdConcurrent.Loops.{
  packs_shared, rest_shared, in_packs, in_rest, worker_packs, worker_elements, pack_calls_unique,
  element_calls_unique, loops, split, packs, rest, nonempty_packs, nonempty_rest,
}
use alpaka.SimdConcurrent.Places.{IsConcurrent, pack_of}
use alpaka.SimdConcurrent.Once.{PlacedAt, placed_once, packs_before, rest_from}

module _ (w : ℕ) (p : SimdPolicy) (threads extents : Vec)
    (c : IsConcurrent w p threads extents) where
  abbrev pack_list : List Share
  pack_list = packs w p threads extents c

  abbrev rest_list : List Share
  rest_list = rest w p threads extents c

  element_placed :
      (us : Vec) (j : ℕ) (x : Vec)
      → Handles w p threads extents (Call.element us j) x
      → PlacedAt w p.idx_layout rest_list us j x
  element_placed us j x (b, fuel, indices, e, less, here) =
      let (whole, all, fuel', ends) = worker_elements w p threads extents c us b in
      let same = element_calls_unique w p threads extents c us fuel fuel' indices whole e ends in
      (
        whole,
        all,
        subst (λ xs. j < length xs) same less,
        ap (λ xs. get_or xs j []) (sym same) ∙ here,
      )

  -- The pack that has an element begins at the multiple of the width below it.
  pack_placed :
      (us : Vec) (j : ℕ) (x : Vec)
      → Handles w p threads extents (Call.pack us j) x
      → PlacedAt w p.idx_layout pack_list us j (pack_of p.simd_width x)
  pack_placed us j x (b, fuel, rounds, e, less, here) =
      let (whole, all, fuel', found, ends, lengths, joined) =
        worker_packs w p threads extents c us b in
      let same : concat rounds ≡ whole =
        ap concat (pack_calls_unique w p threads extents c us fuel fuel' rounds found e ends)
        ∙ joined in
      let first = get_or (concat rounds) j [] in
      let at : PlacedAt w p.idx_layout pack_list us j first =
        (whole, all, subst (λ xs. j < length xs) same less, ap (λ xs. get_or xs j []) (sym same)) in
      let inside = in_packs w p threads extents c us b in
      let on_grid =
        (placed_once w p.idx_layout pack_list us us j j first
          (nonempty_packs w p threads extents c threads extents c.room)
          (packs_shared w p threads extents c) inside inside at at).0 in
      subst (PlacedAt w p.idx_layout pack_list us j)
        (Holds-pack_of w p.simd_width (split w p threads extents c) extents threads first x c.room
          c.has_width on_grid here)
        at

  packs_apart :
      (us vs : Vec) (j k : ℕ) (x : Vec)
      → Handles w p threads extents (Call.pack us j) x
      → Handles w p threads extents (Call.pack vs k) x
      → OnGrid
          (range pack_list).m_begin
          (range pack_list).m_end
          (range pack_list).m_stride
          (pack_of p.simd_width x)
        × (us ≡ vs)
        × (j ≡ k)
  packs_apart us vs j k x h g =
      placed_once w p.idx_layout pack_list us vs j k (pack_of p.simd_width x)
        (nonempty_packs w p threads extents c threads extents c.room)
        (packs_shared w p threads extents c) (in_packs w p threads extents c us h.0)
        (in_packs w p threads extents c vs g.0) (pack_placed us j x h) (pack_placed vs k x g)

  elements_apart :
      (us vs : Vec) (j k : ℕ) (x : Vec)
      → Handles w p threads extents (Call.element us j) x
      → Handles w p threads extents (Call.element vs k) x
      → OnGrid (range rest_list).m_begin (range rest_list).m_end (range rest_list).m_stride x
        × (us ≡ vs)
        × (j ≡ k)
  elements_apart us vs j k x h g =
      placed_once w p.idx_layout rest_list us vs j k x
        (nonempty_rest w p threads extents c threads extents c.room)
        (rest_shared w p threads extents c) (in_rest w p threads extents c us h.0)
        (in_rest w p threads extents c vs g.0) (element_placed us j x h) (element_placed vs k x g)

  not_both :
      (us vs : Vec) (j k : ℕ) (x : Vec)
      → InBounds extents x
      → Handles w p threads extents (Call.pack us j) x
      → Handles w p threads extents (Call.element vs k) x
      → ⊥
  not_both us vs j k x b h g = omega (
    arith,
    packs_before w p.simd_width
        (loops w p threads extents c * p.num_simd_per_fn_call * back threads)
        (split w p threads extents c) extents threads x c.room b c.has_width (omega arith)
        (packs_apart us us j j x h h).0,
    rest_from w p.simd_width (split w p threads extents c) extents threads x c.room b
        (elements_apart vs vs k k x g g).0,
  )

  -- For a positive width and number of packs per call whose product fits 32 bits, workers in each
  -- dimension, extents that fit w bits with one more step of all workers, either layout, and the
  -- index of an element: two calls for the element, of whichever workers, with a pack that has it,
  -- wherever the pack begins, or with the element alone, are the same call.
  pub concurrent-disjoint :
      (one two : Call) (x : Vec)
      → InBounds extents x
      → Handles w p threads extents one x
      → Handles w p threads extents two x
      → one ≡ two
  concurrent-disjoint (Call.pack us j) (Call.pack vs k) x b h g =
      let same = packs_apart us vs j k x h g in ap₂ Call.pack same.1 same.2
  concurrent-disjoint (Call.pack us j) (Call.element vs k) x b h g =
      absurd (not_both us vs j k x b h g)
  concurrent-disjoint (Call.element us j) (Call.pack vs k) x b h g =
      absurd (not_both vs us k j x b g h)
  concurrent-disjoint (Call.element us j) (Call.element vs k) x b h g =
      let same = elements_apart us vs j k x h g in ap₂ Call.element same.1 same.2
