-- ===== src/SimdConcurrent/Cover.antt =====
-- SimdConcurrent.hpp: the workers of a group call the function for every element.
use alpaka.Base.{
  ℕ, suc, ◌*◌, ◌<◌, ◌≡◌, refl, sym, ap, ◌∙◌, arith, List, [], ◌∷◌, some, length, get_or, dec_lt,
  subst,
}
use alpaka.Vec.{Vec, back}
use alpaka.Vec.Linear.{InBounds}
use alpaka.Tiled.{visited}
use alpaka.Tiled.Tile.{Share}
use alpaka.Tiled.Group.{container}
use alpaka.Tiled.Whole.{how_many}
use alpaka.SimdConcurrent.{SimdPolicy}
use alpaka.SimdConcurrent.Packs.{concat}
use alpaka.SimdConcurrent.Ranges.{Room, pack_shares-group, rest_shares-group}
use alpaka.SimdConcurrent.Places.{IsConcurrent, pack_of, packs-OnGrid, rest-OnGrid, Found, found}
use mathlib.Core.Option.{some-injective}
use alpaka.SimdConcurrent.Once.{placed_once}
use alpaka.SimdConcurrent.Calls.{Call, Holds, Handles, StaysInside, PackInBounds, All, All-get_or}
use alpaka.SimdConcurrent.Bounds.{pack_of-Holds, OnGrid-PackInBounds, OnGrid-InBounds}
use alpaka.SimdConcurrent.Loops.{
  loops, split, split-le, packs, rest, packs-container, nonempty_packs, nonempty_rest, packs_shared,
  rest_shared, in_packs, in_rest, worker_packs, worker_elements,
}

Room-length : (w width : ℕ) (es ts : Vec) → Room w width es ts → 0 < length es
Room-length w width [] ts h = absurd h
Room-length w width (e ∷ es) ts h = omega arith

module _ (w : ℕ) (p : SimdPolicy) (threads extents : Vec)
    (c : IsConcurrent w p threads extents) where
  abbrev pack_list : List Share
  pack_list = packs w p threads extents c

  abbrev rest_list : List Share
  rest_list = rest w p threads extents c

  -- Each index that a worker visits lies on the grid of the range.
  packs-on_grid :
      (us : Vec) (whole : List Vec)
      → InBounds threads us
      → visited w (suc (how_many p.idx_layout pack_list us)) (container p.idx_layout pack_list us)
        ≡ some whole
      → All (PackInBounds p.simd_width extents) whole
  packs-on_grid us whole b e = All-get_or _ whole (λ j q.
      let at = get_or whole j [] in
      let inside = in_packs w p threads extents c us b in
      let once =
        placed_once w p.idx_layout pack_list us us j j at
          (nonempty_packs w p threads extents c threads extents c.room)
          (packs_shared w p threads extents c) inside inside (whole, e, q, refl)
          (whole, e, q, refl) in
      OnGrid-PackInBounds w p.simd_width
        (loops w p threads extents c * p.num_simd_per_fn_call * back threads)
        (split w p threads extents c) extents threads at c.room c.has_width (omega arith)
        (split-le w p threads extents c) once.0)

  rest-on_grid :
      (us : Vec) (whole : List Vec)
      → InBounds threads us
      → visited w (suc (how_many p.idx_layout rest_list us)) (container p.idx_layout rest_list us)
        ≡ some whole
      → All (InBounds extents) whole
  rest-on_grid us whole b e = All-get_or _ whole (λ j q.
      let at = get_or whole j [] in
      let inside = in_rest w p threads extents c us b in
      let once =
        placed_once w p.idx_layout rest_list us us j j at
          (nonempty_rest w p threads extents c threads extents c.room)
          (rest_shared w p threads extents c) inside inside (whole, e, q, refl)
          (whole, e, q, refl) in
      OnGrid-InBounds w p.simd_width (split w p threads extents c) extents threads at c.room once.0)

  stays_inside : (us : Vec) → InBounds threads us → StaysInside w p threads extents us
  stays_inside us b =
      let (whole, e, fuel, rounds, ends, lengths, joined) =
        worker_packs w p threads extents c us b in
      let (indices, e', fuel', ends') = worker_elements w p threads extents c us b in
      (
        fuel,
        rounds,
        ends,
        lengths,
        subst (All (PackInBounds p.simd_width extents)) (sym joined) (packs-on_grid us whole b e),
        suc (how_many p.idx_layout pack_list us),
        ap (visited w (suc (how_many p.idx_layout pack_list us)))
              (sym (packs-container w p threads extents c us))
            ∙ e
            ∙ ap some (sym joined),
        fuel',
        indices,
        ends',
        rest-on_grid us indices b e',
      )

  in_pack :
      (x : Vec)
      → InBounds extents x
      → Found w p.idx_layout pack_list (pack_of p.simd_width x)
      → (call : Call) × Handles w p threads extents call x
  in_pack x b (us, member, indices, e, long, j, less, here) =
      let inside =
        subst (λ t. InBounds t us)
          (pack_shares-group w p.simd_width (split w p threads extents c) extents threads c.room)
          member in
      let (whole, e', fuel, rounds, ends, lengths, joined) =
        worker_packs w p threads extents c us inside in
      let same : concat rounds ≡ indices = joined ∙ some-injective whole indices (sym e' ∙ e) in
      (
        Call.pack us j,
        (
          inside,
          fuel,
          rounds,
          ends,
          subst (λ xs. j < length xs) (sym same) less,
          subst (λ v. Holds p.simd_width v x) (sym (ap (λ xs. get_or xs j []) same ∙ here))
              (pack_of-Holds p.simd_width extents x c.has_width
                (Room-length w p.simd_width extents threads c.room) b),
        ),
      )

  in_remainder :
      (x : Vec)
      → Found w p.idx_layout rest_list x
      → (call : Call) × Handles w p threads extents call x
  in_remainder x (us, member, indices, e, long, j, less, here) =
      let inside =
        subst (λ t. InBounds t us)
          (rest_shares-group w p.simd_width (split w p threads extents c) extents threads c.room)
          member in
      let (whole, e', fuel, ends) = worker_elements w p threads extents c us inside in
      let same : whole ≡ indices = some-injective whole indices (sym e' ∙ e) in
      (
        Call.element us j,
        (
          inside,
          fuel,
          whole,
          ends,
          subst (λ xs. j < length xs) (sym same) less,
          ap (λ xs. get_or xs j []) same ∙ here,
        ),
      )

  some_call : (x : Vec) → InBounds extents x → (call : Call) × Handles w p threads extents call x
  some_call x b = elim (dec_lt (back x) (split w p threads extents c)) [
    | yes low ↦ in_pack x b (
        found w p.idx_layout pack_list (pack_of p.simd_width x)
          (nonempty_packs w p threads extents c threads extents c.room)
          (packs_shared w p threads extents c)
          (packs-OnGrid w p.simd_width (split w p threads extents c) extents threads x c.room b
            low))
    | no high ↦ in_remainder x (
        found w p.idx_layout rest_list x
          (nonempty_rest w p threads extents c threads extents c.room)
          (rest_shared w p threads extents c)
          (rest-OnGrid w p.simd_width (split w p threads extents c) extents threads x c.room b
            (omega arith)))
  ]

  -- For a positive width and number of packs per call whose product fits 32 bits, workers in each
  -- dimension, extents that fit w bits with one more step of all workers, either layout, a worker
  -- of the group and the index of an element: the worker's loops end; each of its calls has all its
  -- packs, these are the packs of a loop with a test before each increment, all of them within the
  -- extents, as its single elements are; and some worker calls the function with a pack that has the
  -- element, or with the element alone.
  pub concurrent-cover :
      (us x : Vec)
      → InBounds threads us
      → InBounds extents x
      → StaysInside w p threads extents us × (call : Call) × Handles w p threads extents call x
  concurrent-cover us x member b =
      let handled = some_call x b in (stays_inside us member, handled.0, handled.1)
