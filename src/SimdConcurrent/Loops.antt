-- ===== src/SimdConcurrent/Loops.antt =====
-- SimdConcurrent.hpp: the loops of one worker over the packs and over the single elements.
use native.Mathlib.Nat.{mul-le-mul_right, mul-le-mul_left, div-mul-le_self}
use alpaka.Base.{
  ℕ, suc, ◌+◌, ◌*◌, ◌/◌, ◌^◌, ◌<◌, ◌≤◌, ◌≡◌, refl, sym, ap, ◌∙◌, arith, List, [], ◌∷◌, some, length,
  subst, mul_w, wrap_small,
}
use alpaka.Vec.{Vec, back, fill, r_assign}
use alpaka.Vec.Linear.{InBounds}
use alpaka.ThreadSpace.{ThreadSpace, iota}
use alpaka.Tiled.{begin, end_of, visited}
use alpaka.Tiled.Tile.{Share}
use alpaka.Tiled.Group.{group, container, AreShares}
use alpaka.SimdConcurrent.Unique.{pack_loop_unique, visit_unique}
use alpaka.SimdConcurrent.Once.{visits_all}
use alpaka.Tiled.Whole.{how_many}
use alpaka.SimdConcurrent.{
  SimdPolicy, num_elements_per_fn_call, num_simd_pack_loops, remainder_begin, pack_range,
  remainder_range, make_idx_map, pack_loop, pack_calls, element_calls,
}
use alpaka.SimdConcurrent.Packs.{concat, AllLength, pack_loop-visit}
use alpaka.SimdConcurrent.Shares.{packs_multiple}
use alpaka.SimdConcurrent.Ranges.{
  pack_shares, rest_shares, Room, pack_shares-group, pack_shares-range, rest_shares-group,
  rest_shares-range, packs-AreShares, rest-AreShares,
}
use alpaka.SimdConcurrent.Places.{IsConcurrent, Room-back, map_exact}

module _ (w : ℕ) (p : SimdPolicy) (threads extents : Vec)
    (c : IsConcurrent w p threads extents) where
  abbrev pub space : Vec → ThreadSpace
  space us = record { m_thread_idx = us; m_thread_count = threads }

  abbrev pub per : ℕ
  per = p.simd_width * p.num_simd_per_fn_call

  abbrev pub loops : ℕ
  loops = back extents / per / back threads

  abbrev pub split : ℕ
  split = loops * p.num_simd_per_fn_call * (back threads * p.simd_width)

  pub split-le : split ≤ back extents
  split-le = omega (
    arith,
    div-mul-le_self (back extents) per,
    div-mul-le_self (back extents / per) (back threads),
    mul-le-mul_right {m = loops * back threads} {n = back extents / per} per
        (div-mul-le_self (back extents / per) (back threads)),
  )

  big : (0 < back threads) × (back extents + back threads * p.simd_width < 2 ^ w)
  big = Room-back w p.simd_width extents threads c.room

  whole_fits : loops * per * back threads < 2 ^ w
  whole_fits = omega (arith, split-le, big.1)

  part_fits : loops * per < 2 ^ w
  part_fits =
      omega (arith, whole_fits, mul-le-mul_left {m = 1} {n = back threads} (loops * per) big.0)

  split_exact : (us : Vec) → remainder_begin w p (space us) extents ≡ split
  unfolding remainder_begin num_simd_pack_loops num_elements_per_fn_call
  split_exact us =
      ap (λ q. mul_w w (mul_w w (back extents / q / back threads) q) (back threads))
        (wrap_small 32 c.call_fits)
      ∙ ap (λ n. mul_w w n (back threads)) (wrap_small w part_fits)
      ∙ wrap_small w whole_fits
      ∙ omega arith

  abbrev pub packs : List Share
  packs = pack_shares p.simd_width split extents threads

  abbrev pub rest : List Share
  rest = rest_shares split extents threads

  pub packs-container :
      (us : Vec)
      → container p.idx_layout packs us
        ≡ make_idx_map p (space us) (pack_range w p (space us) extents)
  unfolding pack_range
  packs-container us =
      map_exact p threads us _ packs
        (pack_shares-range w p.simd_width split extents threads c.room
          ∙ ap
              (λ r. (record {
                m_begin = fill (length extents) 0;
                m_end = r_assign extents r;
                m_stride = r_assign (fill (length extents) 1) p.simd_width;
              }))
              (sym (split_exact us)))
        (pack_shares-group w p.simd_width split extents threads c.room)

  pub rest-container :
      (us : Vec)
      → container p.idx_layout rest us
        ≡ make_idx_map p (space us) (remainder_range w p (space us) extents)
  unfolding remainder_range
  rest-container us =
      map_exact p threads us _ rest
        (rest_shares-range w p.simd_width split extents threads c.room
          ∙ ap
              (λ r. (record {
                m_begin = r_assign (fill (length extents) 0) r;
                m_end = extents;
                m_stride = fill (length extents) 1;
              }))
              (sym (split_exact us)))
        (rest_shares-group w p.simd_width split extents threads c.room)

  pub nonempty_packs :
      (ts es : Vec) → Room w p.simd_width es ts → 0 < length (pack_shares p.simd_width split es ts)
  unfolding pack_shares
  nonempty_packs ts [] h = absurd h
  nonempty_packs [] (e ∷ []) h = absurd h
  nonempty_packs (t ∷ ts) (e ∷ []) h = omega arith
  nonempty_packs [] (e ∷ f ∷ es) h = absurd h
  nonempty_packs (t ∷ ts) (e ∷ f ∷ es) h = omega arith

  pub nonempty_rest :
      (ts es : Vec) → Room w p.simd_width es ts → 0 < length (rest_shares split es ts)
  unfolding rest_shares
  nonempty_rest ts [] h = absurd h
  nonempty_rest [] (e ∷ []) h = absurd h
  nonempty_rest (t ∷ ts) (e ∷ []) h = omega arith
  nonempty_rest [] (e ∷ f ∷ es) h = absurd h
  nonempty_rest (t ∷ ts) (e ∷ f ∷ es) h = omega arith

  pub packs_shared : AreShares w packs
  packs_shared = packs-AreShares w p.simd_width split extents threads c.room c.has_width split-le

  pub rest_shared : AreShares w rest
  rest_shared = rest-AreShares w p.simd_width split extents threads c.room c.has_width split-le

  pub in_packs : (us : Vec) → InBounds threads us → InBounds (group packs) us
  in_packs us b =
      subst (λ t. InBounds t us)
        (sym (pack_shares-group w p.simd_width split extents threads c.room)) b

  pub in_rest : (us : Vec) → InBounds threads us → InBounds (group rest) us
  in_rest us b =
      subst (λ t. InBounds t us)
        (sym (rest_shares-group w p.simd_width split extents threads c.room)) b

  -- What the loop over the packs gives.
  pub worker_packs :
      (us : Vec)
      → InBounds threads us
      → (whole : List Vec) × (visited w
            (suc (how_many p.idx_layout packs us))
            (container p.idx_layout packs us)
          ≡ some whole)
        × (fuel : ℕ) × (rounds : List (List Vec)) × (pack_calls w fuel p (space us) extents
            ≡ some rounds)
        × AllLength p.num_simd_per_fn_call rounds
        × (concat rounds ≡ whole)
  unfolding pack_calls visited
  worker_packs us b =
      let (whole, all, long) =
        visits_all w p.idx_layout packs us (nonempty_packs threads extents c.room) packs_shared
          (in_packs us b) in
      let (q, m) =
        packs_multiple w p.idx_layout p.simd_width loops p.num_simd_per_fn_call (back threads) split
          extents threads us c.room b c.has_width refl refl in
      let (rounds, ends, lengths, joined) =
        pack_loop-visit w (iota (length packs)) (end_of w (container p.idx_layout packs us))
          p.num_simd_per_fn_call q (suc (how_many p.idx_layout packs us))
          (begin w (container p.idx_layout packs us)) whole c.has_packs all (long ∙ m) in
      (
        whole,
        all,
        suc q,
        rounds,
        ap (λ k. pack_loop w k.c_select p.num_simd_per_fn_call (suc q) (begin w k) (end_of w k))
              (sym (packs-container us))
            ∙ ends,
        lengths,
        joined,
      )

  -- What the loop over the single elements gives.
  pub worker_elements :
      (us : Vec)
      → InBounds threads us
      → (whole : List Vec) × (visited w
            (suc (how_many p.idx_layout rest us))
            (container p.idx_layout rest us)
          ≡ some whole)
        × (fuel : ℕ) × (element_calls w fuel p (space us) extents ≡ some whole)
  unfolding element_calls
  worker_elements us b =
      let (whole, all, long) =
        visits_all w p.idx_layout rest us (nonempty_rest threads extents c.room) rest_shared
          (in_rest us b) in
      (
        whole,
        all,
        suc (how_many p.idx_layout rest us),
        ap (visited w (suc (how_many p.idx_layout rest us))) (sym (rest-container us)) ∙ all,
      )

  -- Neither depends on the fuel.
  pub pack_calls_unique :
      (us : Vec) (f g : ℕ) (x y : List (List Vec))
      → pack_calls w f p (space us) extents ≡ some x
      → pack_calls w g p (space us) extents ≡ some y
      → x ≡ y
  unfolding pack_calls
  pack_calls_unique us f g x y h k =
      let m = make_idx_map p (space us) (pack_range w p (space us) extents) in
      pack_loop_unique w m.c_select p.num_simd_per_fn_call (end_of w m) f g (begin w m) x y h k

  pub element_calls_unique :
      (us : Vec) (f g : ℕ) (x y : List Vec)
      → element_calls w f p (space us) extents ≡ some x
      → element_calls w g p (space us) extents ≡ some y
      → x ≡ y
  unfolding element_calls visited
  element_calls_unique us f g x y h k =
      let m = make_idx_map p (space us) (remainder_range w p (space us) extents) in
      visit_unique w m.c_select (end_of w m) f g (begin w m) x y h k
