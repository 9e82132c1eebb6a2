-- ===== src/Tiled/Advance.antt =====
-- TiledIdxContainer.hpp, operator++: on the numbers of the steps in each dimension it is the increment
-- of MdForwardIter.
use alpaka.Base.{
  ℕ, zero, suc, ◌+◌, ◌<◌, ◌≡◌, refl, sym, ap, ◌∙◌, Bool, true, false, List, [], ◌∷◌, map, arith,
  length, get_or, set, leb, Bool-cases, inl, inr, add_w, wrap_small, if◌then◌else◌,
}
use alpaka.Vec.{Vec}
use alpaka.Vec.Linear.{InBounds}
use alpaka.MdForward.{advance}
use alpaka.MdForward as MdForward
use alpaka.Tiled.{ConstIterator, increment_loop}
use alpaka.Tiled.Store.{IsSelection, write, get_or-write, set-write, set-set_same, length-set}
use alpaka.Tiled.Dims.{
  Dim, IsBox, IsDim, coordinate, coordinate_step, counts, num_steps, num_steps-lt, place,
  test_exact,
}

-- The loop of `operator++` on the selected components.
unfoldable pub bump : ℕ → Vec → Vec → Vec → ℕ → Vec → Vec
bump w ss es fs zero cs = set cs 0 (add_w w (get_or cs 0 0) (get_or ss 0 0))
bump w ss es fs (suc k) cs =
    let next = add_w w (get_or cs (suc k) 0) (get_or ss (suc k) 0) in
    elim (leb (get_or es (suc k) 0) next) [
      | true ↦ bump w ss es fs k (set cs (suc k) (get_or fs k 0))
      | false ↦ set cs (suc k) next
    ]

pub increment_loop-write :
    (w : ℕ) (sel : List ℕ) (it : ConstIterator) (k : ℕ) (base cs : Vec)
    → IsSelection (length base) sel
    → length sel ≡ length cs
    → k < length sel
    → increment_loop w sel it k (write base sel cs)
      ≡ write base sel (bump w it.m_stride it.m_extent it.m_first k cs)
unfolding increment_loop bump
increment_loop-write w sel it zero base cs s e h =
    rw (get_or-write base sel cs 0 s e h) (set-write base sel cs 0 _ s e h)
increment_loop-write w sel it (suc k) base cs s e h =
    elim (Bool-cases (leb (get_or it.m_extent (suc k) 0) next)) [
      | inl t ↦
          rw (get_or-write base sel cs (suc k) s e h, t, increment_loop, bump)
            (ap (increment_loop w sel it k) (
                set-set_same (write base sel cs) (get_or sel (suc k) 0) _ (get_or it.m_first k 0)
                ∙ set-write base sel cs (suc k) (get_or it.m_first k 0) s e h)
              ∙ increment_loop-write w sel it k base (set cs (suc k) (get_or it.m_first k 0)) s
                  (e ∙ sym (length-set cs (suc k) (get_or it.m_first k 0))) (omega arith))
      | inr t ↦
          rw (get_or-write base sel cs (suc k) s e h, t, increment_loop, bump)
            (ap
                (λ x.
                  set (write base sel cs) (get_or sel (suc k) 0)
                    (add_w w x (get_or it.m_stride (suc k) 0)))
                (get_or-write base sel cs (suc k) s e h)
              ∙ set-write base sel cs (suc k) next s e h)
    ]
  where
    next : ℕ
    next = add_w w (get_or cs (suc k) 0) (get_or it.m_stride (suc k) 0)

-- The rounds of the faster dimensions alone, with whether the loop goes on.
unfoldable inner : ℕ → Vec → Vec → Vec → ℕ → Vec → Vec × Bool
inner w ss es fs zero cs = (cs, true)
inner w ss es fs (suc j) cs =
    let next = add_w w (get_or cs j 0) (get_or ss j 0) in
    elim (leb (get_or es j 0) next) [
      | true ↦ inner w ss es fs j (set cs j (get_or fs j 0))
      | false ↦ (set cs j next, false)
    ]

bump-inner :
    (w s e c : ℕ) (ss es fs : Vec) (n : ℕ) (cs : Vec)
    → bump w (s ∷ ss) (e ∷ es) fs n (c ∷ cs)
      ≡ (if (inner w ss es fs n cs).1 then add_w w c s else c) ∷ (inner w ss es fs n cs).0
unfolding bump inner
bump-inner w s e c ss es fs zero cs = refl
bump-inner w s e c ss es fs (suc n) cs =
    elim (Bool-cases (leb (get_or es n 0) (add_w w (get_or cs n 0) (get_or ss n 0)))) [
      | inl t ↦ rw (t, bump, inner) (bump-inner w s e c ss es fs n (set cs n (get_or fs n 0)))
      | inr t ↦ rw (t, bump, inner) refl
    ]

-- What a dimension makes of the faster dimensions' result.
abbrev join : ℕ → ℕ → ℕ → ℕ → ℕ → Vec × Bool → Vec × Bool
join w s e f c (rest, true) =
    if leb e (add_w w c s) then (f ∷ rest, true) else (add_w w c s ∷ rest, false)
join w s e f c (rest, false) = (c ∷ rest, false)

inner-cons :
    (w s e f c : ℕ) (ss es fs : Vec) (n : ℕ) (cs : Vec)
    → inner w (s ∷ ss) (e ∷ es) (f ∷ fs) (suc n) (c ∷ cs) ≡ join w s e f c (inner w ss es fs n cs)
unfolding inner
inner-cons w s e f c ss es fs zero cs = elim (Bool-cases (leb e (add_w w c s))) [
  | inl t ↦ rw (t, inner) refl
  | inr t ↦ rw (t, inner) refl
]
inner-cons w s e f c ss es fs (suc n) cs =
    elim (Bool-cases (leb (get_or es n 0) (add_w w (get_or cs n 0) (get_or ss n 0)))) [
      | inl t ↦ rw (t, inner) (inner-cons w s e f c ss es fs n (set cs n (get_or fs n 0)))
      | inr t ↦ rw (t, inner) refl
    ]

-- The vectors of an iterator's fields, dimension by dimension.
abbrev pub firsts : List Dim → Vec
firsts ds = map (λ d. d.first) ds

abbrev pub strides : List Dim → Vec
strides ds = map (λ d. d.stride) ds

abbrev pub extents : List Dim → Vec
extents ds = map (λ d. d.extent) ds

-- The round of `MdForward.advance` for one dimension.
abbrev advance_dim : ℕ → ℕ → ℕ → Vec × Bool → Vec × Bool
advance_dim w n k (rest, carry) =
    if carry
    then (if leb n (add_w w k 1) then (0 ∷ rest, true) else (add_w w k 1 ∷ rest, false))
    else (k ∷ rest, false)

step_exact : (w : ℕ) (d : Dim) (k : ℕ) → IsDim w d → k < num_steps d → add_w w k 1 ≡ k + 1
step_exact w d k b h = wrap_small w (omega (arith, num_steps-lt w d b))

join-coordinate :
    (w : ℕ) (d : Dim) (ds : List Dim) (k : ℕ) (r : Vec × Bool)
    → IsDim w d
    → k < num_steps d
    → join w d.stride d.extent d.first (coordinate d k) (place ds r.0, r.1)
      ≡ (place (d ∷ ds) (advance_dim w (num_steps d) k r).0, (advance_dim w (num_steps d) k r).1)
unfolding place
join-coordinate w d ds k (rest, false) b h = refl
join-coordinate w d ds k (rest, true) b h =
    rw (step_exact w d k b h, coordinate_step w d k b h, test_exact w d (k + 1) b)
      (elim (Bool-cases (leb (num_steps d) (k + 1))) [
        | inl t ↦ rw t (ap (λ c. (c ∷ place ds rest, true)) {y = coordinate d 0} (omega arith))
        | inr t ↦ rw t refl
      ])

inner-advance :
    (w : ℕ) (ds : List Dim) (ks : Vec)
    → IsBox w ds
    → InBounds (counts ds) ks
    → inner w (strides ds) (extents ds) (firsts ds) (length ds) (place ds ks)
      ≡ (place ds (advance w (counts ds) ks).0, (advance w (counts ds) ks).1)
unfolding place inner advance
inner-advance w [] [] b h = refl
inner-advance w [] (k ∷ ks) b h = absurd h
inner-advance w (d ∷ ds) [] b h = absurd h
inner-advance w (d ∷ ds) (k ∷ ks) b h =
    inner-cons w d.stride d.extent d.first (coordinate d k) (strides ds) (extents ds) (firsts ds)
      (length ds) (place ds ks)
    ∙ ap (join w d.stride d.extent d.first (coordinate d k)) (inner-advance w ds ks b.1 h.1)
    ∙ join-coordinate w d ds k (advance w (counts ds) ks) b.0 h.0

-- `operator++` on the selected components takes the numbers of steps to those of MdForwardIter.
pub bump-increment :
    (w : ℕ) (d : Dim) (ds : List Dim) (k : ℕ) (ks : Vec)
    → IsBox w (d ∷ ds)
    → k < num_steps d
    → InBounds (counts ds) ks
    → bump w (strides (d ∷ ds)) (extents (d ∷ ds)) (firsts ds) (length ds) (place (d ∷ ds) (k ∷ ks))
      ≡ place (d ∷ ds) (MdForward.increment w (counts (d ∷ ds)) (k ∷ ks))
unfolding place MdForward.increment
bump-increment w d ds k ks b h i =
    bump-inner w d.stride d.extent (coordinate d k) (strides ds) (extents ds) (firsts ds)
      (length ds) (place ds ks)
    ∙ ap (λ r. (if r.1 then add_w w (coordinate d k) d.stride else coordinate d k) ∷ r.0)
        (inner-advance w ds ks b.1 i)
    ∙ ap (λ c. c ∷ rest) (head (advance w (counts ds) ks).1)
  where
    rest : Vec
    rest = place ds (advance w (counts ds) ks).0

    head :
        (carry : Bool)
        → (if carry then add_w w (coordinate d k) d.stride else coordinate d k)
          ≡ coordinate d (if carry then add_w w k 1 else k)
    head false = refl
    head true = coordinate_step w d k b.0 h ∙ ap (coordinate d) (sym (step_exact w d k b.0 h))
