-- ===== src/SimdConcurrent/Unique.antt =====
-- SimdConcurrent.hpp: what the loops give does not depend on the fuel.
use mathlib.Core.Option
use mathlib.Core.Option.{some-injective}
use alpaka.Base.{
  ℕ, zero, suc, ◌≡◌, refl, sym, ap, ◌∙◌, List, ◌∷◌, false, none, some, Bool-cases, inl, inr,
}
use alpaka.Vec.{Vec}
use alpaka.Tiled.{ConstIterator, at_end, visit, increment}
use alpaka.SimdConcurrent.{execute, pack_loop}

map_cons_found :
    (c : List Vec) (x : List (List Vec)) (o : Option.Option (List (List Vec)))
    → Option.map (◌∷◌ c) o ≡ some x
    → (y : List (List Vec)) × (o ≡ some y) × (c ∷ y ≡ x)
map_cons_found c x none h = cc
map_cons_found c x (some y) h = (y, refl, some-injective (c ∷ y) x h)

module _ (w : ℕ) (sel : List ℕ) (repeat e : ℕ) where
  loop_step :
      (fuel : ℕ) (it : ConstIterator) (x : List (List Vec))
      → at_end sel it e ≡ false
      → pack_loop w sel repeat (suc fuel) it e ≡ some x
      → (y : List (List Vec)) × (pack_loop w sel repeat fuel (execute w sel repeat it).1 e ≡ some y)
        × ((execute w sel repeat it).0 ∷ y ≡ x)
  unfolding pack_loop
  loop_step fuel it x more h =
      map_cons_found (execute w sel repeat it).0 x _ (rw (more, pack_loop) at h)

  -- The result does not depend on the fuel.
  pub pack_loop_unique :
      (f g : ℕ) (it : ConstIterator) (x y : List (List Vec))
      → pack_loop w sel repeat f it e ≡ some x
      → pack_loop w sel repeat g it e ≡ some y
      → x ≡ y
  unfolding pack_loop
  pack_loop_unique zero g it x y h k = cc
  pack_loop_unique (suc f) zero it x y h k = cc
  pack_loop_unique (suc f) (suc g) it x y h k = elim (Bool-cases (at_end sel it e)) [
    | inl done ↦ some-injective x y (sym (rw (done, pack_loop) at h) ∙ rw (done, pack_loop) at k)
    | inr more ↦
        let (xs, left, whole) = loop_step f it x more h in
        let (ys, left', whole') = loop_step g it y more k in
        sym whole
        ∙ ap (◌∷◌ (execute w sel repeat it).0)
            (pack_loop_unique f g (execute w sel repeat it).1 xs ys left left')
        ∙ whole'
  ]

map_index_found :
    (c : Vec) (x : List Vec) (o : Option.Option (List Vec))
    → Option.map (◌∷◌ c) o ≡ some x
    → (y : List Vec) × (o ≡ some y) × (c ∷ y ≡ x)
map_index_found c x none h = cc
map_index_found c x (some y) h = (y, refl, some-injective (c ∷ y) x h)

module _ (w : ℕ) (sel : List ℕ) (e : ℕ) where
  visit_step :
      (fuel : ℕ) (it : ConstIterator) (x : List Vec)
      → at_end sel it e ≡ false
      → visit w sel (suc fuel) it e ≡ some x
      → (y : List Vec) × (visit w sel fuel (increment w sel it) e ≡ some y) × (it.m_current ∷ y ≡ x)
  unfolding visit
  visit_step fuel it x more h = map_index_found it.m_current x _ (rw (more, visit) at h)

  pub visit_unique :
      (f g : ℕ) (it : ConstIterator) (x y : List Vec)
      → visit w sel f it e ≡ some x
      → visit w sel g it e ≡ some y
      → x ≡ y
  unfolding visit
  visit_unique zero g it x y h k = cc
  visit_unique (suc f) zero it x y h k = cc
  visit_unique (suc f) (suc g) it x y h k = elim (Bool-cases (at_end sel it e)) [
    | inl done ↦ some-injective x y (sym (rw (done, visit) at h) ∙ rw (done, visit) at k)
    | inr more ↦
        let (xs, left, whole) = visit_step f it x more h in
        let (ys, left', whole') = visit_step g it y more k in
        sym whole
        ∙ ap (◌∷◌ it.m_current) (visit_unique f g (increment w sel it) xs ys left left')
        ∙ whole'
  ]
