-- ===== src/Flat/Loop.antt =====
-- FlatIdxContainer.hpp, the range-based for loop: it ends, after the linear indices of `steps`.
use mathlib.Core.Option
use alpaka.Base.{
  ℕ, zero, suc, ◌+◌, ◌^◌, ◌≤◌, ◌<◌, ◌≡◌, refl, true, false, sym, ap, ◌∙◌, List, [], ◌∷◌, map, some,
  arith, wrap_small, le→leb, lt→leb_false, dec_lt,
}
use alpaka.Vec.{Vec}
use alpaka.Flat.{ConstIterator, deref, increment, at_end, visit}
use alpaka.Flat.Steps.{steps, steps_more, steps_done}

-- What an iterator yields when its current linear index is k.
abbrev pub position : ℕ → List ℕ → ConstIterator → ℕ → Vec
position w c_select it k = deref w c_select (record it { m_current = k })

-- The next linear index does not wrap around, since the end and one more stride fit.
increment_exact :
    (w : ℕ) (it : ConstIterator) (e : ℕ)
    → it.m_current < e
    → e + it.m_stride ≤ 2 ^ w
    → increment w it ≡ record it { m_current = it.m_current + it.m_stride }
unfolding increment
increment_exact w it e h fits = ap (λ k. record it { m_current = k }) (wrap_small w (omega arith))

module _ (w : ℕ) (c_select : List ℕ) (fuel : ℕ) (it : ConstIterator) (e : ℕ) where
  visit_done : e ≤ it.m_current → visit w c_select (suc fuel) it e ≡ some []
  unfolding visit
  visit_done h = rw (at_end_done, visit) refl
    where
      at_end_done : at_end it e ≡ true
      at_end_done = unfold at_end in le→leb e it.m_current h

  visit_more :
      it.m_current < e
      → visit w c_select (suc fuel) it e
        ≡ Option.map (◌∷◌ (deref w c_select it)) (visit w c_select fuel (increment w it) e)
  unfolding visit
  visit_more h = rw (not_at_end, visit) refl
    where
      not_at_end : at_end it e ≡ false
      not_at_end = unfold at_end in lt→leb_false e it.m_current h

pub visit-steps :
    (w : ℕ) (c_select : List ℕ) (fuel : ℕ) (it : ConstIterator) (e : ℕ)
    → 0 < it.m_stride
    → e + it.m_stride ≤ 2 ^ w
    → e ≤ it.m_current + fuel
    → visit w c_select (suc fuel) it e
      ≡ some (map (position w c_select it) (steps fuel it.m_current it.m_stride e))
unfolding steps
visit-steps w c_select zero it e p fits h = visit_done w c_select zero it e (omega arith)
visit-steps w c_select (suc fuel) it e p fits h = elim (dec_lt it.m_current e) [
  | yes more ↦
      visit_more w c_select (suc fuel) it e more
      ∙ ap (λ t. Option.map (◌∷◌ (deref w c_select it)) (visit w c_select (suc fuel) t e))
          (increment_exact w it e more fits)
      ∙ ap (Option.map (◌∷◌ (deref w c_select it))) (
          visit-steps w c_select fuel (record it { m_current = it.m_current + it.m_stride }) e p
            fits (omega arith))
      ∙ ap (λ l. some (map (position w c_select it) l))
          (sym (steps_more fuel it.m_current it.m_stride e more))
  | no done ↦
      visit_done w c_select (suc fuel) it e (omega arith)
      ∙ ap (λ l. some (map (position w c_select it) l))
          (sym (steps_done fuel it.m_current it.m_stride e (omega arith)))
]
