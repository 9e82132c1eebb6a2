-- ===== src/SimdConcurrent/Packs.antt =====
-- SimdConcurrent.hpp: the packs of all rounds together are the indices that the loop over the container
-- visits, if their number is a multiple of the packs of a round.
use mathlib.Core.Option
use mathlib.Core.Option.{some-injective}
use mathlib.Core.List.{head-eq_of_cons-eq, tail-eq_of_cons-eq}
use alpaka.Base.{
  ℕ, zero, suc, ◌*◌, ◌≤◌, ◌<◌, ◌≡◌, refl, sym, ap, ap₂, ◌∙◌, arith, List, [], ◌∷◌, ◌++◌, length,
  true, false, none, some, Bool-cases, inl, inr, length-append,
}
use alpaka.Vec.{Vec}
use alpaka.Tiled.{ConstIterator, increment, at_end, visit}
use alpaka.SimdConcurrent.{execute, pack_loop}

unfoldable pub concat : List (List Vec) → List Vec
concat [] = []
concat (xs ∷ xss) = xs ++ concat xss

-- Each round has the given number of packs.
abbrev pub AllLength : ℕ → List (List Vec) → Type 0
AllLength n [] = Unit {0}
AllLength n (xs ∷ xss) = (length xs ≡ n) × AllLength n xss

map_cons_inv :
    (c x : Vec) (xs : List Vec) (o : Option.Option (List Vec))
    → Option.map (◌∷◌ c) o ≡ some (x ∷ xs)
    → (c ≡ x) × (o ≡ some xs)
map_cons_inv c x xs none h = cc
map_cons_inv c x xs (some ys) h =
    let e : c ∷ ys ≡ x ∷ xs = some-injective _ _ h in
    (head-eq_of_cons-eq e, ap some (tail-eq_of_cons-eq e))

map_cons_some : (c : Vec) (o : Option.Option (List Vec)) → Option.map (◌∷◌ c) o ≡ some [] → ⊥
map_cons_some c none h = cc
map_cons_some c (some ys) h = cc

empty : {x : Vec} {xs : List Vec} → [] ≡ x ∷ xs → ⊥
empty h = cc

module _ (w : ℕ) (sel : List ℕ) (e : ℕ) where
  ended :
      (fuel : ℕ) (it : ConstIterator)
      → at_end sel it e ≡ true
      → visit w sel (suc fuel) it e ≡ some []
  unfolding visit
  ended fuel it h = rw (h, visit) refl

  running :
      (fuel : ℕ) (it : ConstIterator)
      → at_end sel it e ≡ false
      → visit w sel (suc fuel) it e
        ≡ Option.map (◌∷◌ it.m_current) (visit w sel fuel (increment w sel it) e)
  unfolding visit
  running fuel it h = rw (h, visit) refl

  no_fuel : (it : ConstIterator) (xs : List Vec) → visit w sel zero it e ≡ some xs → ⊥
  unfolding visit
  no_fuel it xs h = cc

  -- A loop that has something left is not at its end.
  visit_next :
      (fuel : ℕ) (it : ConstIterator) (x : Vec) (xs : List Vec)
      → visit w sel (suc fuel) it e ≡ some (x ∷ xs)
      → (at_end sel it e ≡ false)
        × (it.m_current ≡ x)
        × (visit w sel fuel (increment w sel it) e ≡ some xs)
  visit_next fuel it x xs h = elim (Bool-cases (at_end sel it e)) [
    | inl done ↦ absurd (empty (some-injective [] (x ∷ xs) (sym (ended fuel it done) ∙ h)))
    | inr more ↦
        let rest = map_cons_inv it.m_current x xs _ (sym (running fuel it more) ∙ h) in
        (more, rest.0, rest.1)
  ]

  visit_last :
      (fuel : ℕ) (it : ConstIterator) → visit w sel fuel it e ≡ some [] → at_end sel it e ≡ true
  visit_last zero it h = absurd (no_fuel it [] h)
  visit_last (suc fuel) it h = elim (Bool-cases (at_end sel it e)) [
    | inl done ↦ done
    | inr more ↦ absurd (map_cons_some it.m_current _ (sym (running fuel it more) ∙ h))
  ]

  -- One round takes the first packs of those that are left.
  execute_lem :
      (n fuel : ℕ) (it : ConstIterator) (xs : List Vec)
      → visit w sel fuel it e ≡ some xs
      → n ≤ length xs
      → (ys : List Vec) × (zs : List Vec) × (rest : ℕ) × (xs ≡ ys ++ zs)
        × (length ys ≡ n)
        × ((execute w sel n it).0 ≡ ys)
        × (visit w sel rest (execute w sel n it).1 e ≡ some zs)
  unfolding execute
  execute_lem zero fuel it xs h k = ([], xs, fuel, refl, refl, refl, h)
  execute_lem (suc n) zero it xs h k = absurd (no_fuel it xs h)
  execute_lem (suc n) (suc fuel) it [] h k = absurd (omega arith)
  execute_lem (suc n) (suc fuel) it (x ∷ xs) h k =
      let next = visit_next fuel it x xs h in
      let (ys, zs, rest, split, long, same, left) =
        execute_lem n fuel (increment w sel it) xs next.2 (omega arith) in
      (x ∷ ys, zs, rest, ap (◌∷◌ x) split, ap suc long, ap₂ ◌∷◌ next.1 same, left)

  loop_ended :
      (repeat fuel : ℕ) (it : ConstIterator)
      → at_end sel it e ≡ true
      → pack_loop w sel repeat (suc fuel) it e ≡ some []
  unfolding pack_loop
  loop_ended repeat fuel it h = rw (h, pack_loop) refl

  loop_running :
      (repeat fuel : ℕ) (it : ConstIterator)
      → at_end sel it e ≡ false
      → pack_loop w sel repeat (suc fuel) it e
        ≡ Option.map
            (◌∷◌ (execute w sel repeat it).0)
            (pack_loop w sel repeat fuel (execute w sel repeat it).1 e)
  unfolding pack_loop
  loop_running repeat fuel it h = rw (h, pack_loop) refl

  not_ended :
      (fuel : ℕ) (it : ConstIterator) (xs : List Vec)
      → visit w sel fuel it e ≡ some xs
      → 0 < length xs
      → at_end sel it e ≡ false
  not_ended zero it xs h k = absurd (no_fuel it xs h)
  not_ended (suc fuel) it [] h k = absurd (omega arith)
  not_ended (suc fuel) it (x ∷ xs) h k = (visit_next fuel it x xs h).0

  -- Where the loop over the container visits a number of indices that is a multiple of the packs of a
  -- round, the loop over the packs ends after that many rounds, never passes the end, and has the
  -- same indices in the same order.
  pub pack_loop-visit :
      (repeat q fuel : ℕ) (it : ConstIterator) (xs : List Vec)
      → 0 < repeat
      → visit w sel fuel it e ≡ some xs
      → length xs ≡ q * repeat
      → (rounds : List (List Vec)) × (pack_loop w sel repeat (suc q) it e ≡ some rounds)
        × AllLength repeat rounds
        × (concat rounds ≡ xs)
  unfolding concat
  pack_loop-visit repeat zero fuel it [] p h k =
      ([], loop_ended repeat 0 it (visit_last fuel it h), tt, refl)
  pack_loop-visit repeat zero fuel it (x ∷ xs) p h k = absurd (omega arith)
  pack_loop-visit repeat (suc q) fuel it xs p h k =
      let (ys, zs, rest, split, long, same, left) = execute_lem repeat fuel it xs h (omega arith) in
      let (rounds, found, lengths, all) =
        pack_loop-visit repeat q rest (execute w sel repeat it).1 zs p left
          (omega (arith, ap length split ∙ length-append ys zs, long)) in
      (
        ys ∷ rounds,
        loop_running repeat (suc q) it (not_ended fuel it xs h (omega arith))
            ∙ ap (Option.map (◌∷◌ (execute w sel repeat it).0)) found
            ∙ ap (λ r. some (r ∷ rounds)) same,
        (long, lengths),
        ap (◌++◌ ys) all ∙ sym split,
      )
