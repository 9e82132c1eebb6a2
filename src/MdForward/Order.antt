-- ===== src/MdForward/Order.antt =====
-- MdForwardIter.hpp: the loop visits every index of the span once, in row-major order, and ends.
use mathlib.Core.Option
use native.Mathlib.Nat.{mul-le-mul_right, mul-zero}
use alpaka.Base.{
  ℕ, zero, suc, ◌+◌, ◌*◌, ◌^◌, ◌<◌, ◌≤◌, ◌≡◌, refl, sym, subst, ap, ◌∙◌, Bool, true, false, ◌||◌,
  [], ◌∷◌, map, some, length, replicate, arith, leb, suc-==-zero, if◌then◌else◌, add_w, wrap_small,
  dec_lt, le→leb, lt→leb_false, Bool-cases, inl, inr,
}
use alpaka.Vec.{Vec}
use alpaka.Vec.Linear.{InBounds, volume, row_major, row_major-lt}
use alpaka.Vec.RoundTrip.{unrank, unrank-row_major}
use alpaka.Flat.Select.{Fits}
use alpaka.ThreadSpace.{iota, iota_from}
use alpaka.MdForward.{has_zero, begin, advance, increment, at_end, visit}

-- What `advance` gives: without a carry the next place, with a carry the first place after the last.
abbrev pub Advanced : Vec → Vec → Vec × Bool → Type 0
Advanced es cs (rest, false) = InBounds es rest × (row_major es rest ≡ suc (row_major es cs))
Advanced es cs (rest, true) =
    InBounds es rest × (row_major es rest ≡ 0) × (suc (row_major es cs) ≡ volume es)

last_place : (e c v k : ℕ) → e ≡ suc c → suc k ≡ v → suc (c * v + k) ≡ e * v
last_place e c v k h r = subst (λ t. suc (c * v + k) ≡ t * v) (sym h) (omega (arith, r))

advance_dim :
    (w e c : ℕ) (es cs : Vec) (r : Vec × Bool)
    → e < 2 ^ w
    → c < e
    → Advanced es cs r
    → Advanced (e ∷ es) (c ∷ cs) (
        if r.1
        then (if leb e (add_w w c 1) then (0 ∷ r.0, true) else (add_w w c 1 ∷ r.0, false))
        else (c ∷ r.0, false))
unfolding row_major volume
advance_dim w e c es cs (rest, false) fits h a = ((h, a.0), omega (arith, a.1))
advance_dim w e c es cs (rest, true) fits h a = elim (dec_lt (c + 1) e) [
  | yes more ↦
      rw (wrap_small w {n = c + 1} (omega arith), lt→leb_false e (c + 1) more)
        ((more, a.0), omega (arith, a))
  | no last ↦
      rw (wrap_small w {n = c + 1} (omega arith), le→leb e (c + 1) (omega arith))
        ((omega arith, a.0), omega (arith, a), last_place e c (volume es) _ (omega arith) a.2)
]

pub advance_lem :
    (w : ℕ) (es cs : Vec) → Fits w es → InBounds es cs → Advanced es cs (advance w es cs)
unfolding advance
advance_lem w [] [] f h = (tt, unfold row_major in refl, unfold row_major volume in refl)
advance_lem w [] (c ∷ cs) f h = absurd h
advance_lem w (e ∷ es) [] f h = absurd h
advance_lem w (e ∷ es) (c ∷ cs) f h =
    advance_dim w e c es cs (advance w es cs) f.0 h.0 (advance_lem w es cs f.1 h.1)

-- The iterator stands at place k; the end is the place after the last.
abbrev pub Stands : ℕ → Vec → Vec → ℕ → Type 0
Stands e es [] k = ⊥
Stands e es (c ∷ cs) k = (c ≤ e) × InBounds es cs × (c * volume es + row_major es cs ≡ k)

increment_dim :
    (e c : ℕ) (w : ℕ) (es cs : Vec) (r : Vec × Bool) (k : ℕ)
    → e < 2 ^ w
    → c < e
    → Advanced es cs r
    → c * volume es + row_major es cs ≡ k
    → Stands e es ((if r.1 then add_w w c 1 else c) ∷ r.0) (suc k)
increment_dim e c w es cs (rest, false) k fits h a at = (omega arith, a.0, omega (arith, a))
increment_dim e c w es cs (rest, true) k fits h a at =
    rw (wrap_small w {n = c + 1} (omega arith)) (omega arith, a.0, omega (arith, a))

below_extent : (c e v r k : ℕ) → c * v + r ≡ k → k < e * v → c < e
below_extent c e v r k at h = elim (dec_lt c e) [
  | yes q ↦ q
  | no q ↦ absurd (omega (arith, mul-le-mul_right {m = e} {n = c} v (omega arith)))
]

at_extent : (c e v r k : ℕ) → c * v + r ≡ k → k ≡ e * v → r < v → e ≤ c
at_extent c e v r k at h q = elim (dec_lt c e) [
  | yes less ↦ absurd (omega (arith, mul-le-mul_right {m = suc c} {n = e} v less))
  | no more ↦ omega arith
]

increment_lem :
    (w e : ℕ) (es : Vec) (current : Vec) (k : ℕ)
    → Fits w (e ∷ es)
    → Stands e es current k
    → k < volume (e ∷ es)
    → Stands e es (increment w (e ∷ es) current) (suc k)
unfolding increment volume
increment_lem w e es [] k f s h = absurd s
increment_lem w e es (c ∷ cs) k f s h =
    increment_dim e c w es cs (advance w es cs) k f.0 (below_extent c e (volume es) _ k s.2 h)
      (advance_lem w es cs f.1 s.1) s.2

unrank_place :
    (e : ℕ) (es current : Vec) (k : ℕ)
    → Stands e es current k
    → k < volume (e ∷ es)
    → unrank (e ∷ es) k ≡ current
unfolding volume row_major
unrank_place e es [] k s h = absurd s
unrank_place e es (c ∷ cs) k s h =
    ap (unrank (e ∷ es)) (sym s.2)
    ∙ unrank-row_major (e ∷ es) (c ∷ cs) (below_extent c e (volume es) _ k s.2 h, s.1)

visit_done : (w fuel e c : ℕ) (es cs : Vec) → e ≤ c → visit w (suc fuel) (e ∷ es) (c ∷ cs) ≡ some []
unfolding visit at_end
visit_done w fuel e c es cs h = rw (le→leb e c h, visit) refl

visit_more :
    (w fuel e c : ℕ) (es cs : Vec)
    → c < e
    → visit w (suc fuel) (e ∷ es) (c ∷ cs)
      ≡ Option.map (◌∷◌ (c ∷ cs)) (visit w fuel (e ∷ es) (increment w (e ∷ es) (c ∷ cs)))
unfolding visit at_end
visit_more w fuel e c es cs h = rw (lt→leb_false e c h, visit) refl

pub visit_from :
    (w e : ℕ) (es current : Vec) (k n : ℕ)
    → Fits w (e ∷ es)
    → Stands e es current k
    → k + n ≡ volume (e ∷ es)
    → visit w (suc n) (e ∷ es) current ≡ some (map (unrank (e ∷ es)) (iota_from k n))
unfolding visit iota_from
visit_from w e es [] k n f s h = absurd s
visit_from w e es (c ∷ cs) k zero f s h = visit_done w 0 e c es cs (
    at_extent c e (volume es) (row_major es cs) k s.2 (unfold volume in omega (arith, h))
      (row_major-lt es cs s.1))
visit_from w e es (c ∷ cs) k (suc n) f s h =
    visit_more w (suc n) e c es cs
      (below_extent c e (volume es) (row_major es cs) k s.2 (unfold volume in omega (arith, h)))
    ∙ ap (Option.map (◌∷◌ (c ∷ cs))) (
        visit_from w e es (increment w (e ∷ es) (c ∷ cs)) (k + 1) n f
          (subst (Stands e es (increment w (e ∷ es) (c ∷ cs))) {x = suc k} {y = k + 1} (omega arith)
            (increment_lem w e es (c ∷ cs) k f s (omega arith)))
          (omega arith))
    ∙ ap (λ c'. some (c' ∷ map (unrank (e ∷ es)) (iota_from (k + 1) n)))
        (sym (unrank_place e es (c ∷ cs) k s (omega arith)))

has_zero-suc : (e : ℕ) (es : Vec) → has_zero (suc e ∷ es) ≡ has_zero es
unfolding has_zero
has_zero-suc e es = ap (λ b. b || has_zero es) (suc-==-zero e)

zeros-InBounds : (es : Vec) → has_zero es ≡ false → InBounds es (replicate (length es) 0)
unfolding has_zero
zeros-InBounds [] h = tt
zeros-InBounds (zero ∷ es) h = absurd (ground (arith, h))
zeros-InBounds (suc e ∷ es) h = (omega arith, zeros-InBounds es (sym (has_zero-suc e es) ∙ h))

pub row_major-zeros : (es : Vec) → row_major es (replicate (length es) 0) ≡ 0
unfolding row_major
row_major-zeros [] = refl
row_major-zeros (e ∷ es) = omega (arith, row_major-zeros es)

volume-has_zero : (es : Vec) → has_zero es ≡ true → volume es ≡ 0
unfolding has_zero volume
volume-has_zero [] h = absurd (ground (arith, h))
volume-has_zero (zero ∷ es) h = omega arith
volume-has_zero (suc e ∷ es) h =
    ap (◌*◌ (suc e)) (volume-has_zero es (sym (has_zero-suc e es) ∙ h)) ∙ mul-zero (suc e)

begin_zeros :
    (e : ℕ) (es : Vec) (b : Bool)
    → has_zero (e ∷ es) ≡ b
    → begin (e ∷ es) ≡ (if b then e else 0) ∷ replicate (length es) 0
unfolding begin
begin_zeros e es b h = ap (λ t. (if t then e else 0) ∷ replicate (length es) 0) h

-- The loop over an MdSpan whose extents fit w bits ends after as many increments as the span has
-- indices, and visits all of them, each once, in row-major order; if an extent is zero, it visits
-- none. The span has a dimension.
pub visit-row_major :
    (w e : ℕ) (es : Vec)
    → Fits w (e ∷ es)
    → visit w (suc (volume (e ∷ es))) (e ∷ es) (begin (e ∷ es))
      ≡ some (map (unrank (e ∷ es)) (iota (volume (e ∷ es))))
unfolding iota iota_from
visit-row_major w e es f = elim (Bool-cases (has_zero (e ∷ es))) [
  | inl zeros ↦
      rw (begin_zeros e es true zeros, volume-has_zero (e ∷ es) zeros)
        (visit_done w 0 e e es (replicate (length es) 0) (omega arith))
  | inr none_zero ↦ rw (begin_zeros e es false none_zero) (
      visit_from w e es (0 ∷ replicate (length es) 0) 0 (volume (e ∷ es)) f
        (omega arith, (zeros-InBounds (e ∷ es) none_zero).1, omega (arith, row_major-zeros es))
        (omega arith))
]
