-- ===== src/Flat/Steps.antt =====
-- The linear indices s, s + d, s + 2 d, ... below e, and how often each number is among them.
use native.Mathlib.Nat.{mod-eq_of_lt, mod-eq-sub-mod, zero-mod}
use alpaka.Base.{
  ℕ, zero, suc, ◌+◌, ◌-◌, ◌%◌, ◌≤◌, ◌<◌, ◌≡◌, refl, sym, dec_lt, le→leb, lt→leb_false, ap, ◌∙◌,
  List, [], ◌∷◌, true, false, leb, ltb, ◌==◌, ◌&&◌, if◌then◌else◌, arith,
}

unfoldable pub steps : ℕ → ℕ → ℕ → ℕ → List ℕ
steps zero s d e = []
steps (suc fuel) s d e = elim (leb e s) [ true ↦ [] | false ↦ s ∷ steps fuel (s + d) d e ]

pub steps_done : (fuel s d e : ℕ) → e ≤ s → steps (suc fuel) s d e ≡ []
unfolding steps
steps_done fuel s d e h = rw (le→leb e s h, steps) refl

pub steps_more : (fuel s d e : ℕ) → s < e → steps (suc fuel) s d e ≡ s ∷ steps fuel (s + d) d e
unfolding steps
steps_more fuel s d e h = rw (lt→leb_false e s h, steps) refl

unfoldable pub count : ℕ → List ℕ → ℕ
count k [] = 0
count k (x ∷ xs) = (if k == x then 1 else 0) + count k xs

-- 1 for a number that is s modulo d and lies between s and e, else 0.
unfoldable pub hit : ℕ → ℕ → ℕ → ℕ → ℕ
hit k s d e = if leb s k && (ltb k e && ((k - s) % d == 0)) then 1 else 0

hit_empty : (k s d e : ℕ) → e ≤ s → hit k s d e ≡ 0
unfolding hit
hit_empty k s d e h = ground arith

hit_before : (k s d e : ℕ) → k < s → hit k s d e ≡ 0
unfolding hit
hit_before k s d e h = ground arith

hit_first : (s d e : ℕ) → s < e → hit s s d e ≡ 1
unfolding hit
hit_first s d e h =
    let r : (s - s) % d ≡ 0 = ap (λ t. t % d) {y = 0} (omega arith) ∙ zero-mod d in
    ground (arith, r)

hit_between : (k s d e : ℕ) → s < k → k < s + d → hit k s d e ≡ 0
unfolding hit
hit_between k s d e h q =
    let r : (k - s) % d ≡ k - s = mod-eq_of_lt (omega arith) in ground (arith, r)

hit_later : (k s d e : ℕ) → s + d ≤ k → hit k s d e ≡ hit k (s + d) d e
unfolding hit
hit_later k s d e h = ground (arith, r)
  where
    r : (k - s) % d ≡ (k - (s + d)) % d
    r = mod-eq-sub-mod {n = k - s} (omega arith) ∙ ap (λ t. t % d) (omega arith)

hit_step :
    (k s d e : ℕ) → 0 < d → s < e → hit k s d e ≡ (if k == s then 1 else 0) + hit k (s + d) d e
hit_step k s d e p h = elim (dec_lt k s) [
  | yes below ↦ ground (arith, hit_before k s d e below, hit_before k (s + d) d e)
  | no above ↦ elim (dec_lt s k) [
    | yes q ↦ elim (dec_lt k (s + d)) [
      | yes r ↦ ground (arith, hit_between k s d e q r, hit_before k (s + d) d e)
      | no r ↦ ground (arith, hit_later k s d e)
    ]
    | no q ↦ same (omega arith)
  ]
]
  where
    same : k ≡ s → hit k s d e ≡ (if k == s then 1 else 0) + hit k (s + d) d e
    same eq = rw eq (ground (arith, hit_first s d e h, hit_before s (s + d) d e))

-- From s in steps of d: each number that is s modulo d, from s on and below e, occurs once.
pub count-steps :
    (fuel k s d e : ℕ) → e ≤ s + fuel → 0 < d → count k (steps fuel s d e) ≡ hit k s d e
unfolding steps count
count-steps zero k s d e h p = sym (hit_empty k s d e (omega arith))
count-steps (suc fuel) k s d e h p =
    ground (arith, count-steps fuel k (s + d) d e, hit_step k s d e, hit_empty k s d e)
