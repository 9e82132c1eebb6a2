-- ===== src/Boundary/Iteration.antt =====
-- BoundaryIter.hpp, iteration: the loop visits each of the 3 ^ n directions once, and ends.
use mathlib.Core.Option
use native.Mathlib.Nat.{pow-suc}
use mathlib.Core.List.{append-nil}
use alpaka.Base.{
  ℕ, zero, suc, ◌^◌, ◌≡◌, refl, sym, subst, ap, ◌∙◌, true, false, List, [], ◌∷◌, ◌++◌, map, some,
  length, length-map, length-append, replicate, arith,
}
use alpaka.Boundary.{
  BoundaryType, lower, middle, upper, oob, BoundaryVec, advance, increment, begin, end_of, same,
  same_vec, visit,
}

-- Every direction of an n-dimensional volume, in lexicographic order.
unfoldable pub directions : ℕ → List BoundaryVec
directions zero = [] ∷ []
directions (suc n) =
    map (◌∷◌ lower) (directions n)
    ++ (map (◌∷◌ middle) (directions n) ++ map (◌∷◌ upper) (directions n))

-- `advance` leads from each direction of the list to the next, and carries over from the last one.
abbrev Walks : ℕ → List BoundaryVec → Type 0
Walks n [] = ⊥
Walks n (v ∷ []) = advance v ≡ some (begin n, true)
Walks n (v ∷ u ∷ vs) = (advance v ≡ some (u, false)) × Walks n (u ∷ vs)

-- The list is not empty and starts with a given direction.
abbrev StartsWith : BoundaryVec → List BoundaryVec → Type 0
StartsWith v [] = ⊥
StartsWith v (u ∷ us) = u ≡ v

advance_keep :
    (b : BoundaryType) (v u : BoundaryVec)
    → advance v ≡ some (u, false)
    → advance (b ∷ v) ≡ some (b ∷ u, false)
unfolding advance
advance_keep b v u h = rw (h, advance) refl

advance_lower :
    (n : ℕ) (v : BoundaryVec)
    → advance v ≡ some (begin n, true)
    → advance (lower ∷ v) ≡ some (middle ∷ begin n, false)
unfolding advance
advance_lower n v h = rw (h, advance) refl

advance_middle :
    (n : ℕ) (v : BoundaryVec)
    → advance v ≡ some (begin n, true)
    → advance (middle ∷ v) ≡ some (upper ∷ begin n, false)
unfolding advance
advance_middle n v h = rw (h, advance) refl

advance_upper :
    (n : ℕ) (v : BoundaryVec)
    → advance v ≡ some (begin n, true)
    → advance (upper ∷ v) ≡ some (begin (suc n), true)
unfolding advance begin
advance_upper n v h = rw (h, advance) refl

Walks-upper : (n : ℕ) (vs : List BoundaryVec) → Walks n vs → Walks (suc n) (map (◌∷◌ upper) vs)
Walks-upper n [] h = h
Walks-upper n (v ∷ []) h = advance_upper n v h
Walks-upper n (v ∷ u ∷ vs) h = (advance_keep upper v u h.0, Walks-upper n (u ∷ vs) h.1)

-- A block of directions with first component b, followed by a list.
module _ (n : ℕ) (b : BoundaryType) (c : BoundaryVec)
    (carries : (v : BoundaryVec)
      → advance v ≡ some (begin n, true)
      → advance (b ∷ v) ≡ some (c, false)) where
  Walks-block :
      (vs rest : List BoundaryVec)
      → Walks n vs
      → StartsWith c rest
      → Walks (suc n) rest
      → Walks (suc n) (map (◌∷◌ b) vs ++ rest)
  Walks-block [] rest h s r = absurd h
  Walks-block (v ∷ []) [] h s r = absurd s
  Walks-block (v ∷ []) (u ∷ rest) h s r = (carries v h ∙ ap (λ t. some (t, false)) (sym s), r)
  Walks-block (v ∷ u ∷ vs) rest h s r = (advance_keep b v u h.0, Walks-block (u ∷ vs) rest h.1 s r)

StartsWith-map :
    (b : BoundaryType) (v : BoundaryVec) (vs rest : List BoundaryVec)
    → StartsWith v vs
    → StartsWith (b ∷ v) (map (◌∷◌ b) vs ++ rest)
StartsWith-map b v [] rest h = absurd h
StartsWith-map b v (u ∷ vs) rest h = ap (◌∷◌ b) h

StartsWith-map_last :
    (b : BoundaryType) (v : BoundaryVec) (vs : List BoundaryVec)
    → StartsWith v vs
    → StartsWith (b ∷ v) (map (◌∷◌ b) vs)
StartsWith-map_last b v [] h = absurd h
StartsWith-map_last b v (u ∷ vs) h = ap (◌∷◌ b) h

directions-start : (n : ℕ) → StartsWith (begin n) (directions n)
unfolding directions begin
directions-start zero = refl
directions-start (suc n) = StartsWith-map lower (begin n) (directions n) _ (directions-start n)

directions-Walks : (n : ℕ) → Walks n (directions n)
unfolding directions
directions-Walks zero = unfold advance begin in refl
directions-Walks (suc n) =
    Walks-block n lower (middle ∷ begin n) (advance_lower n) (directions n) _ (directions-Walks n)
      (StartsWith-map middle (begin n) (directions n) _ (directions-start n))
      (Walks-block n middle (upper ∷ begin n) (advance_middle n) (directions n) _
        (directions-Walks n)
        (StartsWith-map_last upper (begin n) (directions n) (directions-start n))
        (Walks-upper n (directions n) (directions-Walks n)))

-- No direction of the list compares equal to the end.
abbrev AllOpen : BoundaryVec → List BoundaryVec → Type 0
AllOpen e [] = Unit {0}
AllOpen e (v ∷ vs) = (same_vec v e ≡ false) × AllOpen e vs

AllOpen-block :
    (b : BoundaryType) (n : ℕ) (vs rest : List BoundaryVec)
    → same b oob ≡ false
    → AllOpen (end_of (suc n)) rest
    → AllOpen (end_of (suc n)) (map (◌∷◌ b) vs ++ rest)
unfolding same_vec end_of
AllOpen-block b n [] rest h r = r
AllOpen-block b n (v ∷ vs) rest h r = (rw h refl, AllOpen-block b n vs rest h r)

directions-open : (n : ℕ) → AllOpen (end_of (suc n)) (directions (suc n))
unfolding directions same
directions-open n =
    AllOpen-block lower n (directions n) _ refl
      (AllOpen-block middle n (directions n) _ refl (AllOpen-upper (directions n)))
  where
    AllOpen-upper : (vs : List BoundaryVec) → AllOpen (end_of (suc n)) (map (◌∷◌ upper) vs)
    AllOpen-upper vs =
        subst (AllOpen (end_of (suc n))) (append-nil _) (AllOpen-block upper n vs [] refl tt)

abbrev AllDim : ℕ → List BoundaryVec → Type 0
AllDim n [] = Unit {0}
AllDim n (v ∷ vs) = (length v ≡ n) × AllDim n vs

AllDim-block :
    (b : BoundaryType) (n : ℕ) (vs rest : List BoundaryVec)
    → AllDim n vs
    → AllDim (suc n) rest
    → AllDim (suc n) (map (◌∷◌ b) vs ++ rest)
AllDim-block b n [] rest h r = r
AllDim-block b n (v ∷ vs) rest h r = (ap suc h.0, AllDim-block b n vs rest h.1 r)

directions-dim : (n : ℕ) → AllDim n (directions n)
unfolding directions
directions-dim zero = (refl, tt)
directions-dim (suc n) = AllDim-block lower n (directions n) _ (directions-dim n) (
    AllDim-block middle n (directions n) _ (directions-dim n) (
      subst (AllDim (suc n)) (append-nil _)
        (AllDim-block upper n (directions n) [] (directions-dim n) tt)))

same_vec-end : (n : ℕ) → same_vec (end_of n) (end_of n) ≡ true
unfolding same_vec same end_of
same_vec-end zero = refl
same_vec-end (suc n) = same_vec-end n

visit_end : (fuel n : ℕ) → visit (suc fuel) (end_of n) (end_of n) ≡ some []
unfolding visit
visit_end fuel n = rw (same_vec-end n, visit) refl

visit_step :
    (fuel : ℕ) (v e next : BoundaryVec)
    → same_vec v e ≡ false
    → increment v ≡ some next
    → visit (suc fuel) v e ≡ Option.map (◌∷◌ v) (visit fuel next e)
unfolding visit
visit_step fuel v e next h i = rw (h, i, visit) refl

increment_carry :
    (n : ℕ) (v : BoundaryVec)
    → length v ≡ n
    → advance v ≡ some (begin n, true)
    → increment v ≡ some (end_of n)
unfolding increment end_of
increment_carry n v d h = rw (h, increment) (ap (λ k. some (replicate k oob)) d)

increment_next : (v u : BoundaryVec) → advance v ≡ some (u, false) → increment v ≡ some u
unfolding increment
increment_next v u h = rw (h, increment) refl

visit-walk :
    (n : ℕ) (v : BoundaryVec) (vs : List BoundaryVec)
    → Walks n (v ∷ vs)
    → AllOpen (end_of n) (v ∷ vs)
    → AllDim n (v ∷ vs)
    → visit (suc (length (v ∷ vs))) v (end_of n) ≡ some (v ∷ vs)
visit-walk n v [] h o d =
    visit_step 1 v (end_of n) (end_of n) o.0 (increment_carry n v d.0 h)
    ∙ ap (Option.map (◌∷◌ v)) (visit_end 0 n)
visit-walk n v (u ∷ vs) h o d =
    visit_step (suc (length (u ∷ vs))) v (end_of n) u o.0 (increment_next v u h.0)
    ∙ ap (Option.map (◌∷◌ v)) (visit-walk n u vs h.1 o.1 d.1)

visit-all :
    (n : ℕ) (vs : List BoundaryVec)
    → StartsWith (begin n) vs
    → Walks n vs
    → AllOpen (end_of n) vs
    → AllDim n vs
    → visit (suc (length vs)) (begin n) (end_of n) ≡ some vs
visit-all n [] s h o d = absurd s
visit-all n (v ∷ vs) s h o d =
    subst (λ u. visit (suc (length (v ∷ vs))) u (end_of n) ≡ some (v ∷ vs)) s
      (visit-walk n v vs h o d)

length-directions : (n : ℕ) → length (directions n) ≡ 3 ^ n
unfolding directions
length-directions zero = refl
length-directions (suc n) = omega (
  arith,
  length-append (map (◌∷◌ lower) (directions n))
      (map (◌∷◌ middle) (directions n) ++ map (◌∷◌ upper) (directions n)),
  length-append (map (◌∷◌ middle) (directions n)) (map (◌∷◌ upper) (directions n)),
  length-map (directions n) (◌∷◌ lower),
  length-map (directions n) (◌∷◌ middle),
  length-map (directions n) (◌∷◌ upper),
  length-directions n,
  pow-suc 3 n,
)

-- For a volume of suc n dimensions, the loop from begin() ends at end() after 3 ^ (suc n) rounds, and
-- visits the directions in lexicographic order.
pub visit-directions :
    (n : ℕ) → visit (suc (3 ^ suc n)) (begin (suc n)) (end_of (suc n)) ≡ some (directions (suc n))
visit-directions n =
    ap (λ k. visit (suc k) (begin (suc n)) (end_of (suc n))) (sym (length-directions (suc n)))
    ∙ visit-all (suc n) (directions (suc n)) (directions-start (suc n)) (directions-Walks (suc n))
        (directions-open n) (directions-dim (suc n))
