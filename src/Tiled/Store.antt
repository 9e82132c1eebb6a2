-- ===== src/Tiled/Store.antt =====
-- TiledIdxContainer.hpp: a vector seen as the values of its selected components over a base.
use alpaka.Base.{
  ℕ, zero, suc, ◌<◌, ◌≡◌, ◌≢◌, refl, ap, ◌∙◌, List, [], ◌∷◌, arith, length, get_or, set,
}
use alpaka.Vec.{Vec, select}

pub length-set : (v : Vec) (d x : ℕ) → length (set v d x) ≡ length v
length-set [] d x = refl
length-set (y ∷ v) zero x = refl
length-set (y ∷ v) (suc d) x = ap suc (length-set v d x)

pub get_or-set_same : (v : Vec) (d x : ℕ) → d < length v → get_or (set v d x) d 0 ≡ x
get_or-set_same [] d x h = absurd (omega arith)
get_or-set_same (y ∷ v) zero x h = refl
get_or-set_same (y ∷ v) (suc d) x h = get_or-set_same v d x (omega arith)

pub get_or-set_other : (v : Vec) (d k x : ℕ) → d ≢ k → get_or (set v d x) k 0 ≡ get_or v k 0
get_or-set_other [] d k x h = refl
get_or-set_other (y ∷ v) zero zero x h = absurd (h refl)
get_or-set_other (y ∷ v) zero (suc k) x h = refl
get_or-set_other (y ∷ v) (suc d) zero x h = refl
get_or-set_other (y ∷ v) (suc d) (suc k) x h = get_or-set_other v d k x (λ e. h (ap suc e))

pub set-set_same : (v : Vec) (d x y : ℕ) → set (set v d x) d y ≡ set v d y
set-set_same [] d x y = refl
set-set_same (z ∷ v) zero x y = refl
set-set_same (z ∷ v) (suc d) x y = ap (◌∷◌ z) (set-set_same v d x y)

set-set_other : (v : Vec) (d k x y : ℕ) → d ≢ k → set (set v d x) k y ≡ set (set v k y) d x
set-set_other [] d k x y h = refl
set-set_other (z ∷ v) zero zero x y h = absurd (h refl)
set-set_other (z ∷ v) zero (suc k) x y h = refl
set-set_other (z ∷ v) (suc d) zero x y h = refl
set-set_other (z ∷ v) (suc d) (suc k) x y h =
    ap (◌∷◌ z) (set-set_other v d k x y (λ e. h (ap suc e)))

set-get_or : (v : Vec) (d : ℕ) → set v d (get_or v d 0) ≡ v
set-get_or [] d = refl
set-get_or (z ∷ v) zero = refl
set-get_or (z ∷ v) (suc d) = ap (◌∷◌ z) (set-get_or v d)

-- The dimension is none of those selected.
abbrev pub Apart : ℕ → List ℕ → Type 0
Apart d [] = Unit {0}
Apart d (k ∷ ks) = (d ≢ k) × Apart d ks

-- Dimensions below n, each at most once.
abbrev pub IsSelection : ℕ → List ℕ → Type 0
IsSelection n [] = Unit {0}
IsSelection n (d ∷ ds) = (d < n) × Apart d ds × IsSelection n ds

-- The selected components of a vector replaced.
unfoldable pub write : Vec → List ℕ → Vec → Vec
write base (d ∷ ds) (c ∷ cs) = set (write base ds cs) d c
write base _ _ = base

pub length-write : (base : Vec) (ds : List ℕ) (cs : Vec) → length (write base ds cs) ≡ length base
unfolding write
length-write base [] cs = refl
length-write base (d ∷ ds) [] = refl
length-write base (d ∷ ds) (c ∷ cs) = length-set (write base ds cs) d c ∙ length-write base ds cs

Apart-get_or : (d : ℕ) (ds : List ℕ) (i : ℕ) → Apart d ds → i < length ds → d ≢ get_or ds i 0
Apart-get_or d [] i a h = absurd (omega arith)
Apart-get_or d (k ∷ ks) zero a h = a.0
Apart-get_or d (k ∷ ks) (suc i) a h = Apart-get_or d ks i a.1 (omega arith)

pub get_or-write :
    (base : Vec) (ds : List ℕ) (cs : Vec) (i : ℕ)
    → IsSelection (length base) ds
    → length ds ≡ length cs
    → i < length ds
    → get_or (write base ds cs) (get_or ds i 0) 0 ≡ get_or cs i 0
unfolding write
get_or-write base [] cs i s e h = absurd (omega arith)
get_or-write base (d ∷ ds) [] i s e h = absurd (omega arith)
get_or-write base (d ∷ ds) (c ∷ cs) zero s e h =
    get_or-set_same (write base ds cs) d c (omega (arith, length-write base ds cs, s.0))
get_or-write base (d ∷ ds) (c ∷ cs) (suc i) s e h =
    get_or-set_other (write base ds cs) d (get_or ds i 0) c (Apart-get_or d ds i s.1 (omega arith))
    ∙ get_or-write base ds cs i s.2 (omega arith) (omega arith)

pub set-write :
    (base : Vec) (ds : List ℕ) (cs : Vec) (i x : ℕ)
    → IsSelection (length base) ds
    → length ds ≡ length cs
    → i < length ds
    → set (write base ds cs) (get_or ds i 0) x ≡ write base ds (set cs i x)
unfolding write
set-write base [] cs i x s e h = absurd (omega arith)
set-write base (d ∷ ds) [] i x s e h = absurd (omega arith)
set-write base (d ∷ ds) (c ∷ cs) zero x s e h = set-set_same (write base ds cs) d c x
set-write base (d ∷ ds) (c ∷ cs) (suc i) x s e h =
    set-set_other (write base ds cs) d (get_or ds i 0) c x (Apart-get_or d ds i s.1 (omega arith))
    ∙ ap (λ v. set v d c) (set-write base ds cs i x s.2 (omega arith) (omega arith))

pub write-select : (base : Vec) (ds : List ℕ) → write base ds (select base ds) ≡ base
unfolding write select
write-select base [] = refl
write-select base (d ∷ ds) =
    ap (λ v. set v d (get_or base d 0)) (write-select base ds) ∙ set-get_or base d
