-- ===== src/Frames/Extents.antt =====
-- interface.hpp, getFrameSpec: the steps that enlarge a frame.
use native.Mathlib.Nat.{zero-div, div-zero, mul-div-le, mul-le-mul_left, one-le-pow}
use alpaka.Base.{
  ℕ, zero, suc, ◌+◌, ◌-◌, ◌*◌, ◌/◌, ◌^◌, ◌<◌, ◌≤◌, ◌≡◌, refl, sym, ap, ◌∙◌, arith, [], ◌∷◌, false,
  length, get_or, set, ltb, ltb→lt, Bool-cases, inl, inr, wrap_small, mul_w, subst,
}
use alpaka.Vec.{Vec}
use alpaka.Vec.Linear.{volume}
use alpaka.Frames.{round_down_to_power_of_two, widest_loop}
use alpaka.Frames.Powers.{
  IsPower, ArePowers, IsPower-double, ArePowers-get_or, ArePowers-set, volume-double, IsPower-halve,
}

-- What `std::countl_zero` gives for a positive number of w bits: the highest bit that is set is the one
-- after the zeros.
pub record CountsZeros (w : ℕ) (countl_zero : ℕ → ℕ) : Type 0 where
  pub bounded : (n : ℕ) → 0 < n → n < 2 ^ w → countl_zero n < w
  pub lower : (n : ℕ) → 0 < n → n < 2 ^ w → 2 ^ (w - 1 - countl_zero n) ≤ n
  pub upper : (n : ℕ) → 0 < n → n < 2 ^ w → n < 2 ^ (w - countl_zero n)

-- Each component of a frame is at most that of the problem.
abbrev pub Fits : Vec → Vec → Type 0
Fits [] [] = Unit {0}
Fits (e ∷ extents) (f ∷ frame) = (f ≤ e) × Fits extents frame
Fits [] (f ∷ frame) = ⊥
Fits (e ∷ extents) [] = ⊥

abbrev pub AllPositive : ℕ → Vec → Type 0
AllPositive w [] = Unit {0}
AllPositive w (e ∷ extents) = (0 < e) × (e < 2 ^ w) × AllPositive w extents

pub round_down_lem :
    (w : ℕ) (countl_zero : ℕ → ℕ) (n : ℕ)
    → CountsZeros w countl_zero
    → 0 < n
    → n < 2 ^ w
    → IsPower (round_down_to_power_of_two w countl_zero n)
      × (round_down_to_power_of_two w countl_zero n ≤ n)
unfolding round_down_to_power_of_two
round_down_lem w countl_zero n c p h =
    let exact = wrap_small w {n = 2 ^ (w - 1 - countl_zero n)} (omega (arith, c.lower n p h)) in
    ((w - 1 - countl_zero n, exact), omega (arith, exact, c.lower n p h))

Fits-set :
    (extents frame : Vec) (i y : ℕ)
    → Fits extents frame
    → y ≤ get_or extents i 0
    → Fits extents (set frame i y)
Fits-set [] [] i y h p = tt
Fits-set [] (f ∷ frame) i y h p = absurd h
Fits-set (e ∷ extents) [] i y h p = absurd h
Fits-set (e ∷ extents) (f ∷ frame) zero y h p = (p, h.1)
Fits-set (e ∷ extents) (f ∷ frame) (suc i) y h p = (h.0, Fits-set extents frame i y h.1 p)

pub Fits-length : (extents frame : Vec) → Fits extents frame → length frame ≡ length extents
Fits-length [] [] h = refl
Fits-length [] (f ∷ frame) h = absurd h
Fits-length (e ∷ extents) [] h = absurd h
Fits-length (e ∷ extents) (f ∷ frame) h = ap suc (Fits-length extents frame h.1)

get_or-lt : (w : ℕ) (v : Vec) (i : ℕ) → AllPositive w v → get_or v i 0 < 2 ^ w
get_or-lt w [] i h = one-le-pow w 2 (omega arith)
get_or-lt w (x ∷ v) zero h = h.1
get_or-lt w (x ∷ v) (suc i) h = get_or-lt w v i h.2

get_or-inside : (v : Vec) (i : ℕ) → 0 < get_or v i 0 → i < length v
get_or-inside [] i h = absurd (omega arith)
get_or-inside (x ∷ v) zero h = omega arith
get_or-inside (x ∷ v) (suc i) h = omega (arith, get_or-inside v i h)

-- What a frame is at any time: powers of two that fit the problem, and with the number of elements
-- that are left, a power of two as well, exactly `limit`.
pub record IsFrame (limit num : ℕ) (extents frame : Vec) : Type 0 where
  pub powers : ArePowers frame
  pub fits : Fits extents frame
  pub left : IsPower num
  pub full : volume frame * num ≡ limit

pub double_step :
    (w limit num i : ℕ) (extents frame : Vec)
    → AllPositive w extents
    → IsFrame limit num extents frame
    → 1 < num
    → 1 ≤ get_or extents i 0 / get_or frame i 0 / 2
    → IsFrame limit (num / 2) extents (set frame i (mul_w w (get_or frame i 0) 2))
double_step w limit num i extents frame pos h several more = record {
  powers = ArePowers-set frame i _ h.powers (
      subst IsPower (sym exact)
        (IsPower-double (get_or frame i 0) (ArePowers-get_or frame i h.powers inside)));
  fits = Fits-set extents frame i _ h.fits (omega (arith, exact, twice));
  left = halves.0;
  full = omega (
    arith,
    h.full,
    ap (λ n. volume (set frame i n) * (num / 2)) exact,
    ap (λ n. n * (num / 2)) (volume-double frame i inside),
    ap (λ n. volume frame * n) {x = num / 2 * 2} {y = num} halves.1,
  );
}
  where
    halves : IsPower (num / 2) × (num / 2 * 2 ≡ num)
    halves = IsPower-halve num h.left several

    inside : i < length frame
    inside =
        omega
          (arith, Fits-length extents frame h.fits, get_or-inside extents i (omega (arith, more)))

    twice : get_or frame i 0 * 2 ≤ get_or extents i 0
    twice = omega (
      arith,
      mul-le-mul_left {m = 2} {n = get_or extents i 0 / get_or frame i 0} (get_or frame i 0)
          (omega (arith, more)),
      mul-div-le (get_or extents i 0) (get_or frame i 0),
    )

    exact : mul_w w (get_or frame i 0) 2 ≡ get_or frame i 0 * 2
    exact = wrap_small w (omega (arith, twice, get_or-lt w extents i pos))

pub ltb_false→le : (a b : ℕ) → ltb a b ≡ false → b ≤ a
ltb_false→le a b h = ground arith

-- The quotient at r is not below `best` and those from i on.
abbrev pub Highest : (ℕ → ℕ) → ℕ → ℕ → ℕ → Type 0
Highest q i best r = (best ≤ q r) × ((k : ℕ) → q (i + k) ≤ q r)

Highest-cons :
    (q : ℕ → ℕ) (i best top r : ℕ)
    → best ≤ top
    → q i ≤ top
    → Highest q (suc i) top r
    → Highest q i best r
Highest-cons q i best top r a b (d, all) = (
  omega arith,
  elim [
    | zero ↦ omega (arith, ap q {x = i + 0} {y = i} (omega arith))
    | suc k ↦ omega (arith, all k, ap q {x = i + suc k} {y = suc i + k} (omega arith))
  ],
)

pub widest_loop-Highest :
    (q : ℕ → ℕ) (i m best : ℕ) (es fs : Vec)
    → ((k : ℕ) → get_or es k 0 / get_or fs k 0 / 2 ≡ q (i + k))
    → best ≤ q m
    → Highest q i best (widest_loop i m best es fs)
unfolding widest_loop
widest_loop-Highest q i m best [] fs same h =
    (h, λ k. omega (arith, same k, zero-div (get_or fs k 0)))
widest_loop-Highest q i m best (e ∷ es) [] same h =
    (h, λ k. omega (arith, same k, div-zero (get_or (e ∷ es) k 0)))
widest_loop-Highest q i m best (e ∷ es) (f ∷ fs) same h = elim (Bool-cases (ltb best (e / f / 2))) [
  | inl t ↦
      rw (t, widest_loop)
        (Highest-cons q i best (e / f / 2) (widest_loop (suc i) i (e / f / 2) es fs)
          (omega (arith, ltb→lt best (e / f / 2) t)) (omega (arith, first))
          (widest_loop-Highest q (suc i) i (e / f / 2) es fs rest (omega (arith, first))))
  | inr t ↦
      rw (t, widest_loop)
        (Highest-cons q i best best (widest_loop (suc i) m best es fs) (omega arith)
          (omega (arith, first, ltb_false→le best (e / f / 2) t))
          (widest_loop-Highest q (suc i) m best es fs rest h))
]
  where
    first : e / f / 2 ≡ q i
    first = same 0 ∙ ap q {y = i} (omega arith)

    rest : (k : ℕ) → get_or es k 0 / get_or fs k 0 / 2 ≡ q (suc i + k)
    rest k = same (suc k) ∙ ap q {y = suc i + k} (omega arith)
