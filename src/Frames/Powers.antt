-- ===== src/Frames/Powers.antt =====
-- Vectors of powers of two.
use native.Mathlib.Nat.{mul-div_right}
use alpaka.Base.{
  ℕ, zero, suc, ◌+◌, ◌*◌, ◌/◌, ◌^◌, ◌<◌, ◌≤◌, ◌≡◌, refl, sym, ap, ap₂, ◌∙◌, arith, [], ◌∷◌, length,
  get_or, set, replicate, pow_pos,
}
use alpaka.Vec.{Vec}
use alpaka.Vec.Linear.{volume}

abbrev pub IsPower : ℕ → Type 0
IsPower n = (k : ℕ) × (n ≡ 2 ^ k)

abbrev pub ArePowers : Vec → Type 0
ArePowers [] = Unit {0}
ArePowers (x ∷ v) = IsPower x × ArePowers v

pub IsPower-double : (n : ℕ) → IsPower n → IsPower (n * 2)
IsPower-double n (k, e) = (suc k, omega (arith, e))

pub IsPower-halve : (n : ℕ) → IsPower n → 1 < n → IsPower (n / 2) × (n / 2 * 2 ≡ n)
IsPower-halve n (zero, e) h = absurd (omega (arith, e))
IsPower-halve n (suc k, e) h = ((k, omega (arith, e)), omega (arith, e))

pow-add : (a b : ℕ) → 2 ^ a * 2 ^ b ≡ 2 ^ (a + b)
pow-add zero b = omega (arith, ap (λ n. 2 ^ n) {x = 0 + b} {y = b} (omega arith))
pow-add (suc a) b =
    ap (λ (n : ℕ). n * 2 ^ b) {y = 2 * 2 ^ a} (omega arith)
    ∙ omega (
      arith,
      ap (λ (n : ℕ). 2 * n) (pow-add a b),
      ap (λ n. 2 ^ n) {x = suc a + b} {y = suc (a + b)} (omega arith),
    )

pub volume-IsPower : (v : Vec) → ArePowers v → IsPower (volume v)
unfolding volume
volume-IsPower [] h = (0, refl)
volume-IsPower (x ∷ v) ((a, e), h) =
    let (b, f) = volume-IsPower v h in (a + b, ap₂ (λ m n. m * n) e f ∙ pow-add a b)

pub ArePowers-get_or : (v : Vec) (i : ℕ) → ArePowers v → i < length v → IsPower (get_or v i 0)
ArePowers-get_or [] i h p = absurd (omega arith)
ArePowers-get_or (x ∷ v) zero h p = h.0
ArePowers-get_or (x ∷ v) (suc i) h p = ArePowers-get_or v i h.1 (omega arith)

pub ArePowers-set : (v : Vec) (i x : ℕ) → ArePowers v → IsPower x → ArePowers (set v i x)
ArePowers-set [] i x h p = tt
ArePowers-set (y ∷ v) zero x h p = (p, h.1)
ArePowers-set (y ∷ v) (suc i) x h p = (h.0, ArePowers-set v i x h.1 p)

pub ArePowers-replicate : (n : ℕ) → ArePowers (replicate n 1)
ArePowers-replicate zero = tt
ArePowers-replicate (suc n) = ((0, refl), ArePowers-replicate n)

pub volume-replicate : (n : ℕ) → volume (replicate n 1) ≡ 1
unfolding volume
volume-replicate zero = refl
volume-replicate (suc n) = omega (arith, volume-replicate n)

pub volume-double :
    (v : Vec) (i : ℕ) → i < length v → volume (set v i (get_or v i 0 * 2)) ≡ volume v * 2
unfolding volume
volume-double [] i p = absurd (omega arith)
volume-double (x ∷ v) zero p = omega arith
volume-double (x ∷ v) (suc i) p = omega (arith, ap (λ n. x * n) (volume-double v i (omega arith)))

-- A power of two that is not larger divides another.
pub power_split : (k n : ℕ) → 2 ^ k ≤ 2 ^ n → (m : ℕ) × (2 ^ k * 2 ^ m ≡ 2 ^ n)
power_split zero n h = (n, omega arith)
power_split (suc k) zero h = absurd (omega (arith, h, pow_pos k))
power_split (suc k) (suc n) h =
    let (m, e) = power_split k n (omega (arith, h)) in
    (m, ap (λ (x : ℕ). x * 2 ^ m) {y = 2 * 2 ^ k} (omega arith) ∙ omega (arith, e))

pub IsPower-quotient :
    (n : ℕ) (l : ℕ) → IsPower l → l ≤ 2 ^ n → IsPower (2 ^ n / l) × (l * (2 ^ n / l) ≡ 2 ^ n)
IsPower-quotient n l (k, e) h =
    let (m, f) = power_split k n (omega (arith, h, e)) in
    let product = ap (λ (a : ℕ). a * 2 ^ m) e ∙ f in
    let quotient =
      sym (ap (λ (a : ℕ). a / l) product)
      ∙ mul-div_right (2 ^ m) {m = l} (omega (arith, e, pow_pos k)) in
    ((m, quotient), ap (λ (a : ℕ). l * a) quotient ∙ product)
