-- ===== src/Executor/Order.antt =====
-- Folds whose steps commute do not depend on the order of the list.
use mathlib.Core.List.{foldl, Permᴰ}
use alpaka.Base.{
  ℕ, zero, suc, ◌+◌, ◌≤◌, ◌<◌, ◌≡◌, refl, ap, ap₂, ◌∙◌, subst, List, [], ◌∷◌, map, arith,
}
use alpaka.ThreadSpace.{iota_from}

-- Every element of the list has the property.
abbrev pub All {ℓ} : {A : Type ℓ} → (A → Type 0) → List A → Type 0
All P [] = Unit {0}
All P (x ∷ xs) = P x × All P xs

pub All-perm : {A : Type 0} (P : A → Type 0) {xs ys : List A} → Permᴰ xs ys → All P xs → All P ys
All-perm P Permᴰ.nil h = tt
All-perm P (Permᴰ.cons e p) h = (subst P e h.0, All-perm P p h.1)
All-perm P (Permᴰ.swap e g) h = (subst P g h.1.0, (subst P e h.0, h.1.1))
All-perm P (Permᴰ.trans p q) h = All-perm P q (All-perm P p h)

module _ {G A : Type 0} where
  pub foldl-ext :
      (f g : G → A → G)
      → ((s : G) (a : A) → f s a ≡ g s a)
      → (s : G) (xs : List A) → foldl f s xs ≡ foldl g s xs
  foldl-ext f g h s [] = refl
  foldl-ext f g h s (x ∷ xs) = ap (λ t. foldl f t xs) (h s x) ∙ foldl-ext f g h (g s x) xs

  pub foldl-perm :
      (f : G → A → G) (P : A → Type 0)
      → ((a b : A) (s : G) → P a → P b → f (f s a) b ≡ f (f s b) a)
      → {xs ys : List A} → Permᴰ xs ys
      → All P xs
      → (s : G) → foldl f s xs ≡ foldl f s ys
  foldl-perm f P comm Permᴰ.nil h s = refl
  foldl-perm f P comm (Permᴰ.cons {b = b} {l₁ = l₁} e p) h s =
      ap (λ x. foldl f (f s x) l₁) e ∙ foldl-perm f P comm p h.1 (f s b)
  foldl-perm f P comm (Permᴰ.swap {a = a} {b = b} {l = l} e g) h s =
      ap (λ t. foldl f t l) (comm a b s h.0 h.1.0 ∙ ap₂ (λ x y. f (f s x) y) g e)
  foldl-perm f P comm (Permᴰ.trans p q) h s =
      foldl-perm f P comm p h s ∙ foldl-perm f P comm q (All-perm P p h) s

pub foldl-map :
    {G A B : Type 0} (f : G → B → G) (g : A → B) (s : G) (xs : List A)
    → foldl f s (map g xs) ≡ foldl (λ t a. f t (g a)) s xs
foldl-map f g s [] = refl
foldl-map f g s (x ∷ xs) = foldl-map f g (f s (g x)) xs

pub iota_from-All : (e start n : ℕ) → start + n ≤ e → All (λ (i : ℕ). i < e) (iota_from start n)
unfolding iota_from
iota_from-All e start zero h = tt
iota_from-All e start (suc n) h = (omega arith, iota_from-All e (start + 1) n (omega arith))
