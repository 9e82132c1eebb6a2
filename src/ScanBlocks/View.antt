-- ===== src/ScanBlocks/View.antt =====
-- scan.hpp, conflictFreeAccess: the sweeps over the shared memory are those of scanMiniBlock, seen through
-- the padded addresses.
use native.Mathlib.Nat.{le-div_iff_mul-le, mul-div-le}
use mathlib.Core.Option
use mathlib.Core.Path.{fun_ext}
use alpaka.Base.{
  ℕ, zero, suc, ◌+◌, ◌-◌, ◌*◌, ◌/◌, ◌<◌, ◌≡◌, ◌≢◌, refl, sym, ap, ◌∙◌, arith, ltb, dec_lt,
  Bool-cases, inl, inr, ℕ_discrete,
}
use alpaka.Scan.{Block, store, up_inner, up_sweep, down_inner, down_sweep}
use alpaka.Scan.Sweep.{store_same, store_other}
use alpaka.ScanBlocks.{conflict_free_access, for_in, up_stage, up_stages, down_stage, down_stages}

pub conflict_free_access-lt :
    (warp a b : ℕ) → 0 < warp → a < b → conflict_free_access warp a < conflict_free_access warp b
unfolding conflict_free_access
conflict_free_access-lt warp a b p h =
    omega (arith, (le-div_iff_mul-le {x = a / warp} {y = b} p).1 (omega (arith, mul-div-le a warp)))

pub conflict_free_access-apart :
    (warp a b : ℕ) → 0 < warp → a ≢ b → conflict_free_access warp a ≢ conflict_free_access warp b
conflict_free_access-apart warp a b p h e = elim (dec_lt a b) [
  | yes less ↦ omega (arith, conflict_free_access-lt warp a b p less, e)
  | no more ↦ elim (dec_lt b a) [
    | yes less ↦ omega (arith, conflict_free_access-lt warp b a p less, e)
    | no same ↦ h (omega arith)
  ]
]

-- The shared memory without its padding.
unfoldable pub view : {A : Type 0} → ℕ → Block A → Block A
view warp tmp k = tmp (conflict_free_access warp k)

module _ {A : Type 0} (warp : ℕ) (pos : 0 < warp) where
  pub view-store :
      (tmp : Block A) (r : ℕ) (v : A)
      → view warp (store tmp (conflict_free_access warp r) v) ≡ store (view warp tmp) r v
  unfolding view
  view-store tmp r v = fun_ext (λ k. elim (ℕ_discrete k r) [
    | yes e ↦
        ap (λ n. store tmp (conflict_free_access warp r) v (conflict_free_access warp n)) e
        ∙ store_same tmp (conflict_free_access warp r) v
        ∙ sym (store_same (view warp tmp) r v)
        ∙ ap (store (view warp tmp) r v) (sym e)
    | no ne ↦
        store_other tmp (conflict_free_access warp r) (conflict_free_access warp k) v
          (conflict_free_access-apart warp k r pos ne)
        ∙ sym (store_other (view warp tmp) r k v ne)
  ])

module _ {A : Type 0} (add : A → A → A) (nil : A) (warp : ℕ) (pos : 0 < warp) where
  abbrev up_body : ℕ → ℕ → Block A → Block A
  up_body offset j tmp =
      let left = conflict_free_access warp (offset * (2 * j + 1) - 1) in
      let right = conflict_free_access warp (offset * (2 * j + 2) - 1) in
      store tmp right (add (tmp right) (tmp left))

  view-up_body :
      (offset rounds j : ℕ) (tmp : Block A)
      → view warp (for_in rounds (up_body offset) j tmp)
        ≡ up_inner add offset rounds j (view warp tmp)
  unfolding for_in up_inner view
  view-up_body offset zero j tmp = refl
  view-up_body offset (suc rounds) j tmp =
      view-up_body offset rounds (j + 1) (up_body offset j tmp)
      ∙ ap (up_inner add offset rounds (j + 1))
          (view-store warp pos tmp (offset * (2 * j + 2) - 1) _)

  abbrev down_body : ℕ → ℕ → Block A → Block A
  down_body offset j tmp =
      let left = conflict_free_access warp (offset * (2 * j + 1) - 1) in
      let right = conflict_free_access warp (offset * (2 * j + 2) - 1) in
      let moved = store tmp left (tmp right) in store moved right (add (moved right) (tmp left))

  view-down_body :
      (offset rounds j : ℕ) (tmp : Block A)
      → view warp (for_in rounds (down_body offset) j tmp)
        ≡ down_inner add offset rounds j (view warp tmp)
  unfolding for_in down_inner view
  view-down_body offset zero j tmp = refl
  view-down_body offset (suc rounds) j tmp =
      view-down_body offset rounds (j + 1) (down_body offset j tmp)
      ∙ ap (down_inner add offset rounds (j + 1)) (
          view-store warp pos
            (store tmp (conflict_free_access warp left) (tmp (conflict_free_access warp right)))
            right
            (add
              (store tmp (conflict_free_access warp left) (tmp (conflict_free_access warp right))
                (conflict_free_access warp right))
              (tmp (conflict_free_access warp left)))
          ∙ ap (λ (g : Block A). store g right (add (g right) (view warp tmp left)))
              (view-store warp pos tmp left (tmp (conflict_free_access warp right))))
    where
      left : ℕ
      left = offset * (2 * j + 1) - 1

      right : ℕ
      right = offset * (2 * j + 2) - 1

  pub view-up_stages :
      (fuel d offset : ℕ) (tmp : Block A)
      → Option.map (view warp) (up_stages add nil fuel warp d offset tmp)
        ≡ up_sweep add fuel d offset (view warp tmp)
  unfolding up_stages up_stage up_sweep
  view-up_stages zero d offset tmp = refl
  view-up_stages (suc fuel) d offset tmp = elim (Bool-cases (ltb 0 d)) [
    | inl t ↦
        rw (t, up_stages, up_sweep)
          (view-up_stages fuel (d / 2) (offset * 2) (for_in d (up_body offset) 0 tmp)
            ∙ ap (up_sweep add fuel (d / 2) (offset * 2)) (view-up_body offset d 0 tmp))
    | inr t ↦ rw (t, up_stages, up_sweep) refl
  ]

  pub view-down_stages :
      (fuel extent d offset : ℕ) (tmp : Block A)
      → Option.map (view warp) (down_stages add nil fuel warp extent d offset tmp)
        ≡ down_sweep add fuel extent d offset (view warp tmp)
  unfolding down_stages down_stage down_sweep
  view-down_stages zero extent d offset tmp = refl
  view-down_stages (suc fuel) extent d offset tmp = elim (Bool-cases (ltb d extent)) [
    | inl t ↦
        rw (t, down_stages, down_sweep)
          (view-down_stages fuel extent (d * 2) (offset / 2) (for_in d (down_body offset) 0 tmp)
            ∙ ap (down_sweep add fuel extent (d * 2) (offset / 2)) (view-down_body offset d 0 tmp))
    | inr t ↦ rw (t, down_stages, down_sweep) refl
  ]
