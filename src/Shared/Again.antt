-- ===== src/Shared/Again.antt =====
-- SingleThreadStaticShared.hpp: a variable stays the same for all calls with its id.
use alpaka.Base.{
  ℕ, suc, ◌+◌, ◌^◌, ◌<◌, ◌≤◌, ◌≡◌, refl, sym, subst, ap, ◌∙◌, arith, true, false, List, [], ◌∷◌,
  ◌++◌, length, length-append, none, some, ◌==◌, ==_refl, Bool-cases, inl, inr, wrap, sub_w,
}
use alpaka.Shared.{
  Place, Storage, total_shared_bytes, alloc_dynamic, get_var_ptr, get_latest_var_ptr,
  alloc_dynamic_var,
}
use alpaka.Shared.Chunk.{IsPlace}
use alpaka.Shared.Chain.{IsStorage, found, get_var_ptr-found}
use alpaka.Shared.Alloc.{var_end, IsNew, alloc_dynamic-IsStorage}

-- A search in a longer list of variables.
found-append_new :
    (sizeof i e : ℕ) (vars : List (ℕ × ℕ))
    → found sizeof i vars ≡ none
    → found sizeof i (vars ++ ((i, e) ∷ [])) ≡ some (sub_w 64 e sizeof)
unfolding found
found-append_new sizeof i e [] h = rw (==_refl i, found) refl
found-append_new sizeof i e ((j, f) ∷ vars) h = elim (Bool-cases (j == i)) [
  | inl same ↦ absurd (
      ground (
        arith,
        subst (λ b. elim b [ true ↦ some (sub_w 64 f sizeof) | false ↦ found sizeof i vars ] ≡ none)
            same h,
      ))
  | inr other ↦
      rw (other, found)
        (found-append_new sizeof i e vars (
          subst
            (λ b. elim b [ true ↦ some (sub_w 64 f sizeof) | false ↦ found sizeof i vars ] ≡ none)
            other h))
]

found-append_other :
    (sizeof i j e : ℕ) (vars : List (ℕ × ℕ))
    → (i == j) ≡ false
    → found sizeof j (vars ++ ((i, e) ∷ [])) ≡ found sizeof j vars
unfolding found
found-append_other sizeof i j e [] h = rw (h, found) refl
found-append_other sizeof i j e ((k, f) ∷ vars) h =
    ap (λ r. elim (k == j) [ true ↦ some (sub_w 64 f sizeof) | false ↦ r ])
      (found-append_other sizeof i j e vars h)

-- The calls of `allocDynamic`, from what the search gives.
alloc_dynamic_var-known :
    (pl : Place) (fuel sizeof alignof i n p : ℕ) (st : Storage)
    → get_var_ptr pl fuel sizeof i st ≡ some (some p)
    → alloc_dynamic_var pl fuel sizeof alignof i n st ≡ some (st, p)
unfolding alloc_dynamic_var
alloc_dynamic_var-known pl fuel sizeof alignof i n p st h = rw (h, alloc_dynamic_var) refl

alloc_dynamic_var-fresh :
    (pl : Place) (fuel sizeof alignof i n : ℕ) (st next : Storage)
    → get_var_ptr pl fuel sizeof i st ≡ some none
    → alloc_dynamic pl alignof i n st ≡ some next
    → alloc_dynamic_var pl fuel sizeof alignof i n st ≡ some (next, get_latest_var_ptr sizeof next)
unfolding alloc_dynamic_var
alloc_dynamic_var-fresh pl fuel sizeof alignof i n st next h k = rw (h, k, alloc_dynamic_var) refl

latest_exact : (e sizeof : ℕ) → sizeof ≤ e → e < 2 ^ 64 → sub_w 64 e sizeof + sizeof ≡ e
unfolding wrap
latest_exact e sizeof h k = omega arith

length_longer : (vars : List (ℕ × ℕ)) (v : ℕ × ℕ) → length (vars ++ (v ∷ [])) ≡ suc (length vars)
length_longer vars v = omega (arith, length-append vars (v ∷ []))

module _ (pl : Place) (alignof i n : ℕ) (st : Storage) (vars : List (ℕ × ℕ))
    (place : IsPlace pl alignof) (small : n < 2 ^ 30) (holds : IsStorage pl st vars)
    (fuel sizeof : ℕ) (enough : suc (length vars) < fuel) (fits_type : sizeof ≤ n)
    (new : found sizeof i vars ≡ none) where
  -- In a storage that holds variables, none of them with the id, and where the end of the new variable
  -- lies inside, the first call of `allocDynamic` for n bytes, at least `sizeof` and below 2 ^ 30,
  -- gives a storage and an offset, `sizeof` bytes before the end of the n new bytes; each later call
  -- with the id gives the same offset and changes nothing; the search for any other id gives what it
  -- gave before. The fuel is above the number of variables plus one.
  pub alloc_dynamic_var-again :
      var_end pl alignof i n st vars place small holds ≤ total_shared_bytes
      → (after : Storage) × (p : ℕ) × (alloc_dynamic_var pl fuel sizeof alignof i n st
          ≡ some (after, p))
        × (p + sizeof ≡ after.m_allocd_bytes)
        × IsNew pl alignof n st after
        × (alloc_dynamic_var pl fuel sizeof alignof i n after ≡ some (after, p))
        × ((j : ℕ)
            → (i == j) ≡ false
            → get_var_ptr pl fuel sizeof j after ≡ get_var_ptr pl fuel sizeof j st)
  unfolding get_latest_var_ptr
  alloc_dynamic_var-again h =
      let (after, made, storage, is_new) =
        alloc_dynamic-IsStorage pl alignof i n st vars place small holds h in
      (
        after,
        get_latest_var_ptr sizeof after,
        alloc_dynamic_var-fresh pl fuel sizeof alignof i n st after
            (get_var_ptr-found pl st vars sizeof i fuel holds (omega (arith, enough)) ∙ ap some new)
            made,
        latest_exact after.m_allocd_bytes sizeof (omega (arith, is_new.behind, fits_type))
            (omega (arith, is_new.inside)),
        is_new,
        alloc_dynamic_var-known pl fuel sizeof alignof i n (get_latest_var_ptr sizeof after) after (
            get_var_ptr-found pl after (vars ++ ((i, after.m_allocd_bytes) ∷ [])) sizeof i fuel
              storage (omega (arith, length_longer vars (i, after.m_allocd_bytes), enough))
            ∙ ap some (found-append_new sizeof i after.m_allocd_bytes vars new)),
        λ j other.
            get_var_ptr-found pl after (vars ++ ((i, after.m_allocd_bytes) ∷ [])) sizeof j fuel
              storage (omega (arith, length_longer vars (i, after.m_allocd_bytes), enough))
            ∙ ap some (found-append_other sizeof i j after.m_allocd_bytes vars other)
            ∙ sym (get_var_ptr-found pl st vars sizeof j fuel holds (omega (arith, enough))),
      )
