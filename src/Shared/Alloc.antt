-- ===== src/Shared/Alloc.antt =====
-- SharedStorage.hpp, alloc and allocDynamic: what an allocation adds, and when it fails.
use alpaka.Base.{
  sub_w, sym, ℕ, ◌+◌, ◌-◌, ◌%◌, ◌^◌, ◌<◌, ◌≤◌, ◌≡◌, refl, subst, ap, ◌∙◌, arith, List, [], ◌∷◌,
  ◌++◌, none, some, le→leb, lt→leb_false, dec_le,
}
use alpaka.Shared.{Place, Storage, total_shared_bytes, var_chunk_end, alloc_dynamic, place_var}
use alpaka.Shared.Chunk.{IsPlace, align_of, chunk_begin, chunk_begin-bounds, var_chunk_end_exact}
use alpaka.Shared.Chain.{sub_back, header_of, Chain, Chain-extended, IsStorage}

-- The record of an allocation of n bytes: its header lies behind what was allocated before, its bytes
-- at an aligned address behind the header, and all of it inside the storage.
pub record IsNew (pl : Place) (alignof n : ℕ) (st next : Storage) : Type 0 where
  pub behind : st.m_allocd_bytes + pl.sizeof_meta + n ≤ next.m_allocd_bytes
  pub inside : next.m_allocd_bytes ≤ total_shared_bytes
  pub aligned : (pl.m_data + (next.m_allocd_bytes - n)) % align_of pl alignof ≡ 0

module _ (pl : Place) (alignof i n : ℕ) (st : Storage) (vars : List (ℕ × ℕ))
    (place : IsPlace pl alignof) (small : n < 2 ^ 30) (holds : IsStorage pl st vars) where
  open holds use {meta_place, has_meta, meta_small, in_total, chain}

  abbrev pub meta_end : ℕ
  meta_end = header_of pl st.m_allocd_bytes + pl.sizeof_meta

  -- The end of the new variable, in unbounded arithmetic.
  abbrev pub var_end : ℕ
  var_end = chunk_begin pl alignof meta_end + n

  meta_end_exact : var_chunk_end pl pl.alignof_meta st.m_allocd_bytes pl.sizeof_meta ≡ meta_end
  meta_end_exact =
      var_chunk_end_exact pl pl.alignof_meta st.m_allocd_bytes pl.sizeof_meta meta_place
        (omega (arith, in_total)) meta_small

  var_end_exact : meta_end ≤ total_shared_bytes → var_chunk_end pl alignof meta_end n ≡ var_end
  var_end_exact h = var_chunk_end_exact pl alignof meta_end n place (omega arith) small

  meta_end_le : meta_end + n ≤ var_end
  meta_end_le = omega (arith, (chunk_begin-bounds pl alignof meta_end place).0)

  abbrev next : Storage
  next = record {
    headers = (sub_w 64 meta_end pl.sizeof_meta, record { id = i; offset = var_end }) ∷ st.headers;
    m_allocd_bytes = var_end;
  }

  placed :
      alloc_dynamic pl alignof i n st
      ≡ place_var pl.sizeof_meta i meta_end (var_chunk_end pl alignof meta_end n) st
  unfolding alloc_dynamic
  placed = ap (λ m. place_var pl.sizeof_meta i m (var_chunk_end pl alignof m n) st) meta_end_exact

  alloc_next : var_end ≤ total_shared_bytes → alloc_dynamic pl alignof i n st ≡ some next
  unfolding place_var
  alloc_next h =
      placed
      ∙ ap (λ v. place_var pl.sizeof_meta i meta_end v st)
          (var_end_exact (omega (arith, meta_end_le)))
      ∙ rw
          (
            le→leb meta_end total_shared_bytes (omega (arith, meta_end_le)),
            le→leb var_end total_shared_bytes h,
            place_var,
          )
          refl

  next-IsStorage : var_end ≤ total_shared_bytes → IsStorage pl next (vars ++ ((i, var_end) ∷ []))
  next-IsStorage h = record {
    meta_place = meta_place;
    has_meta = has_meta;
    meta_small = meta_small;
    in_total = h;
    chain =
        subst
          (λ p.
            Chain pl ((p, record { id = i; offset = var_end }) ∷ st.headers) var_end 0
              (vars ++ ((i, var_end) ∷ [])))
          {x = header_of pl st.m_allocd_bytes} {y = sub_w 64 meta_end pl.sizeof_meta}
          (sym (
            sub_back 64 meta_end (header_of pl st.m_allocd_bytes) pl.sizeof_meta refl
              (omega (arith, meta_end_le, h))))
          (Chain-extended pl st.headers st.m_allocd_bytes 0 i var_end vars meta_place has_meta
            (omega (arith, meta_end_le)) chain);
  }

  -- Allocating n bytes, n below 2 ^ 30, in a storage that holds variables, for a type of a given
  -- alignment: if the end of the new variable lies inside the storage, the allocation succeeds, and
  -- the storage holds the same variables and the new one, whose bytes lie behind all others, at an
  -- aligned address, inside the storage.
  pub alloc_dynamic-IsStorage :
      var_end ≤ total_shared_bytes
      → (after : Storage) × (alloc_dynamic pl alignof i n st ≡ some after)
        × IsStorage pl after (vars ++ ((i, after.m_allocd_bytes) ∷ []))
        × IsNew pl alignof n st after
  alloc_dynamic-IsStorage h = (
    next,
    alloc_next h,
    next-IsStorage h,
    record {
      behind = omega (
        arith,
        meta_end_le,
        (chunk_begin-bounds pl pl.alignof_meta st.m_allocd_bytes meta_place).0,
      );
      inside = h;
      aligned =
          ap (λ o. (pl.m_data + o) % align_of pl alignof) {x = var_end - n}
            {y = chunk_begin pl alignof meta_end} (omega arith)
          ∙ (chunk_begin-bounds pl alignof meta_end place).2;
    },
  )

  -- If the end of the new variable lies outside, an assertion fails.
  pub alloc_dynamic_full : total_shared_bytes < var_end → alloc_dynamic pl alignof i n st ≡ none
  unfolding place_var
  alloc_dynamic_full h = placed ∙ elim (dec_le meta_end total_shared_bytes) [
    | yes fits ↦
        ap (λ v. place_var pl.sizeof_meta i meta_end v st) (var_end_exact fits)
        ∙ rw
            (
              le→leb meta_end total_shared_bytes fits,
              lt→leb_false var_end total_shared_bytes h,
              place_var,
            )
            refl
    | no big ↦ rw (lt→leb_false meta_end total_shared_bytes (omega arith), place_var) refl
  ]
