-- ===== src/Shared/Chain.antt =====
-- SharedStorage.hpp: the headers form a chain that `getVarPtr` walks, and an allocation extends it.
use alpaka.Base.{
  ap, wrap, wrap_small, wrap-add_modulus, add_w, ℕ, zero, suc, ◌+◌, ◌-◌, ◌^◌, ◌<◌, ◌≤◌, ◌≡◌, refl,
  sym, subst, ◌∙◌, arith, true, false, List, [], ◌∷◌, ◌++◌, length, Option, none, some, ◌==◌,
  lt→ltb, ltb-false, le→leb, ==_refl, Bool-cases, inl, inr, sub_w,
}
use alpaka.Shared.{
  Place, MetaData, Storage, total_shared_bytes, lookup, var_chunk_end, find_var, get_var_ptr,
}
use alpaka.Shared.Chunk.{IsPlace, chunk_begin, chunk_begin-bounds, var_chunk_end_exact}

-- The offset of the header that the walk reads from an offset on.
abbrev pub header_of : Place → ℕ → ℕ
header_of pl off = chunk_begin pl pl.alignof_meta off

-- The variables, each by its id and its end, that the walk meets from an offset on, up to the end e.
abbrev pub Chain : Place → List (ℕ × MetaData) → ℕ → ℕ → List (ℕ × ℕ) → Type 0
Chain pl headers e off [] = off ≡ e
Chain pl headers e off ((i, var_end) ∷ vars) =
    (header_of pl off + pl.sizeof_meta ≤ var_end)
    × (var_end ≤ e)
    × (lookup headers (header_of pl off) ≡ some (record { id = i; offset = var_end }))
    × Chain pl headers e var_end vars

-- A storage that holds the given variables, in the order of their allocation.
pub record IsStorage (pl : Place) (st : Storage) (vars : List (ℕ × ℕ)) : Type 0 where
  pub meta_place : IsPlace pl pl.alignof_meta
  pub has_meta : 0 < pl.sizeof_meta
  pub meta_small : pl.sizeof_meta < 2 ^ 30
  pub in_total : st.m_allocd_bytes ≤ total_shared_bytes
  pub chain : Chain pl st.headers st.m_allocd_bytes 0 vars

-- What a search for an id is to find among the variables.
unfoldable pub found : ℕ → ℕ → List (ℕ × ℕ) → Option ℕ
found sizeof i [] = none
found sizeof i ((j, var_end) ∷ vars) = elim (j == i) [
  | true ↦ some (sub_w 64 var_end sizeof)
  | false ↦ found sizeof i vars
]

-- The two ends of a round of the loop.
find_none :
    (pl : Place) (st : Storage) (sizeof i fuel off : ℕ)
    → st.m_allocd_bytes ≤ off
    → find_var pl sizeof i st (suc fuel) off ≡ some none
unfolding find_var
find_none pl st sizeof i fuel off h = rw (ltb-false off st.m_allocd_bytes h, find_var) refl

-- Taking the size of a header off its end, and adding it again.
pub sub_back : (w m h z : ℕ) → m ≡ h + z → h + z < 2 ^ w → sub_w w m z ≡ h
sub_back w m h z e k =
    ap (wrap w) {x = m + 2 ^ w - z} {y = h + 2 ^ w} (omega (arith, e))
    ∙ wrap-add_modulus w h
    ∙ wrap_small w (omega (arith, k))

add_back : (o h z : ℕ) → o ≡ h → h + z < 2 ^ 32 → add_w 32 o z ≡ h + z
add_back o h z e k = ap (λ t. add_w 32 t z) e ∙ wrap_small 32 k

find_step :
    (pl : Place) (st : Storage) (sizeof i fuel off header : ℕ) (m : MetaData)
    → off < st.m_allocd_bytes
    → var_chunk_end pl pl.alignof_meta off pl.sizeof_meta ≡ header + pl.sizeof_meta
    → header + pl.sizeof_meta ≤ st.m_allocd_bytes
    → st.m_allocd_bytes < 2 ^ 32
    → lookup st.headers header ≡ some m
    → find_var pl sizeof i st (suc fuel) off ≡ elim (m.id == i) [
      | true ↦ some (some (sub_w 64 m.offset sizeof))
      | false ↦ find_var pl sizeof i st fuel m.offset
    ]
unfolding find_var
find_step pl st sizeof i fuel off header m h e k small l =
    rw
      (
        lt→ltb off st.m_allocd_bytes h,
        le→leb (add_w 32 offset pl.sizeof_meta) st.m_allocd_bytes (
            omega (arith, add_back offset header pl.sizeof_meta back (omega (arith, k, small)), k)),
        back,
        l,
        find_var,
      )
      refl
  where
    offset : ℕ
    offset = sub_w 32 (var_chunk_end pl pl.alignof_meta off pl.sizeof_meta) pl.sizeof_meta

    back : offset ≡ header
    back = sub_back 32 _ header pl.sizeof_meta e (omega (arith, k, small))

find_var-found :
    (pl : Place) (st : Storage) (sizeof i fuel off : ℕ) (vars : List (ℕ × ℕ))
    → IsPlace pl pl.alignof_meta
    → 0 < pl.sizeof_meta
    → pl.sizeof_meta < 2 ^ 30
    → st.m_allocd_bytes ≤ total_shared_bytes
    → Chain pl st.headers st.m_allocd_bytes off vars
    → length vars < fuel
    → find_var pl sizeof i st fuel off ≡ some (found sizeof i vars)
unfolding find_var found
find_var-found pl st sizeof i zero off vars h p q t c f = absurd (omega arith)
find_var-found pl st sizeof i (suc fuel) off [] h p q t c f =
    find_none pl st sizeof i fuel off (omega (arith, c))
find_var-found pl st sizeof i (suc fuel) off ((j, var_end) ∷ vars) h p q t c f =
    find_step pl st sizeof i fuel off (header_of pl off) (record { id = j; offset = var_end })
      (omega (arith, c.0, c.1, bounds))
      (var_chunk_end_exact pl pl.alignof_meta off pl.sizeof_meta h (omega (arith, c.0, c.1, bounds))
        q)
      (omega (arith, c.0, c.1)) (omega (arith, t)) c.2
    ∙ elim (Bool-cases (j == i)) [
      | inl same ↦ rw (same, found) refl
      | inr other ↦
          rw (other, found)
            (find_var-found pl st sizeof i fuel var_end vars h p q t c.3 (omega (arith, f)))
    ]
  where
    bounds : off ≤ header_of pl off
    bounds = (chunk_begin-bounds pl pl.alignof_meta off h).0

-- In a storage that holds variables, `getVarPtr` finds the variable of an id, `sizeof` bytes before its
-- end, or gives the null pointer where no variable has the id. The fuel is above their number.
pub get_var_ptr-found :
    (pl : Place) (st : Storage) (vars : List (ℕ × ℕ)) (sizeof i fuel : ℕ)
    → IsStorage pl st vars
    → length vars < fuel
    → get_var_ptr pl fuel sizeof i st ≡ some (found sizeof i vars)
unfolding get_var_ptr
get_var_ptr-found pl st vars sizeof i fuel h f =
    find_var-found pl st sizeof i fuel 0 vars h.meta_place h.has_meta h.meta_small h.in_total
      h.chain f

lookup-first : (p : ℕ) (m : MetaData) (hs : List (ℕ × MetaData)) → lookup ((p, m) ∷ hs) p ≡ some m
unfolding lookup
lookup-first p m hs = rw (==_refl p, lookup) refl

lookup-later :
    (p q : ℕ) (m : MetaData) (hs : List (ℕ × MetaData))
    → q < p
    → lookup ((p, m) ∷ hs) q ≡ lookup hs q
unfolding lookup
lookup-later p q m hs h = rw (lt→==_false, lookup) refl
  where
    lt→==_false : (p == q) ≡ false
    lt→==_false = ground (arith, h)

-- A header behind the end of the chain, with the variable behind it, makes the chain longer.
pub Chain-extended :
    (pl : Place) (headers : List (ℕ × MetaData)) (e off i var_end : ℕ) (vars : List (ℕ × ℕ))
    → IsPlace pl pl.alignof_meta
    → 0 < pl.sizeof_meta
    → header_of pl e + pl.sizeof_meta ≤ var_end
    → Chain pl headers e off vars
    → Chain pl
        ((header_of pl e, record { id = i; offset = var_end }) ∷ headers)
        var_end
        off
        (vars ++ ((i, var_end) ∷ []))
Chain-extended pl headers e off i var_end [] h p k c =
    subst
      (λ o.
        Chain pl ((header_of pl e, record { id = i; offset = var_end }) ∷ headers) var_end o
          ((i, var_end) ∷ []))
      (sym c)
      (
        k,
        omega arith,
        lookup-first (header_of pl e) (record { id = i; offset = var_end }) headers,
        refl,
      )
Chain-extended pl headers e off i var_end ((j, end_j) ∷ vars) h p k c = (
  c.0,
  omega (arith, c.1, k, (chunk_begin-bounds pl pl.alignof_meta e h).0),
  lookup-later (header_of pl e) (header_of pl off) (record { id = i; offset = var_end }) headers
        (omega (arith, c.0, c.1, p, (chunk_begin-bounds pl pl.alignof_meta e h).0))
      ∙ c.2,
  Chain-extended pl headers e end_j i var_end vars h p k c.3,
)
