-- ===== src/Shared.antt =====
-- include/alpaka/api/host/block/mem/SharedStorage.hpp and SingleThreadStaticShared.hpp: the variables
-- in shared memory of a block on the host, found again by their ids.
pub mod Chunk
pub mod Chain
pub mod Alloc
pub mod Again
mod Examples
use alpaka.Base.{
  ℕ, zero, suc, ◌+◌, ◌-◌, ◌*◌, ◌/◌, ◌^◌, max, Bool, true, false, ◌==◌, leb, ltb, List, [], ◌∷◌,
  Option, none, some, if◌then◌else◌, wrap, add_w, sub_w, mul_w,
}

-- `m_data` as the address of its first byte, with the size and the alignment of a header and the least
-- alignment of data. These depend on the compiler and on the place where the storage is put.
pub record Place : Type 0 where
  pub m_data : ℕ
  pub min_data_align_bytes : ℕ
  pub sizeof_meta : ℕ
  pub alignof_meta : ℕ

pub record MetaData : Type 0 where
  pub id : ℕ
  pub offset : ℕ

-- The headers in `m_data`, each with its offset, the last one written first.
pub record Storage : Type 0 where
  pub headers : List (ℕ × MetaData)
  pub m_allocd_bytes : ℕ

abbrev pub empty : Storage
empty = record { headers = []; m_allocd_bytes = 0 }

-- `ALPAKA_BLOCK_SHARED_DYN_MEMBER_ALLOC_KIB << 10u` with the macro's default.
abbrev pub total_shared_bytes : ℕ
total_shared_bytes = 65536

unfoldable pub lookup : List (ℕ × MetaData) → ℕ → Option MetaData
lookup [] p = none
lookup ((q, m) ∷ hs) p = elim (q == p) [ true ↦ some m | false ↦ lookup hs p ]

-- `varChunkEnd<T>(byteOffset, numBytes)`: addresses have 64 bits, offsets 32.
unfoldable pub var_chunk_end : Place → ℕ → ℕ → ℕ → ℕ
var_chunk_end pl alignof byte_offset num_bytes =
    let ptr = add_w 64 pl.m_data byte_offset in
    let align = max pl.min_data_align_bytes alignof in
    let new_ptr_adress =
      add_w 64 (mul_w 64 (sub_w 64 (add_w 64 ptr align) 1 / align) align) num_bytes in
    wrap 32 (sub_w 64 new_ptr_adress pl.m_data)

-- The two assertions of an allocation, which give `none` where they fail, and what it stores.
unfoldable pub place_var : ℕ → ℕ → ℕ → ℕ → Storage → Option Storage
place_var sizeof_meta id meta_end var_end st = elim (leb meta_end total_shared_bytes) [
  | false ↦ none
  | true ↦ elim (leb var_end total_shared_bytes) [
    | false ↦ none
    | true ↦ some (record {
      headers = (sub_w 64 meta_end sizeof_meta, record { id = id; offset = var_end }) ∷ st.headers;
      m_allocd_bytes = var_end;
    })
  ]
]

-- `alloc<T>(id)` and `allocDynamic<T>(id, numBytes)`: the first is the second with `sizeof(T)` bytes.
unfoldable pub alloc_dynamic : Place → ℕ → ℕ → ℕ → Storage → Option Storage
unfolding var_chunk_end place_var
alloc_dynamic pl alignof id num_bytes st =
    let meta_end = var_chunk_end pl pl.alignof_meta st.m_allocd_bytes pl.sizeof_meta in
    place_var pl.sizeof_meta id meta_end (var_chunk_end pl alignof meta_end num_bytes) st

unfoldable pub alloc : Place → ℕ → ℕ → ℕ → Storage → Option Storage
unfolding alloc_dynamic
alloc pl sizeof alignof id st = alloc_dynamic pl alignof id sizeof st

-- `getLatestVarPtr<T>()`: the offset of the variable.
unfoldable pub get_latest_var_ptr : ℕ → Storage → ℕ
get_latest_var_ptr sizeof st = sub_w 64 st.m_allocd_bytes sizeof

-- The loop of `getVarPtr<T>(id)` from an offset on: the variable's offset, or `none` for the null
-- pointer. The outer `none` is a failing assertion, a header that nobody wrote, or the end of the fuel.
unfoldable pub find_var : Place → ℕ → ℕ → Storage → ℕ → ℕ → Option (Option ℕ)
unfolding var_chunk_end lookup
find_var pl sizeof id st zero off = none
find_var pl sizeof id st (suc fuel) off =
    let aligned_meta_data_offset =
      sub_w 32 (var_chunk_end pl pl.alignof_meta off pl.sizeof_meta) pl.sizeof_meta in
    elim (ltb off st.m_allocd_bytes) [
      | false ↦ some none
      | true ↦ elim (leb (add_w 32 aligned_meta_data_offset pl.sizeof_meta) st.m_allocd_bytes) [
        | false ↦ none
        | true ↦ elim (lookup st.headers aligned_meta_data_offset) [
          | none ↦ none
          | some m ↦ elim (m.id == id) [
            | true ↦ some (some (sub_w 64 m.offset sizeof))
            | false ↦ find_var pl sizeof id st fuel m.offset
          ]
        ]
      ]
    ]

unfoldable pub get_var_ptr : Place → ℕ → ℕ → ℕ → Storage → Option (Option ℕ)
unfolding find_var
get_var_ptr pl fuel sizeof id st = find_var pl sizeof id st fuel 0

-- `allocVar<T, id>()`: the storage afterwards, and the variable's offset.
unfoldable pub alloc_var : Place → ℕ → ℕ → ℕ → ℕ → Storage → Option (Storage × ℕ)
unfolding get_var_ptr alloc get_latest_var_ptr
alloc_var pl fuel sizeof alignof id st = elim (get_var_ptr pl fuel sizeof id st) [
  | none ↦ none
  | some (some p) ↦ some (st, p)
  | some none ↦ elim (alloc pl sizeof alignof id st) [
    | none ↦ none
    | some next ↦ some (next, get_latest_var_ptr sizeof next)
  ]
]

-- `allocDynamic<T, id>(numBytes)`.
unfoldable pub alloc_dynamic_var : Place → ℕ → ℕ → ℕ → ℕ → ℕ → Storage → Option (Storage × ℕ)
unfolding get_var_ptr alloc_dynamic get_latest_var_ptr
alloc_dynamic_var pl fuel sizeof alignof id num_bytes st = elim (get_var_ptr pl fuel sizeof id st) [
  | none ↦ none
  | some (some p) ↦ some (st, p)
  | some none ↦ elim (alloc_dynamic pl alignof id num_bytes st) [
    | none ↦ none
    | some next ↦ some (next, get_latest_var_ptr sizeof next)
  ]
]
