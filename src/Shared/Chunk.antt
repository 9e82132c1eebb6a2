-- ===== src/Shared/Chunk.antt =====
-- SharedStorage.hpp, varChunkEnd: where a chunk begins and ends.
use native.Mathlib.Nat.{mul-mod_left, div-add-mod, mod-lt}
use alpaka.Base.{
  ℕ, ◌+◌, ◌-◌, ◌*◌, ◌/◌, ◌%◌, ◌^◌, ◌<◌, ◌≤◌, ◌≡◌, max, ap, ◌∙◌, arith, wrap, add_w, sub_w, mul_w,
}
use alpaka.Shared.{Place, var_chunk_end}

-- The alignment of a chunk.
abbrev pub align_of : Place → ℕ → ℕ
align_of pl alignof = max pl.min_data_align_bytes alignof

-- The first offset from a given one on at an aligned address, in unbounded arithmetic.
unfoldable pub chunk_begin : Place → ℕ → ℕ → ℕ
chunk_begin pl alignof off =
    (pl.m_data + off + align_of pl alignof - 1) / align_of pl alignof * align_of pl alignof
    - pl.m_data

-- The storage lies below 2 ^ 62, chunks and alignments are below 2 ^ 30.
pub record IsPlace (pl : Place) (alignof : ℕ) : Type 0 where
  pub low : pl.m_data < 2 ^ 62
  pub aligns : 0 < align_of pl alignof
  pub small : align_of pl alignof < 2 ^ 30

pub chunk_begin-bounds :
    (pl : Place) (alignof off : ℕ)
    → IsPlace pl alignof
    → (off ≤ chunk_begin pl alignof off)
      × (chunk_begin pl alignof off < off + align_of pl alignof)
      × ((pl.m_data + chunk_begin pl alignof off) % align_of pl alignof ≡ 0)
unfolding chunk_begin
chunk_begin-bounds pl alignof off h = (
  omega (arith, split, rest),
  omega (arith, split, rest),
  ap (λ t. t % align_of pl alignof) {y = x / align_of pl alignof * align_of pl alignof}
        (omega (arith, split, rest))
      ∙ mul-mod_left (x / align_of pl alignof) (align_of pl alignof),
)
  where
    open h use {aligns}

    x : ℕ
    x = pl.m_data + off + align_of pl alignof - 1

    split : align_of pl alignof * (x / align_of pl alignof) + x % align_of pl alignof ≡ x
    split = div-add-mod x (align_of pl alignof)

    rest : x % align_of pl alignof < align_of pl alignof
    rest = mod-lt x aligns

inner_exact :
    (d off a : ℕ)
    → d < 2 ^ 62
    → off < 2 ^ 30
    → 0 < a
    → a < 2 ^ 30
    → sub_w 64 (add_w 64 (add_w 64 d off) a) 1 ≡ d + off + a - 1
unfolding wrap
inner_exact d off a h p q r = omega arith

outer_exact :
    (d y n : ℕ)
    → d ≤ y
    → y < d + 2 ^ 31
    → d < 2 ^ 62
    → n < 2 ^ 30
    → wrap 32 (sub_w 64 (add_w 64 (wrap 64 y) n) d) ≡ y - d + n
unfolding wrap
outer_exact d y n h k p q = omega arith

-- With no wrap-around the chunk ends behind its bytes.
pub var_chunk_end_exact :
    (pl : Place) (alignof off n : ℕ)
    → IsPlace pl alignof
    → off < 2 ^ 30
    → n < 2 ^ 30
    → var_chunk_end pl alignof off n ≡ chunk_begin pl alignof off + n
unfolding var_chunk_end chunk_begin
var_chunk_end_exact pl alignof off n h p q =
    ap
      (λ t. wrap 32 (
        sub_w 64 (add_w 64 (mul_w 64 (t / align_of pl alignof) (align_of pl alignof)) n) pl.m_data))
      (inner_exact pl.m_data off (align_of pl alignof) low p aligns small)
    ∙ outer_exact pl.m_data y n (omega (arith, split, rest)) (omega (arith, split, rest, small)) low
        q
  where
    open h use {low, aligns, small}

    x : ℕ
    x = pl.m_data + off + align_of pl alignof - 1

    y : ℕ
    y = x / align_of pl alignof * align_of pl alignof

    split : align_of pl alignof * (x / align_of pl alignof) + x % align_of pl alignof ≡ x
    split = div-add-mod x (align_of pl alignof)

    rest : x % align_of pl alignof < align_of pl alignof
    rest = mod-lt x aligns
