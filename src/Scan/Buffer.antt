-- ===== src/Scan/Buffer.antt =====
-- scan.hpp: the buffer of scanBufferSize is as large as the recursion of scan needs it.
use native.Mathlib.Nat.{mul-le-mul_right}
use mathlib.Core.Option
use alpaka.Base.{
  ℕ, zero, suc, ◌+◌, ◌-◌, ◌*◌, ◌^◌, ◌<◌, ◌≤◌, ◌≡◌, refl, ap, ◌∙◌, arith, List, [], ◌∷◌, ◌++◌,
  Option, none, some, lt→ltb, ltb-false, le→leb, dec_lt, subst, wrap, wrap_small, wrap-add_modulus,
  sub_w, mul_w,
}
use alpaka.Util.{div_ceil}
use alpaka.Util.Ceil.{div_ceil_exact}
use alpaka.Scan.{
  Launch, scan_blocks, add_increments_kernel, chunk_size, buffer_loop, scan_buffer_size, scan,
}
use alpaka.Scan.Need.{
  AllInside, AllInside-append, AllInside-wider, buffer_loop-needed, chunks, needed, needed_bound,
  needed_more,
}

scan_done :
    (w fuel sizeof offset buffer e : ℕ)
    → div_ceil w e chunk_size ≤ 1
    → scan w (suc fuel) sizeof offset buffer e
      ≡ some (scan_blocks e (div_ceil w e chunk_size) none ∷ [])
unfolding scan
scan_done w fuel sizeof offset buffer e h = rw (ltb-false 1 (div_ceil w e chunk_size) h, scan) refl

abbrev deeper : ℕ → ℕ → ℕ → ℕ → ℕ → ℕ → ℕ → ℕ → Option (List Launch)
deeper w fuel sizeof offset buffer e n bytes =
    Option.map
      (λ inner. scan_blocks e n (some offset) ∷ (inner ++ (add_increments_kernel e offset ∷ [])))
      (scan w fuel sizeof (offset + bytes) (sub_w w buffer bytes) n)

scan_more :
    (w fuel sizeof offset buffer e n : ℕ)
    → div_ceil w e chunk_size ≡ n
    → 1 < n
    → mul_w w n sizeof ≤ buffer
    → scan w (suc fuel) sizeof offset buffer e
      ≡ deeper w fuel sizeof offset buffer e n (mul_w w n sizeof)
unfolding scan
scan_more w fuel sizeof offset buffer e n p =
    subst
      (λ n.
        1 < n
        → mul_w w n sizeof ≤ buffer
        → scan w (suc fuel) sizeof offset buffer e
          ≡ deeper w fuel sizeof offset buffer e n (mul_w w n sizeof))
      p (λ h k. rw (lt→ltb 1 _ h, le→leb _ buffer k, scan) refl)

sub_w_small : (w a b : ℕ) → b ≤ a → a < 2 ^ w → sub_w w a b ≡ a - b
sub_w_small w a b h fits =
    ap (wrap w) {y = (a - b) + 2 ^ w} (omega arith)
    ∙ wrap-add_modulus w (a - b)
    ∙ wrap_small w (omega arith)

-- What the launches of a scan use of the buffer.
abbrev Fitting : ℕ → ℕ → ℕ → Option (List Launch) → Type 0
Fitting sizeof offset buffer result =
    (launches : List Launch) × (result ≡ some launches)
    × AllInside sizeof offset (offset + buffer) launches

scan-Fitting :
    (w fuel sizeof offset buffer e : ℕ)
    → e < fuel
    → e + 2048 ≤ 2 ^ w
    → needed fuel e * sizeof ≤ buffer
    → buffer < 2 ^ w
    → Fitting sizeof offset buffer (scan w fuel sizeof offset buffer e)
scan-Fitting w zero sizeof offset buffer e less fits enough small = absurd (omega arith)
scan-Fitting w (suc fuel) sizeof offset buffer e less fits enough small =
    elim (dec_lt 1 (chunks e)) [
      | yes more ↦
          let room : chunks e * sizeof + needed fuel (chunks e) * sizeof ≤ buffer =
            omega (arith, enough, ap (λ (n : ℕ). n * sizeof) (needed_more fuel e more)) in
          let bytes : mul_w w (chunks e) sizeof ≡ chunks e * sizeof =
            wrap_small w {n = chunks e * sizeof} (omega (arith, room, small)) in
          let (inner, found, inside) =
            scan-Fitting w fuel sizeof (offset + chunks e * sizeof) (buffer - chunks e * sizeof)
              (chunks e) (omega arith) (omega arith) (omega (arith, room)) (omega (arith, small)) in
          (
            scan_blocks e (chunks e) (some offset)
                ∷ (inner ++ (add_increments_kernel e offset ∷ [])),
            scan_more w fuel sizeof offset buffer e (chunks e) exact more
                  (omega (arith, room, bytes))
                ∙ ap (deeper w fuel sizeof offset buffer e (chunks e)) bytes
                ∙ ap
                    (λ b.
                      Option.map
                        (λ inner.
                          scan_blocks e (chunks e) (some offset)
                          ∷ (inner ++ (add_increments_kernel e offset ∷ [])))
                        (scan w fuel sizeof (offset + chunks e * sizeof) b (chunks e)))
                    (sub_w_small w buffer (chunks e * sizeof) (omega (arith, room)) small)
                ∙ ap
                    (Option.map (λ inner.
                      scan_blocks e (chunks e) (some offset)
                      ∷ (inner ++ (add_increments_kernel e offset ∷ []))))
                    found,
            (
              (omega arith, omega (arith, room)),
              AllInside-append sizeof offset (offset + buffer) inner
                  (add_increments_kernel e offset ∷ [])
                  (AllInside-wider sizeof (offset + chunks e * sizeof)
                    (offset + chunks e * sizeof + (buffer - chunks e * sizeof)) offset
                    (offset + buffer) inner (omega arith) (omega (arith, room)) inside)
                  ((omega arith, omega (arith, room)), tt),
            ),
          )
      | no done ↦ (
        scan_blocks e (div_ceil w e chunk_size) none ∷ [],
        scan_done w fuel sizeof offset buffer e (omega (arith, exact)),
        (tt, tt),
      )
    ]
  where
    exact : div_ceil w e chunk_size ≡ chunks e
    exact = div_ceil_exact w e 2048 (omega arith) fits

-- For an extent that with one more chunk fits w bits, and elements that together fit
-- w bits, with fuel for extent + 1 rounds: scanBufferSize ends, and a scan with a buffer of that
-- size ends, none of its assertions fails at any level of the recursion, and the increments of all its
-- launches lie inside the buffer.
pub scan-scan_buffer_size :
    (w sizeof extent : ℕ)
    → extent + 2048 ≤ 2 ^ w
    → extent * sizeof < 2 ^ w
    → (bytes : ℕ) × (launches : List Launch) × (scan_buffer_size w (suc extent) sizeof extent
        ≡ some bytes)
      × (scan w (suc extent) sizeof 0 bytes extent ≡ some launches)
      × AllInside sizeof 0 bytes launches
unfolding scan_buffer_size
scan-scan_buffer_size w sizeof extent fits small =
    let (launches, found, inside) =
      scan-Fitting w (suc extent) sizeof 0 bytes extent (omega arith) fits (omega arith) bounded in
    (
      bytes,
      launches,
      ap (λ n. Option.map (λ (size : ℕ). mul_w w size sizeof) (buffer_loop w (suc extent) n 0))
            (div_ceil_exact w extent 2048 (omega arith) fits)
          ∙ ap (Option.map (λ (size : ℕ). mul_w w size sizeof))
              (buffer_loop-needed w (suc extent) extent 0 (omega arith) fits (omega (arith, few)))
          ∙ ap (λ (n : ℕ). some (mul_w w n sizeof)) {y = needed (suc extent) extent} (omega arith)
          ∙ ap some (wrap_small w bounded),
      found,
      AllInside-wider sizeof 0 (0 + bytes) 0 bytes launches (omega arith) (omega arith) inside,
    )
  where
    bytes : ℕ
    bytes = needed (suc extent) extent * sizeof

    few : needed (suc extent) extent ≤ extent
    few = needed_bound (suc extent) extent

    bounded : bytes < 2 ^ w
    bounded =
        omega
          (arith, small, mul-le-mul_right {m = needed (suc extent) extent} {n = extent} sizeof few)
