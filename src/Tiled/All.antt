-- ===== src/Tiled/All.antt =====
-- TiledIdxContainer.hpp: the selection of all dimensions, and the dimensions of what begin() computes.
use alpaka.Base.{
  ℕ, zero, suc, ◌+◌, ◌<◌, ◌≤◌, ◌≡◌, refl, sym, ap, ap₂, ◌∙◌, List, [], ◌∷◌, map, arith, length,
  length-map, length-replicate, get_or, wrap,
}
use native.Mathlib.Nat.{add_comm}
use alpaka.Vec.{
  Vec, select, vec_add, vec_sub, vec_mul, vec_div, vec_mod, vec_min, div_ceil, zip_with, fill,
}
use alpaka.Vec.RoundTrip.{unrank}
use alpaka.IdxRange.{distance}
use alpaka.ThreadSpace.{iota, iota_from}
use alpaka.Flat.Select.{select-iota, length-iota}
use alpaka.Tiled.{logical_extent, slot_offset, slot_end}
use alpaka.Tiled.Store.{Apart, IsSelection, write, get_or-write, length-write}
use alpaka.Tiled.Dims.{Dim, counts, place}
use alpaka.Tiled.Tile.{Share}
use alpaka.Tiled.Group.{range, group, worker}

iota-Apart : (d s n : ℕ) → d < s → Apart d (iota_from s n)
unfolding iota_from
iota-Apart d s zero h = tt
iota-Apart d s (suc n) h = (λ e. omega (arith, e), iota-Apart d (s + 1) n (omega arith))

pub iota_from-IsSelection : (e s n : ℕ) → s + n ≤ e → IsSelection e (iota_from s n)
unfolding iota_from
iota_from-IsSelection e s zero h = tt
iota_from-IsSelection e s (suc n) h = (
  omega arith,
  iota-Apart s (s + 1) n (omega arith),
  iota_from-IsSelection e (s + 1) n (omega arith),
)

select-ext :
    (v : Vec) (ds : List ℕ) (cs : Vec)
    → length ds ≡ length cs
    → ((i : ℕ) → i < length ds → get_or v (get_or ds i 0) 0 ≡ get_or cs i 0)
    → select v ds ≡ cs
unfolding select
select-ext v [] [] e h = refl
select-ext v [] (c ∷ cs) e h = absurd (omega arith)
select-ext v (d ∷ ds) [] e h = absurd (omega arith)
select-ext v (d ∷ ds) (c ∷ cs) e h =
    ap₂ ◌∷◌ (h 0 (omega arith)) (select-ext v ds cs (omega arith) (λ i q. h (suc i) (omega arith)))

-- Writing all components leaves nothing of the base.
pub write-iota : (base cs : Vec) → length base ≡ length cs → write base (iota (length base)) cs ≡ cs
write-iota base cs e =
    sym (select-iota (write base (iota (length base)) cs))
    ∙ ap (λ n. select (write base (iota (length base)) cs) (iota n))
        (length-write base (iota (length base)) cs)
    ∙ select-ext (write base (iota (length base)) cs) (iota (length base)) cs
        (length-iota (length base) ∙ e)
        (λ i q.
          get_or-write base (iota (length base)) cs i
            (unfold iota in iota_from-IsSelection (length base) 0 (length base) (omega arith))
            (length-iota (length base) ∙ e) q)

pub length-place : (ds : List Dim) (i : ℕ) → length (place ds (unrank (counts ds) i)) ≡ length ds
unfolding place unrank
length-place [] i = refl
length-place (d ∷ ds) i = ap suc (length-place ds _)

pub vec_add_comm : (w : ℕ) (a b : Vec) → vec_add w a b ≡ vec_add w b a
unfolding vec_add zip_with
vec_add_comm w [] [] = refl
vec_add_comm w [] (y ∷ b) = refl
vec_add_comm w (x ∷ a) [] = refl
vec_add_comm w (x ∷ a) (y ∷ b) = ap₂ ◌∷◌ (ap (wrap w) (add_comm x y)) (vec_add_comm w a b)

pub map-ext : (f g : ℕ → Vec) → ((i : ℕ) → f i ≡ g i) → (is : List ℕ) → map f is ≡ map g is
map-ext f g h [] = refl
map-ext f g h (i ∷ is) = ap₂ ◌∷◌ (h i) (map-ext f g h is)

length-zip_with :
    (op : ℕ → ℕ → ℕ) (n : ℕ) (a b : Vec)
    → length a ≡ n
    → length b ≡ n
    → length (zip_with op a b) ≡ n
unfolding zip_with
length-zip_with op n [] b p q = p
length-zip_with op n (x ∷ a) [] p q = q
length-zip_with op zero (x ∷ a) (y ∷ b) p q = absurd (omega arith)
length-zip_with op (suc n) (x ∷ a) (y ∷ b) p q =
    ap suc (length-zip_with op n a b (omega arith) (omega arith))

module _ (w : ℕ) (hs : List Share) where
  abbrev n : ℕ
  n = length hs

  long_begin : length (range hs).m_begin ≡ n
  long_begin = length-map hs (λ h. h.begin)

  long_end : length (range hs).m_end ≡ n
  long_end = length-map hs (λ h. h.end)

  long_stride : length (range hs).m_stride ≡ n
  long_stride = length-map hs (λ h. h.stride)

  pub long_group : length (group hs) ≡ n
  long_group = length-map hs (λ h. h.threads)

  pub long_distance : length (distance w (range hs)) ≡ n
  unfolding distance vec_sub
  long_distance = length-zip_with _ n _ _ long_end long_begin

  long_extent : length (logical_extent w (range hs)) ≡ n
  unfolding logical_extent div_ceil vec_div vec_sub vec_add fill
  long_extent =
      length-zip_with _ n _ _
        (length-zip_with _ n _ _ (length-zip_with _ n _ _ long_distance long_stride)
          (length-replicate (length (distance w (range hs))) 1 ∙ long_distance))
        long_stride

  pub long_offset : (ts : Vec) → length ts ≡ n → length (slot_offset w (range hs) (group hs) ts) ≡ n
  unfolding slot_offset vec_add vec_mul vec_div vec_mod vec_min
  long_offset ts p =
      length-zip_with _ n _ _
        (length-zip_with _ n _ _
          (length-zip_with _ n _ _ p (length-zip_with _ n _ _ long_extent long_group))
          (length-zip_with _ n _ _ p (length-zip_with _ n _ _ long_extent long_group)))
        long_stride

  pub long_first : (ts : Vec) → length ts ≡ n → length (vec_mul w ts (range hs).m_stride) ≡ n
  unfolding vec_mul
  long_first ts p = length-zip_with _ n ts _ p long_stride

  pub long_slot_end : (ts : Vec) → length ts ≡ n → length (slot_end w (range hs) (worker hs ts)) ≡ n
  unfolding slot_end vec_min vec_add fill
  long_slot_end ts p =
      length-zip_with _ n _ _ long_distance
        (long_offset _ (length-zip_with _ n _ _ p (length-replicate (length ts) 1 ∙ p)))
