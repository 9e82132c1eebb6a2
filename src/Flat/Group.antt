-- ===== src/Flat/Group.antt =====
-- A worker group seen by a container that selects all dimensions: the worker's linear number and the
-- number of workers.
use alpaka.Base.{
  ℕ, suc, ◌^◌, ◌≤◌, ◌<◌, ◌≡◌, refl, sym, ap, ap₂, ◌∙◌, List, [], ◌∷◌, arith, length, wrap_small,
}
use alpaka.Vec.{Vec, select, product, linearize}
use alpaka.Vec.Linear.{
  InBounds, volume, row_major, row_major-lt, linearize-row_major, product-wrap, volume_pos,
}
use alpaka.ThreadSpace.{ThreadSpace, iota, map_to}
use alpaka.Flat.Select.{select-iota, map_to-iota}

pub InBounds-length : (es is : Vec) → InBounds es is → length es ≡ length is
InBounds-length [] [] h = refl
InBounds-length [] (i ∷ is) h = absurd h
InBounds-length (e ∷ es) [] h = absurd h
InBounds-length (e ∷ es) (i ∷ is) h = ap suc (InBounds-length es is h.1)

-- A worker index in bounds, with a group whose size is below 2 ^ w.
pub record IsWorker (w : ℕ) (ts : ThreadSpace) : Type 0 where
  pub nonempty : 0 < length ts.m_thread_idx
  pub bounded : InBounds ts.m_thread_count ts.m_thread_idx
  pub few : volume ts.m_thread_count < 2 ^ w

abbrev pub worker_number : ThreadSpace → ℕ
worker_number ts = row_major ts.m_thread_count ts.m_thread_idx

abbrev pub num_workers : ThreadSpace → ℕ
num_workers ts = volume ts.m_thread_count

pub worker_number-lt :
    (w : ℕ) (ts : ThreadSpace) → IsWorker w ts → worker_number ts < num_workers ts
worker_number-lt w ts h = row_major-lt ts.m_thread_count ts.m_thread_idx h.bounded

extent-le-volume : (e : ℕ) (es is : Vec) → InBounds es is → e ≤ volume (e ∷ es)
unfolding volume
extent-le-volume e es is h = grind (arith, volume_pos es is h)

pub product-volume :
    (w : ℕ) (es is : Vec)
    → 0 < length is
    → InBounds es is
    → volume es < 2 ^ w
    → product w es ≡ volume es
product-volume w [] [] p h few = absurd (omega arith)
product-volume w [] (i ∷ is) p h few = absurd h
product-volume w (e ∷ es) [] p h few = absurd h
product-volume w (e ∷ es) (i ∷ is) p h few =
    product-wrap w e es (omega (arith, extent-le-volume e es is h.1)) ∙ wrap_small w few

linearize_number :
    (w : ℕ) (es is : Vec)
    → 0 < length is
    → InBounds es is
    → volume es < 2 ^ w
    → linearize w es is ≡ row_major es is
linearize_number w [] [] p h few = absurd (omega arith)
linearize_number w [] (i ∷ is) p h few = absurd h
linearize_number w (e ∷ es) [] p h few = absurd h
linearize_number w (e ∷ es) (i ∷ is) p h few = linearize-row_major w e i es is h (omega arith)

module _ (w : ℕ) (ts : ThreadSpace) (h : IsWorker w ts) (sel : List ℕ)
    (all : sel ≡ iota (length ts.m_thread_idx)) where
  map_to_all : map_to w sel ts ≡ ts
  map_to_all = ap (λ s. map_to w s ts) all ∙ map_to-iota w ts

  select_idx : select ts.m_thread_idx sel ≡ ts.m_thread_idx
  select_idx = ap (select ts.m_thread_idx) all ∙ select-iota ts.m_thread_idx

  select_count : select ts.m_thread_count sel ≡ ts.m_thread_count
  select_count =
      ap (select ts.m_thread_count)
        (all ∙ ap iota (sym (InBounds-length ts.m_thread_count ts.m_thread_idx h.bounded)))
      ∙ select-iota ts.m_thread_count

  pub linearize_worker :
      linearize w
        (select (map_to w sel ts).m_thread_count sel)
        (select (map_to w sel ts).m_thread_idx sel)
      ≡ worker_number ts
  linearize_worker =
      ap (λ t. linearize w (select t.m_thread_count sel) (select t.m_thread_idx sel)) map_to_all
      ∙ ap₂ (linearize w) select_count select_idx
      ∙ linearize_number w ts.m_thread_count ts.m_thread_idx h.nonempty h.bounded h.few

  pub product_workers : product w (select (map_to w sel ts).m_thread_count sel) ≡ num_workers ts
  product_workers =
      ap (λ t. product w (select t.m_thread_count sel)) map_to_all
      ∙ ap (product w) select_count
      ∙ product-volume w ts.m_thread_count ts.m_thread_idx h.nonempty h.bounded h.few

  -- The same with the counts as they were given, as `begin` of the contiguous layout takes them.
  pub linearize_given :
      linearize w (select ts.m_thread_count sel) (select (map_to w sel ts).m_thread_idx sel)
      ≡ worker_number ts
  linearize_given =
      ap (λ t. linearize w (select ts.m_thread_count sel) (select t.m_thread_idx sel)) map_to_all
      ∙ ap₂ (linearize w) select_count select_idx
      ∙ linearize_number w ts.m_thread_count ts.m_thread_idx h.nonempty h.bounded h.few

  pub product_given : product w (select ts.m_thread_count sel) ≡ num_workers ts
  product_given =
      ap (product w) select_count
      ∙ product-volume w ts.m_thread_count ts.m_thread_idx h.nonempty h.bounded h.few
