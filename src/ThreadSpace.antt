-- ===== src/ThreadSpace.antt =====
-- include/alpaka/mem/ThreadSpace.hpp and the CVec filter of include/alpaka/CVec.hpp: the index of a
-- worker within its group, and its mapping to a selection of the dimensions.
use alpaka.Base.{
  ℕ, zero, suc, ◌+◌, List, [], ◌∷◌, Bool, false, ◌||◌, ◌==◌, leb, if◌then◌else◌, length, get_or,
  set, add_w, mul_w,
}
use alpaka.Vec.{Vec}

pub record ThreadSpace : Type 0 where
  pub m_thread_idx : Vec
  pub m_thread_count : Vec

-- `iotaCVec<T, n>()`, here from a first value.
unfoldable pub iota_from : ℕ → ℕ → List ℕ
iota_from start zero = []
iota_from start (suc n) = start ∷ iota_from (start + 1) n

unfoldable pub iota : ℕ → List ℕ
unfolding iota_from
iota n = iota_from 0 n

unfoldable pub contains : List ℕ → ℕ → Bool
contains [] value = false
contains (x ∷ xs) value = (value == x) || contains xs value

-- `filter(left, right)`: the values of left that right lacks, in their order.
unfoldable pub filter_out : List ℕ → List ℕ → List ℕ
unfolding contains
filter_out [] right = []
filter_out (v ∷ left) right =
    if contains right v then filter_out left right else v ∷ filter_out left right

-- The first loop of `mapTo`, over the dimensions that are not selected; `slow` is `T_CSelect{}[0]`.
unfoldable pub map_thread_idx : ℕ → ℕ → Vec → List ℕ → Vec → Vec
map_thread_idx w slow num_threads [] thread_idx = thread_idx
map_thread_idx w slow num_threads (d ∷ ds) thread_idx =
    let old = get_or thread_idx d 0 in
    let cleared = set thread_idx d 0 in
    map_thread_idx w slow num_threads ds
      (set cleared slow (add_w w (get_or cleared slow 0) (mul_w w old (get_or num_threads slow 0))))

-- The second loop.
unfoldable pub map_num_threads : ℕ → ℕ → List ℕ → Vec → Vec
map_num_threads w slow [] num_threads = num_threads
map_num_threads w slow (d ∷ ds) num_threads =
    let old = get_or num_threads d 0 in
    let cleared = set num_threads d 1 in
    map_num_threads w slow ds (set cleared slow (mul_w w (get_or cleared slow 0) old))

-- `mapTo(selection)`: the first overload where all dimensions are selected, else the second.
unfoldable pub map_to : ℕ → List ℕ → ThreadSpace → ThreadSpace
unfolding iota filter_out map_thread_idx map_num_threads
map_to w c_select ts =
    let dim = length ts.m_thread_idx in
    let not_selected = filter_out (iota dim) c_select in
    let slow = get_or c_select 0 0 in
    if leb dim (length c_select) then ts else record {
      m_thread_idx = map_thread_idx w slow ts.m_thread_count not_selected ts.m_thread_idx;
      m_thread_count = map_num_threads w slow not_selected ts.m_thread_count;
    }
