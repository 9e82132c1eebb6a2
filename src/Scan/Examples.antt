-- ===== src/Scan/Examples.antt =====
-- Concrete inputs for the theorems on include/alpaka/onHost/algo/internal/scan.hpp.
use alpaka.Base.{ℕ, ◌≡◌, refl, arith, List, [], ◌∷◌, none, some, wrap}
use alpaka.Scan.{Launch, scan_blocks, add_increments_kernel, scan_buffer_size, scan}
use alpaka.Scan.Buffer.{scan-scan_buffer_size}
use alpaka.Scan.Need.{AllInside}

scan-scan_buffer_size_example :
    (bytes : ℕ) × (launches : List Launch) × (scan_buffer_size 32 10001 4 10000 ≡ some bytes)
    × (scan 32 10001 4 0 bytes 10000 ≡ some launches)
    × AllInside 4 0 bytes launches
scan-scan_buffer_size_example = scan-scan_buffer_size 32 4 10000 (omega arith) (omega arith)

-- Five chunks, whose sums take 20 bytes.
two_levels :
    scan 32 4 4 0 20 10000
    ≡ some
        (scan_blocks 10000 5 (some 0) ∷ scan_blocks 5 1 none ∷ add_increments_kernel 10000 0 ∷ [])
unfolding scan wrap
two_levels = refl
