-- ===== src/Segments.antt =====
-- The lists of (offset, size) pairs of a request, and the loops that copy between the places that
-- they name in a region and a contiguous buffer: `convertToSegments`, the `accumulate` calls, and
-- the `memcpy` loops of MemoryBackend.cpp (PmemBackend.cpp repeats them).
pub mod Scatter
pub mod Copy
pub mod Plain
pub mod Commute
use mochi_warabi.Prelude.{ℕ, ◌+◌, ◌≤◌, ◌≡◌, ◌⊎◌, List, [], ◌∷◌, ◌==◌, if◌then◌else◌, foldl, wrap}
use mochi_warabi.Run.{Run, done, ◌>>=◌}
use mochi_warabi.Bytes.{Bytes, load, store}

-- A place in a region, by its offset and its size.
abbrev pub Segment : Type 0
Segment = ℕ × ℕ

-- The places of size 0 are left out. A pointer into the region is its offset there.
unfoldable pub convert_to_segments : List Segment → List Segment
convert_to_segments [] = []
convert_to_segments ((o, n) ∷ ss) =
    let rest = convert_to_segments ss in if n == 0 then rest else (o, n) ∷ rest

-- `std::accumulate` of the sizes, in a `size_t`.
unfoldable pub accumulate : ℕ → List Segment → ℕ
accumulate acc [] = acc
accumulate acc ((o, n) ∷ ss) = accumulate (wrap (acc + n)) ss

unfoldable pub total_size : List Segment → ℕ
unfolding accumulate
total_size ss = accumulate 0 ss

-- The loop of `write`: from `ptr + offset` into each segment in turn.
unfoldable pub copy_in : List Segment → Bytes → ℕ → Bytes → Run Bytes
copy_in [] ptr offset region = done region
copy_in ((o, n) ∷ ss) ptr offset region = do
  chunk ← load ptr offset n
  region' ← store region o chunk
  copy_in ss ptr (wrap (offset + n)) region'

-- The loop of `read`: from each segment in turn to `ptr + offset`.
unfoldable pub copy_out : List Segment → Bytes → ℕ → Bytes → Run Bytes
copy_out [] region offset ptr = done ptr
copy_out ((o, n) ∷ ss) region offset ptr = do
  chunk ← load region o n
  ptr' ← store ptr offset chunk
  copy_out ss region (wrap (offset + n)) ptr'

-- The places of a region that starts at `p`, in what holds the region.
unfoldable pub shift : ℕ → List Segment → List Segment
shift p [] = []
shift p ((o, n) ∷ ss) = (p + o, n) ∷ shift p ss

-- The true sum of the sizes.
abbrev pub sum : List Segment → ℕ
sum [] = 0
sum ((o, n) ∷ ss) = n + sum ss

-- Every place lies in a region of `len` bytes.
abbrev pub InBounds : ℕ → List Segment → Type 0
InBounds len [] = Unit {0}
InBounds len ((o, n) ∷ ss) = (o + n ≤ len) × InBounds len ss

-- The place of `n` bytes at `o` shares no byte with those of the list.
abbrev pub ApartFrom : ℕ → ℕ → List Segment → Type 0
ApartFrom o n [] = Unit {0}
ApartFrom o n ((p, m) ∷ ss) = ((o + n ≤ p) ⊎ (p + m ≤ o)) × ApartFrom o n ss

-- No two places of the list share a byte.
abbrev pub Disjoint : List Segment → Type 0
Disjoint [] = Unit {0}
Disjoint ((o, n) ∷ ss) = ApartFrom o n ss × Disjoint ss
