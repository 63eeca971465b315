-- ===== src/RegionId.antt =====
-- include/warabi/RegionID.hpp, and the two 64-bit integers that the memory backend (index and size)
-- and the ABT-IO backend (offset and size) copy into its 16 bytes, the low byte first, as on the
-- little-endian machines that Mochi runs on.
pub mod RoundTrip
use mochi_warabi.Prelude.{
  ℕ, zero, suc, ◌+◌, ◌*◌, ◌/◌, ◌%◌, List, [], ◌∷◌, ◌++◌, take, drop, ℤ, to_ssize,
}
use mochi_warabi.Bytes.{Bytes}

-- 16 bytes.
abbrev pub RegionId : Type 0
RegionId = Bytes

-- The low `k` bytes of an integer, as they lie in memory.
unfoldable pub le_bytes : ℕ → ℕ → Bytes
le_bytes zero x = []
le_bytes (suc k) x = (x % 256) ∷ le_bytes k (x / 256)

unfoldable pub le_value : Bytes → ℕ
le_value [] = 0
le_value (b ∷ bs) = b + 256 * le_value bs

-- Two `memcpy`s of a `uint64_t`, to `data()` and to `data() + 8`.
unfoldable pub words_to_region_id : ℕ → ℕ → RegionId
unfolding le_bytes
words_to_region_id a b = le_bytes 8 a ++ le_bytes 8 b

-- MemoryBackend.cpp: what `create` writes into the id.
unfoldable pub index_size_to_region_id : ℕ → ℕ → RegionId
unfolding words_to_region_id
index_size_to_region_id index size = words_to_region_id index size

-- MemoryBackend.cpp.
unfoldable pub region_id_to_index : RegionId → ℤ
unfolding le_value to_ssize
region_id_to_index rid = to_ssize (le_value (take 8 rid))

-- AbtIOBackend.cpp.
unfoldable pub offset_size_to_region_id : ℕ → ℕ → RegionId
unfolding words_to_region_id
offset_size_to_region_id offset size = words_to_region_id offset size

unfoldable pub region_id_to_offset_size : RegionId → ℕ × ℕ
unfolding le_value
region_id_to_offset_size rid = (le_value (take 8 rid), le_value (take 8 (drop 8 rid)))
