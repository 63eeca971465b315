-- ===== src/Examples/Parts.antt =====
-- The theorems on region ids and on the archive of a result, at concrete inputs.
use mochi_warabi.Prelude.{ℕ, ◌≡◌, [], ◌<◌, arith, word, pos, some, ◌++◌}
use mochi_warabi.RegionId.{
  index_size_to_region_id, region_id_to_index, offset_size_to_region_id, region_id_to_offset_size,
}
use mochi_warabi.RegionId.RoundTrip.{
  index-index_size_to_region_id, offset_size-offset_size_to_region_id,
}
use mochi_warabi.Result.{Result, value_or_throw, check, save, restore, succeed, fail}
use mochi_warabi.Result.Wire.{restore-save}

abbrev stale : Result ℕ
stale = succeed 4

abbrev failed : Result ℕ
failed = fail "no" 0

offset_small : 300 < word
unfolding word
offset_small = omega arith

size_small : 7 < word
unfolding word
size_small = omega arith

index-index_size_to_region_id_example : region_id_to_index (index_size_to_region_id 3 7) ≡ pos 3
index-index_size_to_region_id_example = index-index_size_to_region_id 3 7 (omega arith)

offset_size-offset_size_to_region_id_example :
    region_id_to_offset_size (offset_size_to_region_id 300 7) ≡ (300, 7)
offset_size-offset_size_to_region_id_example =
    offset_size-offset_size_to_region_id 300 7 offset_small size_small

restore-save_example :
    (r' : Result ℕ) × (restore stale (save failed ++ ([])) ≡ some (r', ([])))
    × (value_or_throw r' ≡ value_or_throw failed)
    × (check r' ≡ check failed)
restore-save_example = restore-save stale failed ([])
