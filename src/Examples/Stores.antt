-- ===== src/Examples/Stores.antt =====
-- The theorems on the targets of src/MemoryBackend.cpp, at concrete inputs.
use mochi_warabi.Prelude.{ℕ, ◌≡◌, ◌⊎◌, refl, arith, true, none, some, replicate}
use mochi_warabi.Examples.Targets.{empty_target, target, id0, first_region}
use mochi_warabi.Run.{done, ◌>>=◌}
use mochi_warabi.Result.{succeed, fail, success_bool, fail_bool}
use mochi_warabi.Memory.Region.{MemoryTarget, MemoryRegion, contents}
use mochi_warabi.Memory.{create, write, read, erase, close}
use mochi_warabi.Memory.Region
use mochi_warabi.Memory.Threads.{
  Threads, Reach, here, next, creates, closes, reads, fills, unused, Reach-exclusive,
}
use mochi_warabi.Examples.{one_buffer}
use mochi_warabi.Prelude.{[], ◌∷◌, false, wrap}
use mochi_warabi.Bytes.{Bytes, load, store, slice, patch}
use mochi_warabi.Segments.{convert_to_segments, copy_in}
use mochi_warabi.RegionId.{RegionId}
use mochi_warabi.Run.{stuck}
use mochi_warabi.RegionId.RoundTrip.{index-index_size_to_region_id}
use mochi_warabi.Memory.Regions.{
  open_valid, create-created, created, new_handle, Names, handle, open-Names, read-create, IsErased,
  erase_lem,
}

open-Names_example :
    ((i : ℕ) × Names target id0 i
      × (read target id0 ≡ done (succeed (some (handle id0 i)), record target { locked = true }))
      × (write target id0 true
          ≡ done (succeed (some (handle id0 i)), record target { locked = true })))
    ⊎ (((i : ℕ) → ¬ Names target id0 i)
        × (read target id0 ≡ done (fail "Invalid RegionID information" none, target))
        × (write target id0 true ≡ done (fail "Invalid RegionID information" none, target)))
open-Names_example = open-Names target id0 true refl

read-create_example :
    (r : MemoryRegion) × (t' : MemoryTarget) × (create target 3 ≡ done (succeed (some r), t'))
    × ((close t' r >>= λ t''. read t'' r.id) ≡ done (succeed (some r), t'))
    × (contents t' r ≡ done (replicate 3 0))
    × (contents t' first_region ≡ contents target first_region)
read-create_example = read-create target 3 first_region refl (omega arith) (omega arith)

erase_lem_example :
    ((i : ℕ) × (t' : MemoryTarget) × Names target id0 i
      × (erase target id0 ≡ done (success_bool, t'))
      × IsErased target i t')
    ⊎ (((i : ℕ) → ¬ Names target id0 i)
        × (erase target id0 ≡ done (fail_bool "Invalid RegionID", target)))
erase_lem_example = erase_lem target id0 refl

-- A region is created and written through its handle, which is closed; then it is opened again.
abbrev first_handle : MemoryRegion
first_handle = new_handle empty_target 2

abbrev written_target : MemoryTarget
written_target = record { config = "{}"; regions = (8 ∷ 9 ∷ []) ∷ []; locked = false }

abbrev reopened : Threads
reopened = record { target = record written_target { locked = true }; alive = first_handle ∷ [] }

first_handle-Names : Names written_target first_handle.id 0
first_handle-Names = (index-index_size_to_region_id 0 2 (omega arith), omega arith)

filled :
    Region.write (created empty_target 2) first_handle ((0, 2) ∷ []) (8 ∷ 9 ∷ []) true
    ≡ done (success_bool, record written_target { locked = true })
unfolding Region.write contents copy_in load store slice patch convert_to_segments wrap
filled = refl

reached : Reach one_buffer (unused "{}") reopened
unfolding close read
reached =
    next
      (next
        (next
          (next here (
            creates 2 (succeed (some first_handle)) (created empty_target 2)
              (create-created empty_target 2 refl)))
          (fills [] first_handle [] (record written_target { locked = true }) ((0, 2) ∷ [])
            (8 ∷ 9 ∷ []) true success_bool refl filled))
        (closes [] first_handle [] written_target refl refl))
      (reads first_handle.id (succeed (some first_handle)) (record written_target { locked = true })
        (open_valid written_target first_handle.id 0 refl first_handle-Names))

Reach-exclusive_example :
    ((reopened.alive ≡ []) × (reopened.target.locked ≡ false))
    ⊎ ((r : MemoryRegion) × (b : Bytes) × (reopened.alive ≡ r ∷ [])
        × (contents reopened.target r ≡ done b)
        × ((size : ℕ) → create reopened.target size ≡ stuck)
        × ((id : RegionId) → erase reopened.target id ≡ stuck))
Reach-exclusive_example = Reach-exclusive one_buffer "{}" reopened reached
