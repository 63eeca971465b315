-- ===== src/Memory/Locking.antt =====
-- The mutex of src/MemoryBackend.cpp: one region handle at most is alive at a time.
use mochi_warabi.Prelude.{pos, ℕ, ◌≡◌, refl, Bool, true}
use mochi_warabi.Run.{stuck}
use mochi_warabi.RegionId.{RegionId, region_id_to_index}
use mochi_warabi.Memory.Region.{MemoryTarget}
use mochi_warabi.Memory.{create, write, read, erase}

-- While a handle is alive, creating and erasing wait for it, and so does opening any id that is
-- read as a non-negative index.
pub locked_waits :
    (t : MemoryTarget) (id : RegionId) (size i : ℕ) (persist : Bool)
    → t.locked ≡ true
    → region_id_to_index id ≡ pos i
    → (create t size ≡ stuck)
      × (erase t id ≡ stuck)
      × (read t id ≡ stuck)
      × (write t id persist ≡ stuck)
unfolding create erase read write
locked_waits t id size i persist h e = (rw h refl, rw h refl, rw (e, h) refl, rw (e, h) refl)
