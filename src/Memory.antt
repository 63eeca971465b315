-- ===== src/Memory.antt =====
-- src/MemoryBackend.cpp: a target that keeps its regions in a vector, behind a mutex. A region
-- handle owns the lock, and gives it back when it is destroyed.
pub mod Region
pub mod Regions
pub mod Locking
pub mod Contents
pub mod Faults
pub mod Threads
use mochi_warabi.Prelude.{
  ℕ, ◌-◌, ◌||◌, ◌≡◌, String, Bool, true, false, List, [], ◌∷◌, ◌++◌, Option, none, some, length,
  set, get_elem?, replicate, leb, if◌then◌else◌, is_neg, to_nat,
}
use mochi_warabi.Run.{Run, done, stuck, undef, ◌>>=◌}
use mochi_warabi.Bytes.{Bytes}
use mochi_warabi.Result.{Result, BoolResult, succeed, fail, success_bool, fail_bool}
use mochi_warabi.RegionId.{RegionId, region_id_to_index, index_size_to_region_id}
use mochi_warabi.Network.{Network}
use mochi_warabi.Backend.{Backend}
use Region.{MemoryTarget, MemoryRegion}
use Region

-- `std::unique_lock` on `m_mutex`.
unfoldable pub lock : MemoryTarget → Run MemoryTarget
lock t = if t.locked then stuck else done (record t { locked = true })

unfoldable pub get_config : MemoryTarget → String
get_config t = t.config

unfoldable pub destroy : MemoryTarget → Run (BoolResult × MemoryTarget)
destroy t = done (success_bool, t)

unfoldable pub create : MemoryTarget → ℕ → Run (Result (Option MemoryRegion) × MemoryTarget)
unfolding lock
create t size = do
  t ← lock t
  let regions : List Bytes = t.regions ++ replicate size 0 ∷ []
  let index = length regions - 1
  let region : MemoryRegion = record { id = index_size_to_region_id index size; index = index }
  done (succeed (some region), record t { regions = regions })

-- The body that `write` and `read` share, once the index is known.
unfoldable pub open_region :
    MemoryTarget → RegionId → Run (Result (Option MemoryRegion) × MemoryTarget)
unfolding lock
open_region t region_id = do
  let index = region_id_to_index region_id
  if is_neg index then done (fail "Invalid RegionID information" none, t) else do
    locked ← lock t
    if leb (length locked.regions) (to_nat index)
        then done (fail "Invalid RegionID information" none, t)
        else done (succeed (some (record { id = region_id; index = to_nat index })), locked)

unfoldable pub write :
    MemoryTarget → RegionId → Bool → Run (Result (Option MemoryRegion) × MemoryTarget)
unfolding open_region
write t region_id persist = open_region t region_id

unfoldable pub read : MemoryTarget → RegionId → Run (Result (Option MemoryRegion) × MemoryTarget)
unfolding open_region
read t region_id = open_region t region_id

-- The lock is held during the call only.
unfoldable pub erase : MemoryTarget → RegionId → Run (BoolResult × MemoryTarget)
unfolding lock
erase t region_id = do
  let index = region_id_to_index region_id
  locked ← lock t
  if is_neg index || leb (length locked.regions) (to_nat index)
      then done (fail_bool "Invalid RegionID", t)
      else done (success_bool, record t { regions = set t.regions (to_nat index) [] })

-- The destructor of a region releases the mutex.
unfoldable pub close : MemoryTarget → MemoryRegion → Run MemoryTarget
close t region = done (record t { locked = false })

-- The two static functions of the class that the factory calls. `recover` leaves the pointer null.
unfoldable pub make : String → Result (Option MemoryTarget)
make config = succeed (some (record { config = config; regions = []; locked = false }))

unfoldable pub recover : String → List String → Result (Option MemoryTarget)
recover config filenames = succeed none

unfoldable pub validate : String → BoolResult
validate config = success_bool

-- The class, as the provider sees it.
abbrev pub memory_backend : (N : Network) → Backend N
memory_backend N = record {
  Target = MemoryTarget;
  Region = MemoryRegion;
  get_config = get_config;
  create = create;
  write = write;
  read = read;
  erase = erase;
  destroy = destroy;
  get_region_id = Region.get_region_id;
  region_write_bulk = Region.write_bulk N;
  region_write = Region.write;
  region_persist = Region.persist;
  region_read_bulk = Region.read_bulk N;
  region_read = Region.read;
  close = close;
}
