-- ===== src/Pmem.antt =====
-- src/PmemBackend.hpp and src/PmemBackend.cpp: a target over a libpmemobj pool, whose regions are
-- objects of the pool. libpmemobj is not part of the repository; the memory that it maps is.
pub mod Region
pub mod Migration
pub mod Reversible
pub mod Setup
pub mod Recovered
pub mod Ledger
pub mod Durable
use mochi_warabi.Prelude.{
  ℕ, ◌≡◌, String, Bool, true, false, List, [], ◌∷◌, Option, none, some, length, if◌then◌else◌,
}
use mochi_warabi.Run.{Run, done, ◌>>=◌}
use mochi_warabi.Result.{Result, BoolResult, succeed, fail, success_bool, fail_bool}
use mochi_warabi.RegionId.{RegionId, words_to_region_id, region_id_to_offset_size}
use mochi_warabi.RwLock.{RwLock, rdlock, wrlock, unlock}
use mochi_warabi.Network.{Network}
use mochi_warabi.Backend.{Backend}
use Region.{Oid, Pmemobj, PmemTarget, PmemRegion}
use Region

unfoldable pub oid_to_region_id : Oid → RegionId
oid_to_region_id oid = words_to_region_id oid.0 oid.1

unfoldable pub region_id_to_oid : RegionId → Oid
region_id_to_oid rid = region_id_to_offset_size rid

module _ (P : Pmemobj) where
  open P use {Heap}

  unfoldable pub get_config : PmemTarget Heap → String
  get_config t = t.config

  unfoldable pub destroy : PmemTarget Heap → Run (BoolResult × PmemTarget Heap)
  destroy t = done (success_bool, record t { pool_open = false; file_exists = false })

  -- The object that `alloc` made lies at `direct oid`; a null pointer is not tested for.
  abbrev opened : PmemTarget Heap → Oid → Option ℕ → Result (Option PmemRegion) × PmemTarget Heap
  opened t oid none = (succeed none, t)
  opened t oid (some p) = (succeed (some (record { id = oid_to_region_id oid; ptr = p })), t)

  abbrev create_with :
      PmemTarget Heap → Option (Oid × Heap) → Run (Result (Option PmemRegion) × PmemTarget Heap)
  create_with t none = do
    lock ← unlock t.lock
    done (fail P.alloc_error none, record t { lock = lock })
  create_with t (some (oid, heap)) = done (opened (record t { heap = heap }) oid (P.direct oid))

  unfoldable pub create : PmemTarget Heap → ℕ → Run (Result (Option PmemRegion) × PmemTarget Heap)
  create t size = do
    lock ← rdlock t.lock
    create_with (record t { lock = lock }) (P.alloc t.heap size)

  -- The body of `write` and of `read`.
  abbrev open_at :
      PmemTarget Heap → RegionId → Option ℕ → Run (Result (Option PmemRegion) × PmemTarget Heap)
  open_at t rid none = done (fail "Invalid RegionID" none, t)
  open_at t rid (some p) = do
    lock ← rdlock t.lock
    done (succeed (some (record { id = rid; ptr = p })), record t { lock = lock })

  unfoldable pub write :
      PmemTarget Heap → RegionId → Bool → Run (Result (Option PmemRegion) × PmemTarget Heap)
  write t rid persist = open_at t rid (P.direct (region_id_to_oid rid))

  unfoldable pub read :
      PmemTarget Heap → RegionId → Run (Result (Option PmemRegion) × PmemTarget Heap)
  read t rid = open_at t rid (P.direct (region_id_to_oid rid))

  abbrev erase_at : PmemTarget Heap → Oid → Option ℕ → Run (BoolResult × PmemTarget Heap)
  erase_at t oid none = done (fail_bool "Invalid RegionID", t)
  erase_at t oid (some p) = do
    lock ← rdlock t.lock
    done (success_bool, record t { lock = lock; heap = P.free t.heap oid })

  unfoldable pub erase : PmemTarget Heap → RegionId → Run (BoolResult × PmemTarget Heap)
  erase t rid = erase_at t (region_id_to_oid rid) (P.direct (region_id_to_oid rid))

  -- A region has no destructor of its own: nothing is released.
  unfoldable pub close : PmemTarget Heap → PmemRegion → Run (PmemTarget Heap)
  close t r = done t

  abbrev pub pmem_backend : (N : Network) → Backend N
  pmem_backend N = record {
    Target = PmemTarget Heap;
    Region = PmemRegion;
    get_config = get_config;
    create = create;
    write = write;
    read = read;
    erase = erase;
    destroy = destroy;
    get_region_id = Region.get_region_id;
    region_write_bulk = Region.write_bulk N;
    region_write = Region.write;
    region_persist = Region.persist;
    region_read_bulk = Region.read_bulk N;
    region_read = Region.read;
    close = close;
  }
