-- ===== src/Pmem/Region.antt =====
-- `PmemRegion` of src/PmemBackend.cpp. A pointer into the pool is a position in the mapped memory.
-- `durable` is what the pool holds after a crash: libpmemobj promises of the bytes that a
-- persist call covers, and of no others, that they are there.
use mochi_warabi.Prelude.{ℕ, String, Bool, List, [], ◌∷◌, Option, length, take, ◌==◌, if◌then◌else◌}
use mochi_warabi.Run.{Run, done, ◌>>=◌}
use mochi_warabi.Bytes.{Bytes, load, store}
use mochi_warabi.Result.{Result, BoolResult, succeed, success_bool}
use mochi_warabi.RegionId.{RegionId}
use mochi_warabi.Segments.{Segment, convert_to_segments, total_size, copy_in, copy_out, shift}
use mochi_warabi.RwLock.{RwLock, unlock}
use mochi_warabi.Network.{Network}
use mochi_warabi.Memory.Region.{gather}

-- `PMEMoid`: the pool's number and the offset.
abbrev pub Oid : Type 0
Oid = ℕ × ℕ

-- `pmemobj_alloc`, `pmemobj_direct_inline`, `pmemobj_free`, over the allocator's own state.
pub record Pmemobj : Type 1 where
  pub Heap : Type 0
  pub alloc : Heap → ℕ → Option (Oid × Heap)
  pub direct : Oid → Option ℕ
  pub free : Heap → Oid → Heap
  -- the text that the code makes of `pmemobj_errormsg()` when the allocation fails
  pub alloc_error : String

pub record PmemTarget (Heap : Type 0) : Type 0 where
  pub config : String
  pub filename : List ℕ
  pub pool_open : Bool
  pub file_exists : Bool
  pub heap : Heap
  pub memory : Bytes
  pub durable : Bytes
  pub lock : RwLock

pub record PmemRegion : Type 0 where
  pub id : RegionId
  pub ptr : ℕ

-- `m_region_ptr + offset` for each place that is not empty.
unfoldable pub segments_at : PmemRegion → List Segment → List Segment
segments_at r ss = shift r.ptr (convert_to_segments ss)

unfoldable pub get_region_id : PmemRegion → Result RegionId
get_region_id r = succeed r.id

-- Makes the bytes of the places durable.
unfoldable pub flush : List Segment → Bytes → Bytes → Run Bytes
flush [] memory durable = done durable
flush ((o, n) ∷ ss) memory durable = do
  chunk ← load memory o n
  durable' ← store durable o chunk
  flush ss memory durable'

module _ {Heap : Type 0} where
  abbrev pub released : PmemTarget Heap → Run (PmemTarget Heap)
  released t = do lock ← unlock t.lock; done (record t { lock = lock })

  -- The two loops of `write`: `pmemobj_memcpy_persist` copies and makes durable.
  unfoldable pub write :
      PmemTarget Heap
      → PmemRegion
      → List Segment
      → Bytes
      → Bool
      → Run (BoolResult × PmemTarget Heap)
  write t r region_offset_sizes ptr persist = do
    let segments = segments_at r region_offset_sizes
    memory ← copy_in segments ptr 0 t.memory
    durable ← (if persist then flush segments memory t.durable else done t.durable)
    t' ← released (record t { memory = memory; durable = durable })
    done (success_bool, t')

  unfoldable pub persist :
      PmemTarget Heap → PmemRegion → List Segment → Run (BoolResult × PmemTarget Heap)
  persist t r region_offset_sizes = do
    durable ← flush (segments_at r region_offset_sizes) t.memory t.durable
    t' ← released (record t { durable = durable })
    done (success_bool, t')

  unfoldable pub read :
      PmemTarget Heap
      → PmemRegion
      → List Segment
      → Bytes
      → Run (BoolResult × Bytes × PmemTarget Heap)
  read t r region_offset_sizes ptr = do
    let segments = segments_at r region_offset_sizes
    if length segments == 0 then done (success_bool, ptr, t) else do
      ptr' ← copy_out segments t.memory 0 ptr
      t' ← released t
      done (success_bool, ptr', t')

  module _ (N : Network) where
    open N use {Remote, Bulk, Endpoint}

    unfoldable pub write_bulk :
        Remote
        → PmemTarget Heap
        → PmemRegion
        → List Segment
        → Bulk
        → Endpoint
        → ℕ
        → Bool
        → Run (BoolResult × PmemTarget Heap)
    write_bulk w t r region_offset_sizes remote_bulk address remote_bulk_offset persist = do
      let segments = segments_at r region_offset_sizes
      if length segments == 0 then done (success_bool, t) else do
        arrived ← N.pull w address remote_bulk remote_bulk_offset (total_size segments)
        memory ← copy_in segments arrived 0 t.memory
        t' ← released (record t { memory = memory })
        done (success_bool, t')

    unfoldable pub read_bulk :
        Remote
        → PmemTarget Heap
        → PmemRegion
        → List Segment
        → Bulk
        → Endpoint
        → ℕ
        → Run (BoolResult × Remote × PmemTarget Heap)
    read_bulk w t r region_offset_sizes remote_bulk address remote_bulk_offset = do
      let segments = segments_at r region_offset_sizes
      if length segments == 0 then done (success_bool, w, t) else do
        leaving ← gather segments t.memory
        w' ← N.push w address remote_bulk remote_bulk_offset (take (total_size segments) leaving)
        t' ← released t
        done (success_bool, w', t')
