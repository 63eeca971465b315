-- ===== src/Memory/Region.antt =====
-- `MemoryRegion` of src/MemoryBackend.cpp. `m_region` is a reference into the target's vector; the
-- handle keeps the position instead.
use mochi_warabi.Prelude.{
  ℕ, String, Bool, List, [], ◌∷◌, ◌++◌, Option, none, some, length, set, get_elem?, take, ◌==◌,
  if◌then◌else◌,
}
use mochi_warabi.Run.{Run, done, undef, ◌>>=◌}
use mochi_warabi.Bytes.{Bytes, load}
use mochi_warabi.Result.{Result, BoolResult, succeed, success_bool}
use mochi_warabi.RegionId.{RegionId}
use mochi_warabi.Segments.{Segment, convert_to_segments, total_size, copy_in, copy_out}
use mochi_warabi.Network.{Network}

pub record MemoryTarget : Type 0 where
  pub config : String
  pub regions : List Bytes
  pub locked : Bool

pub record MemoryRegion : Type 0 where
  pub id : RegionId
  pub index : ℕ

abbrev pub contents_or_undef : Option Bytes → Run Bytes
contents_or_undef none = undef
contents_or_undef (some b) = done b

-- What `m_region` refers to.
unfoldable pub contents : MemoryTarget → MemoryRegion → Run Bytes
contents t r = contents_or_undef (get_elem? t.regions r.index)

abbrev pub replace : MemoryTarget → MemoryRegion → Bytes → MemoryTarget
replace t r b = record t { regions = set t.regions r.index b }

unfoldable pub get_region_id : MemoryRegion → Result RegionId
get_region_id r = succeed r.id

unfoldable pub write :
    MemoryTarget → MemoryRegion → List Segment → Bytes → Bool → Run (BoolResult × MemoryTarget)
unfolding contents
write t r region_offset_sizes ptr persist = do
  let segments = convert_to_segments region_offset_sizes
  b ← contents t r
  b' ← copy_in segments ptr 0 b
  done (success_bool, replace t r b')

unfoldable pub persist :
    MemoryTarget → MemoryRegion → List Segment → Run (BoolResult × MemoryTarget)
persist t r region_offset_sizes = done (success_bool, t)

unfoldable pub read :
    MemoryTarget → MemoryRegion → List Segment → Bytes → Run (BoolResult × Bytes × MemoryTarget)
unfolding contents
read t r region_offset_sizes ptr = do
  let segments = convert_to_segments region_offset_sizes
  if length segments == 0
      then done (success_bool, ptr, t)
      else do b ← contents t r; ptr' ← copy_out segments b 0 ptr; done (success_bool, ptr', t)

-- What leaves the exposed segments, one after the other.
unfoldable pub gather : List Segment → Bytes → Run Bytes
gather [] b = done []
gather ((o, n) ∷ ss) b = do chunk ← load b o n; rest ← gather ss b; done (chunk ++ rest)

module _ (N : Network) where
  open N use {Remote, Bulk, Endpoint}

  -- The transfer lays the bytes that arrive out over the exposed segments, in their order.
  unfoldable pub write_bulk :
      Remote
      → MemoryTarget
      → MemoryRegion
      → List Segment
      → Bulk
      → Endpoint
      → ℕ
      → Bool
      → Run (BoolResult × MemoryTarget)
  unfolding contents
  write_bulk w t r region_offset_sizes remote_bulk address remote_bulk_offset persist = do
    let segments = convert_to_segments region_offset_sizes
    if length segments == 0 then done (success_bool, t) else do
      b ← contents t r
      arrived ← N.pull w address remote_bulk remote_bulk_offset (total_size segments)
      b' ← copy_in segments arrived 0 b
      done (success_bool, replace t r b')

  unfoldable pub read_bulk :
      Remote
      → MemoryTarget
      → MemoryRegion
      → List Segment
      → Bulk
      → Endpoint
      → ℕ
      → Run (BoolResult × Remote × MemoryTarget)
  unfolding contents
  read_bulk w t r region_offset_sizes remote_bulk address remote_bulk_offset = do
    let segments = convert_to_segments region_offset_sizes
    if length segments == 0 then done (success_bool, w, t) else do
      b ← contents t r
      leaving ← gather segments b
      w' ← N.push w address remote_bulk remote_bulk_offset (take (total_size segments) leaving)
      done (success_bool, w', t)
