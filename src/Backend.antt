-- ===== src/Backend.antt =====
-- include/warabi/Backend.hpp: the interface that the provider has of a backend. A method takes the
-- state of the target and returns the new one beside its result; the methods of a region take the
-- region's handle as well. `close` is the destructor of a region.
use mochi_warabi.Prelude.{ℕ, Bool, Option, List, String}
use mochi_warabi.Run.{Run}
use mochi_warabi.Bytes.{Bytes}
use mochi_warabi.Result.{Result, BoolResult}
use mochi_warabi.RegionId.{RegionId}
use mochi_warabi.Segments.{Segment}
use mochi_warabi.Network.{Network}

pub record Backend (N : Network) : Type 1 where
  pub Target : Type 0
  pub Region : Type 0
  pub get_config : Target → String
  pub create : Target → ℕ → Run (Result (Option Region) × Target)
  pub write : Target → RegionId → Bool → Run (Result (Option Region) × Target)
  pub read : Target → RegionId → Run (Result (Option Region) × Target)
  pub erase : Target → RegionId → Run (BoolResult × Target)
  pub destroy : Target → Run (BoolResult × Target)
  pub get_region_id : Region → Result RegionId
  pub region_write_bulk :
      N.Remote
      → Target
      → Region
      → List Segment
      → N.Bulk
      → N.Endpoint
      → ℕ
      → Bool
      → Run (BoolResult × Target)
  pub region_write : Target → Region → List Segment → Bytes → Bool → Run (BoolResult × Target)
  pub region_persist : Target → Region → List Segment → Run (BoolResult × Target)
  pub region_read_bulk :
      N.Remote
      → Target
      → Region
      → List Segment
      → N.Bulk
      → N.Endpoint
      → ℕ
      → Run (BoolResult × N.Remote × Target)
  -- the buffer that `data` points to comes in and goes out
  pub region_read : Target → Region → List Segment → Bytes → Run (BoolResult × Bytes × Target)
  pub close : Target → Region → Run Target
