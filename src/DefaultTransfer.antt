-- ===== src/DefaultTransfer.antt =====
-- src/DefaultTransferManager.cpp, and the interface of include/warabi/TransferManager.hpp that it
-- implements: the region itself makes the transfer.
use mochi_warabi.Prelude.{ℕ, Bool, List}
use mochi_warabi.Run.{Run}
use mochi_warabi.Result.{BoolResult}
use mochi_warabi.Segments.{Segment}
use mochi_warabi.Network.{Network}
use mochi_warabi.Backend.{Backend}

-- The virtual functions of a transfer manager, for the regions of one backend.
pub record TransferManager (N : Network) (B : Backend N) : Type 0 where
  pub pull :
      N.Remote
      → B.Target
      → B.Region
      → List Segment
      → N.Bulk
      → N.Endpoint
      → ℕ
      → Bool
      → Run (BoolResult × B.Target)
  pub push :
      N.Remote
      → B.Target
      → B.Region
      → List Segment
      → N.Bulk
      → N.Endpoint
      → ℕ
      → Run (BoolResult × N.Remote × B.Target)

module _ (N : Network) (B : Backend N) where
  open N use {Remote, Bulk, Endpoint}
  open B use {Target, Region}

  unfoldable pub pull :
      Remote
      → Target
      → Region
      → List Segment
      → Bulk
      → Endpoint
      → ℕ
      → Bool
      → Run (BoolResult × Target)
  pull w t r region_offset_sizes bulk address bulk_offset persist =
      B.region_write_bulk w t r region_offset_sizes bulk address bulk_offset persist

  unfoldable pub push :
      Remote
      → Target
      → Region
      → List Segment
      → Bulk
      → Endpoint
      → ℕ
      → Run (BoolResult × Remote × Target)
  push w t r region_offset_sizes bulk address bulk_offset =
      B.region_read_bulk w t r region_offset_sizes bulk address bulk_offset

  abbrev pub default_transfer : TransferManager N B
  default_transfer = record { pull = pull; push = push }
