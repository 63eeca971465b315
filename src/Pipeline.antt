-- ===== src/Pipeline.antt =====
-- src/PipelineTransferManager.cpp: a transfer manager that cuts a request into sets of places, each
-- of which goes through a buffer of a pool. The pool (margo_bulk_poolset) is not part of the
-- repository.
pub mod Plan
pub mod Pieces
pub mod Small
pub mod Large
pub mod Refines
pub mod Threads
use mochi_warabi.Prelude.{
  ℕ, ◌≡◌, Bool, List, [], ◌∷◌, Option, none, some, length, take, if◌then◌else◌,
}
use mochi_warabi.Run.{Run, done, undef, ◌>>=◌}
use mochi_warabi.Bytes.{Bytes}
use mochi_warabi.Result.{BoolResult, success_bool}
use mochi_warabi.Segments.{Segment, total_size}
use mochi_warabi.Network.{Network}
use mochi_warabi.Backend.{Backend}
use Plan.{plan}

-- `get_max` and `get`: the memory of a buffer of that size or more, or none where the pool has
-- no such buffers.
pub record Pool : Type 0 where
  pub max : ℕ
  pub get : ℕ → Option Bytes

abbrev pub buffer_or_undef : Option Bytes → Run Bytes
buffer_or_undef none = undef
buffer_or_undef (some b) = done b

-- `if(!ultResults[i].success()) result = ultResults[i];`
abbrev pub latest_failure : BoolResult → BoolResult → BoolResult
latest_failure result ult = if ult.success then result else ult

module _ (N : Network) (B : Backend N) (pool : Pool) where
  open N use {Remote, Bulk, Endpoint}
  open B use {Target, Region}

  -- The threads of `pull`, in the order of their creation, with the results as they are joined.
  unfoldable pub pull_sets :
      Remote
      → Target
      → Region
      → List (List Segment)
      → List ℕ
      → Bulk
      → Endpoint
      → Bool
      → BoolResult
      → Run (BoolResult × Target)
  pull_sets w t r (segments ∷ sets) (offset ∷ offsets) bulk address persist result = do
    let size = total_size segments
    buffer ← buffer_or_undef (pool.get size)
    arrived ← N.pull w address bulk offset size
    (ult, t') ← B.region_write t r segments arrived persist
    pull_sets w t' r sets offsets bulk address persist (latest_failure result ult)
  pull_sets w t r _ _ bulk address persist result = done (result, t)

  unfoldable pub pull :
      Remote
      → Target
      → Region
      → List Segment
      → Bulk
      → Endpoint
      → ℕ
      → Bool
      → Run (BoolResult × Target)
  unfolding pull_sets
  pull w t r region_offset_sizes bulk address bulk_offset persist = do
    p ← plan pool.max region_offset_sizes bulk_offset
    pull_sets w t r p.sets p.offsets bulk address persist success_bool

  -- The threads of `push`. What a thread sends is the first `size` bytes of its buffer.
  unfoldable pub push_sets :
      Remote
      → Target
      → Region
      → List (List Segment)
      → List ℕ
      → Bulk
      → Endpoint
      → BoolResult
      → Run (BoolResult × Remote × Target)
  push_sets w t r (segments ∷ sets) (offset ∷ offsets) bulk address result = do
    let size = total_size segments
    buffer ← buffer_or_undef (pool.get size)
    (ult, filled, t') ← B.region_read t r segments buffer
    w' ← N.push w address bulk offset (take size filled)
    push_sets w' t' r sets offsets bulk address (latest_failure result ult)
  push_sets w t r _ _ bulk address result = done (result, w, t)

  unfoldable pub push :
      Remote
      → Target
      → Region
      → List Segment
      → Bulk
      → Endpoint
      → ℕ
      → Run (BoolResult × Remote × Target)
  unfolding push_sets
  push w t r region_offset_sizes bulk address bulk_offset = do
    p ← plan pool.max region_offset_sizes bulk_offset
    push_sets w t r p.sets p.offsets bulk address success_bool
