-- ===== src/Pipeline/Refines.antt =====
-- Requests that fit one buffer, over src/MemoryBackend.cpp: the pull of
-- src/PipelineTransferManager.cpp beside the one of src/DefaultTransferManager.cpp.
use mochi_warabi.Prelude.{
  ℕ, ◌+◌, ◌<◌, ◌≤◌, ◌≡◌, refl, ◌∙◌, Bool, false, List, [], ◌∷◌, some, length, get_elem?, arith,
  ◌==◌, word,
}
use mochi_warabi.Run.{Run, done, raise, undef, stuck, ◌>>=◌}
use mochi_warabi.Bytes.{Bytes}
use mochi_warabi.Result.{BoolResult, success_bool}
use mochi_warabi.Segments.{Segment, convert_to_segments, total_size, copy_in, sum}
use mochi_warabi.Segments.Scatter.{total_size-sum, sum-convert_to_segments}
use mochi_warabi.Network.{Network}
use mochi_warabi.Memory.{memory_backend}
use mochi_warabi.Memory.Region.{MemoryTarget, MemoryRegion, contents, contents_or_undef, replace}
use mochi_warabi.Memory.Region
use mochi_warabi.DefaultTransfer
use mochi_warabi.Pipeline.Small.{one_set, one_offset, plan_small, convert-convert}
use mochi_warabi.Pipeline.{Pool, latest_failure, pull_sets, pull}

module _ (N : Network) (pool : Pool) (w : N.Remote) (t : MemoryTarget) (r : MemoryRegion)
    (bulk : N.Bulk) (e : N.Endpoint) (off : ℕ) (persist : Bool) where
  abbrev joined : BoolResult × MemoryTarget → Run (BoolResult × MemoryTarget)
  joined p = done (latest_failure success_bool p.0, p.1)

  abbrev replaced : Bytes → Run (BoolResult × MemoryTarget)
  replaced b' = done (success_bool, replace t r b')

  joined-replaced : (m : Run Bytes) → ((m >>= replaced) >>= joined) ≡ (m >>= replaced)
  joined-replaced (done b') = refl
  joined-replaced (raise x) = refl
  joined-replaced undef = refl
  joined-replaced stuck = refl

  one_pull :
      (arrived : Run Bytes) (c : List Segment) (b : Bytes)
      → get_elem? t.regions r.index ≡ some b
      → convert_to_segments c ≡ c
      → (arrived >>= λ d. Region.write t r c d persist >>= joined)
        ≡ (arrived >>= λ d. copy_in c d 0 b >>= replaced)
  unfolding Region.write contents
  one_pull (done d) c b at k = rw at (rw k (joined-replaced (copy_in c d 0 b)))
  one_pull (raise x) c b at k = refl
  one_pull undef c b at k = refl
  one_pull stuck c b at k = refl

  pull_one_set :
      (c : List Segment) (b buffer : Bytes)
      → get_elem? t.regions r.index ≡ some b
      → convert_to_segments c ≡ c
      → pool.get (total_size c) ≡ some buffer
      → pull_sets N
          (memory_backend N)
          pool
          w
          t
          r
          (one_set c)
          (one_offset c off)
          bulk
          e
          persist
          success_bool
        ≡ Region.write_bulk N w t r c bulk e off persist
  unfolding pull_sets Region.write_bulk contents
  pull_one_set [] b buffer at k g = rw k refl
  pull_one_set (s ∷ c) b buffer at k g =
      let z : (length (s ∷ c) == 0) ≡ false = ground arith in
      rw g
        (rw k (rw z (rw at (one_pull (N.pull w e bulk off (total_size (s ∷ c))) (s ∷ c) b at k))))

  write_bulk-convert :
      (ss : List Segment)
      → Region.write_bulk N w t r (convert_to_segments ss) bulk e off persist
        ≡ Region.write_bulk N w t r ss bulk e off persist
  unfolding Region.write_bulk
  write_bulk-convert ss = rw (convert-convert ss) refl

  -- Over a target in memory, for a region that exists and a pool where twice the largest buffer is
  -- below 2 ^ 64: when the bytes of a request fit the largest buffer and the pool hands out a buffer for
  -- them, the pull of the pipeline manager is the pull of the default manager: the same call of the
  -- transport, the same bytes in the region, the same result, errors included.
  pub pull-eq-default :
      (ss : List Segment) (b buffer : Bytes)
      → get_elem? t.regions r.index ≡ some b
      → pool.max + pool.max < word
      → sum ss ≤ pool.max
      → pool.get (sum ss) ≡ some buffer
      → pull N (memory_backend N) pool w t r ss bulk e off persist
        ≡ DefaultTransfer.pull N (memory_backend N) w t r ss bulk e off persist
  unfolding pull DefaultTransfer.pull
  pull-eq-default ss b buffer at room small g =
      let (p, cut, sets, offsets) = plan_small pool.max ss off room small in
      let s = sum-convert_to_segments ss in
      let size : total_size (convert_to_segments ss) ≡ sum ss =
        total_size-sum (convert_to_segments ss) (omega arith) ∙ s in
      rw cut (
        rw sets (
          rw offsets (
            pull_one_set (convert_to_segments ss) b buffer at (convert-convert ss) (rw size g)
            ∙ write_bulk-convert ss)))
