-- ===== src/Examples/Cuts.antt =====
-- The theorems on src/PipelineTransferManager.cpp, at concrete inputs.
use mochi_warabi.Prelude.{
  ℕ, ◌≡◌, refl, [], ◌∷◌, ◌<◌, arith, true, none, some, length, replicate, if◌then◌else◌, leb,
}
use mochi_warabi.Examples.{one_buffer}
use mochi_warabi.Examples.Targets.{
  target, ends, small_word, first_region, old_bytes, new_bytes, blank_bytes,
}
use mochi_warabi.Run.{done, undef}
use mochi_warabi.Segments.{Disjoint, ApartFrom, sum}
use mochi_warabi.Memory.{memory_backend}
use mochi_warabi.Pipeline.{Pool, pull}
use mathlib.Core.List.{Permᴰ}
use mochi_warabi.Result.{success_bool}
use mochi_warabi.Bytes.{Bytes, load, slice}
use mochi_warabi.Segments.{convert_to_segments, total_size, accumulate}
use mochi_warabi.Prelude.{inl, inr, wrap, word}
use mochi_warabi.Memory.Region.{replace}
use mochi_warabi.Pipeline.Threads.{
  HasBytes, Job, Every, Apart, PairwiseApart, IsWithin, IsReady, run_jobs, pull_sets-perm,
}
use mochi_warabi.Pipeline.Refines.{pull-eq-default}
use mochi_warabi.Pipeline.Plan.{Plan, plan}
use mochi_warabi.Pipeline.Pieces.{sum_sets, AllPieces, plan-pieces}
use mochi_warabi.Pipeline.Large.{pull_large}
use mochi_warabi.DefaultTransfer

-- Buffers of two bytes.
abbrev small_pool : Pool
small_pool = record { max = 2; get = λ n. if leb n 2 then some (replicate n 0) else none }

small_pool_refuses : (m : ℕ) → small_pool.max < m → small_pool.get m ≡ none
small_pool_refuses m h = ground arith

pull-eq-default_example :
    pull one_buffer
      (memory_backend one_buffer)
      small_pool
      new_bytes
      target
      first_region
      ends
      tt
      tt
      0
      true
    ≡ DefaultTransfer.pull one_buffer
        (memory_backend one_buffer)
        new_bytes
        target
        first_region
        ends
        tt
        tt
        0
        true
pull-eq-default_example =
    pull-eq-default one_buffer small_pool new_bytes target first_region tt tt 0 true ends old_bytes
      blank_bytes refl (small_word 4 (omega arith)) (omega arith) refl

plan-pieces_example :
    (p : Plan) × (plan 2 ((0, 3) ∷ (5, 1) ∷ []) 10 ≡ done p)
    × (length p.offsets ≡ length p.sets)
    × (sum_sets p.sets ≡ sum ((0, 3) ∷ (5, 1) ∷ []))
    × AllPieces 2 p.sets
plan-pieces_example =
    plan-pieces 2 ((0, 3) ∷ (5, 1) ∷ []) 10 (omega arith) (small_word 4 (omega arith))

pull_large_example :
    pull one_buffer
      (memory_backend one_buffer)
      small_pool
      ([])
      target
      first_region
      ((0, 3) ∷ [])
      tt
      tt
      0
      true
    ≡ undef
pull_large_example =
    pull_large one_buffer (memory_backend one_buffer) small_pool ([]) target first_region 0 3 0 tt
      tt true small_pool_refuses (omega arith) (omega arith) (small_word 3 (omega arith))
      (small_word 4 (omega arith))

-- The threads of a request for the two ends of the first region, one set for each.
abbrev first_end : Job
first_end = record { segments = (0, 1) ∷ []; offset = 0; bytes = 8 ∷ [] }

abbrev last_end : Job
last_end = record { segments = (3, 1) ∷ []; offset = 1; bytes = 9 ∷ [] }

ends-IsReady : Every (IsReady one_buffer small_pool new_bytes tt tt) (first_end ∷ last_end ∷ [])
unfolding Every total_size accumulate load slice wrap word
ends-IsReady = (
  record { buffer = 0 ∷ []; get_lem = refl; pull_lem = refl },
  (record { buffer = 0 ∷ []; get_lem = refl; pull_lem = refl }, tt),
)

ends-IsWithin : Every (IsWithin (length old_bytes)) (first_end ∷ last_end ∷ [])
unfolding Every convert_to_segments
ends-IsWithin = (
  record { within = (omega arith, tt); size = refl; in_memory = small_word 1 (omega arith) },
  (record { within = (omega arith, tt); size = refl; in_memory = small_word 1 (omega arith) }, tt),
)

ends-PairwiseApart : PairwiseApart (first_end ∷ last_end ∷ [])
unfolding PairwiseApart Every Apart convert_to_segments
ends-PairwiseApart =
    (((((inr (omega arith), tt), tt), ((inl (omega arith), tt), tt)), tt), (tt, tt))

ends-Disjoint : Every (λ j. Disjoint (convert_to_segments j.segments)) (first_end ∷ last_end ∷ [])
unfolding Every convert_to_segments
ends-Disjoint = ((tt, tt), ((tt, tt), tt))

middle-ApartFrom :
    Every (λ j. ApartFrom 1 2 (convert_to_segments j.segments)) (first_end ∷ last_end ∷ [])
unfolding Every convert_to_segments
middle-ApartFrom = ((inr (omega arith), tt), ((inl (omega arith), tt), tt))

pull_sets-perm_example :
    (b' : Bytes) × (run_jobs one_buffer small_pool new_bytes tt tt target first_region
        (first_end ∷ last_end ∷ [])
        true
      ≡ done (success_bool, replace target first_region b'))
    × (run_jobs one_buffer small_pool new_bytes tt tt target first_region
          (last_end ∷ first_end ∷ [])
          true
        ≡ done (success_bool, replace target first_region b'))
    × Every (HasBytes b') (first_end ∷ last_end ∷ [])
    × (length b' ≡ length old_bytes)
    × (slice b' 1 2 ≡ slice old_bytes 1 2)
pull_sets-perm_example =
    pull_sets-perm one_buffer small_pool new_bytes tt tt target first_region
      (first_end ∷ last_end ∷ []) (last_end ∷ first_end ∷ []) old_bytes true 1 2 refl ends-IsReady
      ends-IsWithin ends-Disjoint ends-PairwiseApart (Permᴰ.swap refl refl) middle-ApartFrom
