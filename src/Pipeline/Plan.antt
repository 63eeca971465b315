-- ===== src/Pipeline/Plan.antt =====
-- How `pull` and `push` of src/PipelineTransferManager.cpp cut a request: the loops are the same in
-- both.
use mochi_warabi.Prelude.{
  ℕ, zero, suc, ◌+◌, ◌-◌, List, [], ◌∷◌, ◌++◌, ltb, ◌==◌, min, if◌then◌else◌, wrap,
}
use mochi_warabi.Run.{Run, done, stuck, ◌>>=◌}
use mochi_warabi.Segments.{Segment}

-- The local variables of the loops: `currentListSize`, `bulkOffset`, `regionOffsetSizesSets` and
-- `bulkOffsets`.
pub record Plan : Type 0 where
  pub current : ℕ
  pub bulk_offset : ℕ
  pub sets : List (List Segment)
  pub offsets : List ℕ

-- `sets.back().push_back(s)`. With no set, `back()` is undefined; the first round opens one.
unfoldable pub push_to_last : List (List Segment) → Segment → List (List Segment)
push_to_last [] s = []
push_to_last (set ∷ []) s = (set ++ s ∷ []) ∷ []
push_to_last (set ∷ next ∷ sets) s = set ∷ push_to_last (next ∷ sets) s

-- One round of the inner loop, but for `remaining -= size`.
unfoldable pub place : ℕ → ℕ → ℕ → Plan → Plan
place max offset size p =
    let opened : Plan = record p {
      sets = p.sets ++ [] ∷ [];
      offsets = p.offsets ++ p.bulk_offset ∷ [];
      current = 0;
    } in
    let kept : Plan = record p {
      current = wrap (p.current + size);
      bulk_offset = wrap (p.bulk_offset + size);
    } in
    let q : Plan = if ltb max (wrap (p.current + size)) then opened else kept in
    record q { sets = push_to_last q.sets (offset, size) }

-- `while(remaining)`, on fuel. A round takes `min(remaining, max)` off, so one round more than
-- `remaining` is enough unless `max` is 0; then the loop does not end.
unfoldable pub split : ℕ → ℕ → ℕ → ℕ → Plan → Run Plan
split zero max offset remaining p = stuck
split (suc fuel) max offset remaining p =
    let size = min remaining max in
    let rest = split fuel max offset (remaining - size) (place max offset size p) in
    if remaining == 0 then done p else rest

-- `for(auto& p : regionOffsetSizes)`.
unfoldable pub split_all : ℕ → List Segment → Plan → Run Plan
split_all max [] p = done p
split_all max ((o, n) ∷ ss) p = split (suc n) max o n p >>= λ p'. split_all max ss p'

unfoldable pub plan : ℕ → List Segment → ℕ → Run Plan
unfolding split_all
plan max ss bulk_offset =
    split_all max ss (record { current = max; bulk_offset = bulk_offset; sets = []; offsets = [] })
