-- ===== src/Provider/Spec.antt =====
-- An abstract store for the requests that carry their data with them: a list of byte strings, one
-- for each region ever created, with no lock, no handle, no buffer and no loop over segments that
-- checks its bounds. src/ProviderImpl.hpp answers these requests through src/MemoryBackend.cpp.
pub mod Refines
use mochi_warabi.Prelude.{
  ℕ, ◌<◌, String, ℤ, pos, negsuc, Bool, List, [], ◌∷◌, ◌++◌, Option, none, some, length, set,
  get_elem?, replicate, word,
}
use mochi_warabi.Bytes.{Bytes}
use mochi_warabi.Result.{succeed, fail, success_bool, fail_bool}
use mochi_warabi.RegionId.{RegionId, region_id_to_index, index_size_to_region_id}
use mochi_warabi.Segments.{Segment, convert_to_segments, sum, InBounds}
use mochi_warabi.Segments.Scatter.{scatter}
use mochi_warabi.Segments.Plain.{gathered}
use mochi_warabi.Network.{Network}
use mochi_warabi.Memory.Contents.{Fits}
use mochi_warabi.Provider.Idle.{Request, Response, status, region, content}

abbrev pub Store : Type 0
Store = List Bytes

-- The requests that need no bulk transfer.
pub data Eager : Type 0 where
  create : ℕ → Eager
  write_eager : RegionId → List Segment → Bytes → Bool → Eager
  persist : RegionId → List Segment → Eager
  create_write_eager : Bytes → Bool → Eager
  read_eager : RegionId → List Segment → Eager
  erase : RegionId → Eager

unfoldable pub request_of : (N : Network) → Eager → Request N
request_of N (create size) = Request.create size
request_of N (write_eager id ss d durable) = Request.write_eager id ss d durable
request_of N (persist id ss) = Request.persist id ss
request_of N (create_write_eager d durable) = Request.create_write_eager d durable
request_of N (read_eager id ss) = Request.read_eager id ss
request_of N (erase id) = Request.erase id

abbrev pub at_position : ℕ → Option Bytes → Option (ℕ × Bytes)
at_position i none = none
at_position i (some b) = some (i, b)

abbrev pub find_at : Store → ℤ → Option (ℕ × Bytes)
find_at s (pos i) = at_position i (get_elem? s i)
find_at s (negsuc i) = none

-- The region that an id names, with its position.
unfoldable pub find : Store → RegionId → Option (ℕ × Bytes)
find s id = find_at s (region_id_to_index id)

abbrev pub invalid : String
invalid = "Invalid RegionID information"

abbrev pub new_id : Store → ℕ → RegionId
new_id s size = index_size_to_region_id (length s) size

abbrev pub with_region {ℓ} : {A : Type ℓ} → Option (ℕ × Bytes) → A → (ℕ → Bytes → A) → A
with_region none refused use_region = refused
with_region (some (i, b)) refused use_region = use_region i b

-- What a request answers, and the store that it leaves.
unfoldable pub step : Store → Eager → Response × Store
step s (create size) = (region (succeed (new_id s size)), s ++ replicate size 0 ∷ [])
step s (write_eager id ss d durable) =
    with_region (find s id) (status (fail_bool invalid), s)
      (λ i b. (status success_bool, set s i (scatter ss d 0 b)))
step s (persist id ss) =
    with_region (find s id) (status (fail_bool invalid), s) (λ i b. (status success_bool, s))
step s (create_write_eager d durable) = (region (succeed (new_id s (length d))), s ++ d ∷ [])
step s (read_eager id ss) =
    with_region (find s id) (content (fail invalid []), s)
      (λ i b. (content (succeed (gathered ss b)), s))
step s (erase id) =
    with_region (find s id) (status (fail_bool "Invalid RegionID"), s)
      (λ i b. (status success_bool, set s i []))

unfoldable pub replay : Store → List Eager → List Response × Store
unfolding step
replay s [] = ([], s)
replay s (r ∷ rs) =
    let (response, s') = step s r in
    let (responses, s'') = replay s' rs in (response ∷ responses, s'')

-- Nothing is asked of a request whose id names no region.
abbrev pub IfFound : (Bytes → Type 0) → Option (ℕ × Bytes) → Type 0
IfFound P none = Unit {0}
IfFound P (some (i, b)) = P b

-- The requests whose segments lie in their region; a write brings as many bytes as they take.
abbrev pub Allowed : Store → Eager → Type 0
Allowed s (create size) = Unit {0}
Allowed s (write_eager id ss d durable) = IfFound (λ b. Fits b ss d) (find s id)
Allowed s (persist id ss) = Unit {0}
Allowed s (create_write_eager d durable) = length d < word
Allowed s (read_eager id ss) =
    IfFound (λ b. InBounds (length b) (convert_to_segments ss) × (sum ss < word)) (find s id)
Allowed s (erase id) = Unit {0}

abbrev pub AllAllowed : Store → List Eager → Type 0
AllAllowed s [] = Unit {0}
AllAllowed s (r ∷ rs) = Allowed s r × AllAllowed (step s r).1 rs
