-- ===== src/CClient.antt =====
-- src/c/client.cpp and src/c/error.hpp: the functions of the C interface, over the C++ target handle.
-- `req` says that the caller gave a place for a request. A region id is passed by value, and the
-- place for a new one may be null.
use mochi_warabi.Prelude.{ℕ, zero, suc, String, Bool, List, [], ◌∷◌, Option, none, some}
use mochi_warabi.Run.{Run, done, raise, undef, stuck, ◌>>=◌}
use mochi_warabi.Bytes.{Bytes}
use mochi_warabi.RegionId.{RegionId}
use mochi_warabi.Segments.{Segment}
use mochi_warabi.Network.{Network}
use mochi_warabi.Backend.{Backend}
use mochi_warabi.Provider.{Unset}
use mochi_warabi.AsyncRequest.{AsyncRequestImpl, wait}
use mochi_warabi.TargetHandle.{TargetHandle, Outcome, World}
use mochi_warabi.TargetHandle

-- What a function gives: a null pointer, with what it did; or an error object with its message.
pub data Answer {ℓ} (A : Type ℓ) : Type ℓ where
  null : A → Answer A
  err : String → Answer A

-- `try { ... } HANDLE_WARABI_ERROR`
abbrev pub handle_warabi_error {ℓ} : {A : Type ℓ} → Run A → Run (Answer A)
handle_warabi_error (done a) = done (null a)
handle_warabi_error (raise e) = done (err e)
handle_warabi_error undef = undef
handle_warabi_error stuck = stuck

-- The loop that fills `segments` from the two arrays. Reading past the end of one is undefined.
unfoldable pub segments_of : ℕ → List ℕ → List ℕ → Run (List Segment)
segments_of zero offsets sizes = done []
segments_of (suc count) (o ∷ offsets) (n ∷ sizes) = do
  segments ← segments_of count offsets sizes
  done ((o, n) ∷ segments)
segments_of (suc count) _ _ = undef

abbrev pub error_of {ℓ} : {A : Type ℓ} → Answer A → Option String
error_of (null a) = none
error_of (err e) = some e

-- `warabi_wait`: the error that waiting gives, if it gives one. The request is then deleted, and its
-- destructor waits again where no other request shares what it waits for.
unfoldable pub warabi_wait {ℓ} : {A : Type ℓ} → AsyncRequestImpl A → Run (Option String)
warabi_wait req =
    let (first, waited) = wait (some req) in
    let (again, _) = wait waited in
    handle_warabi_error first >>= λ answer. (again >>= λ _. done (error_of answer))

-- `warabi_set_eager_write_threshold` and `warabi_set_eager_read_threshold`
unfoldable pub warabi_set_eager_write_threshold : TargetHandle → ℕ → Run (Answer TargetHandle)
warabi_set_eager_write_threshold th size =
    handle_warabi_error (TargetHandle.set_eager_write_threshold th size)

unfoldable pub warabi_set_eager_read_threshold : TargetHandle → ℕ → Run (Answer TargetHandle)
warabi_set_eager_read_threshold th size =
    handle_warabi_error (TargetHandle.set_eager_read_threshold th size)

module _ (N : Network) (B : Backend N) (unset : Unset) (client : N.Endpoint) where
  open N use {Bulk}

  abbrev pub State : Type 0
  State = World N B unset client

  -- What a function gives that ends with `A`.
  abbrev pub Result : Type 0 → Type 0
  Result A = Run (Answer (Outcome A × State))

  unfoldable pub warabi_create : TargetHandle → State → ℕ → Bool → Bool → Result (Option RegionId)
  warabi_create th s size region req =
      handle_warabi_error (TargetHandle.create N B unset client th s region size req)

  unfoldable pub warabi_write_multi :
      TargetHandle
      → State
      → RegionId
      → ℕ
      → List ℕ
      → List ℕ
      → Bytes
      → Bool
      → Bool
      → Result (Unit {0})
  unfolding segments_of
  warabi_write_multi th s region count region_offsets region_sizes ptr persist req =
      handle_warabi_error (do
        segments ← segments_of count region_offsets region_sizes
        TargetHandle.write N B unset client th s region segments ptr persist req)

  unfoldable pub warabi_write :
      TargetHandle → State → RegionId → ℕ → Bytes → ℕ → Bool → Bool → Result (Unit {0})
  unfolding warabi_write_multi
  warabi_write th s region region_offset ptr size persist req =
      warabi_write_multi th s region 1 (region_offset ∷ []) (size ∷ []) ptr persist req

  unfoldable pub warabi_write_multi_bulk :
      TargetHandle
      → State
      → RegionId
      → ℕ
      → List ℕ
      → List ℕ
      → Bulk
      → String
      → ℕ
      → Bool
      → Bool
      → Result (Unit {0})
  unfolding segments_of
  warabi_write_multi_bulk th s region count region_offsets region_sizes bulk address bulk_offset
        persist req =
      handle_warabi_error (do
        segments ← segments_of count region_offsets region_sizes
        TargetHandle.write_from_bulk N B unset client th s region segments bulk address bulk_offset
            persist req)

  unfoldable pub warabi_write_bulk :
      TargetHandle → State → RegionId → ℕ → Bulk → String → ℕ → ℕ → Bool → Bool → Result (Unit {0})
  unfolding warabi_write_multi_bulk
  warabi_write_bulk th s region region_offset bulk address bulk_offset size persist req =
      warabi_write_multi_bulk th s region 1 (region_offset ∷ []) (size ∷ []) bulk address
        bulk_offset persist req

  unfoldable pub warabi_persist_multi :
      TargetHandle → State → RegionId → ℕ → List ℕ → List ℕ → Bool → Result (Unit {0})
  unfolding segments_of
  warabi_persist_multi th s region count region_offsets region_sizes req = handle_warabi_error (do
    segments ← segments_of count region_offsets region_sizes
    TargetHandle.persist N B unset client th s region segments req)

  unfoldable pub warabi_persist : TargetHandle → State → RegionId → ℕ → ℕ → Bool → Result (Unit {0})
  unfolding warabi_persist_multi
  warabi_persist th s region region_offset size req =
      warabi_persist_multi th s region 1 (region_offset ∷ []) (size ∷ []) req

  -- `data` and `size` are the first `size` bytes that `data` points to.
  unfoldable pub warabi_create_write :
      TargetHandle → State → Bytes → Bool → Bool → Bool → Result (Option RegionId)
  warabi_create_write th s content persist region req =
      handle_warabi_error
        (TargetHandle.create_and_write N B unset client th s region content persist req)

  unfoldable pub warabi_create_write_bulk :
      TargetHandle → State → Bulk → String → ℕ → ℕ → Bool → Bool → Bool → Result (Option RegionId)
  warabi_create_write_bulk th s bulk address bulk_offset size persist region req =
      handle_warabi_error (
        TargetHandle.create_and_write_from_bulk N B unset client th s region bulk address
          bulk_offset size persist req)

  unfoldable pub warabi_read_multi :
      TargetHandle → State → RegionId → ℕ → List ℕ → List ℕ → Bytes → Bool → Result Bytes
  unfolding segments_of
  warabi_read_multi th s region count region_offsets region_sizes ptr req = handle_warabi_error (do
    segments ← segments_of count region_offsets region_sizes
    TargetHandle.read N B unset client th s region segments ptr req)

  unfoldable pub warabi_read : TargetHandle → State → RegionId → ℕ → Bytes → ℕ → Bool → Result Bytes
  unfolding warabi_read_multi
  warabi_read th s region region_offset ptr size req =
      warabi_read_multi th s region 1 (region_offset ∷ []) (size ∷ []) ptr req

  unfoldable pub warabi_read_multi_bulk :
      TargetHandle
      → State
      → RegionId
      → ℕ
      → List ℕ
      → List ℕ
      → String
      → Bulk
      → ℕ
      → Bool
      → Result (Unit {0})
  unfolding segments_of
  warabi_read_multi_bulk th s region count region_offsets region_sizes address bulk bulk_offset
        req =
      handle_warabi_error (do
        segments ← segments_of count region_offsets region_sizes
        TargetHandle.read_to_bulk N B unset client th s region segments bulk address bulk_offset
            req)

  -- The only function for one place that does not go through the arrays.
  unfoldable pub warabi_read_bulk :
      TargetHandle → State → RegionId → ℕ → String → Bulk → ℕ → ℕ → Bool → Result (Unit {0})
  warabi_read_bulk th s region region_offset address bulk bulk_offset size req =
      handle_warabi_error (
        TargetHandle.read_to_bulk N B unset client th s region ((region_offset, size) ∷ []) bulk
          address bulk_offset req)

  unfoldable pub warabi_erase : TargetHandle → State → RegionId → Bool → Result (Unit {0})
  warabi_erase th s region req =
      handle_warabi_error (TargetHandle.erase N B unset client th s region req)
