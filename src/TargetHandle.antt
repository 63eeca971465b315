-- ===== src/TargetHandle.antt =====
-- src/TargetHandle.cpp: the client's side of a target. A call sends a request to the provider, which
-- handles it (src/ProviderImpl.hpp), and gets its response through the archive of
-- include/warabi/Result.hpp. `asynchronous` says that the call was given a request to fill in.
pub mod Stored
pub mod Waiting
use mochi_warabi.Prelude.{
  ℕ, ◌≡◌, String, Bool, true, false, List, [], ◌∷◌, Option, none, some, length, if◌then◌else◌, leb,
}
use mochi_warabi.Run.{Run, done, raise, undef, ◌>>=◌}
use mochi_warabi.Bytes.{Bytes, load, patch, store}
use mochi_warabi.Result.{
  Result, BoolResult, success_bool, check, value_or_throw, check_bool, save, restore, save_bool,
  restore_bool, succeed,
}
use mochi_warabi.RegionId.{RegionId}
use mochi_warabi.Segments.{Segment, total_size}
use mochi_warabi.Network.{Network}
use mochi_warabi.Backend.{Backend}
use mochi_warabi.AsyncRequest.{AsyncRequestImpl}
use mochi_warabi.Provider.{
  Provider, Unset, create_rpc, write_rpc, write_eager_rpc, persist_rpc, create_write_rpc,
  create_write_eager_rpc, read_rpc, read_eager_rpc, erase_rpc,
}

-- `is_valid` is that the handle has a `TargetHandleImpl`.
pub record TargetHandle : Type 0 where
  pub is_valid : Bool
  pub eager_write_threshold : ℕ
  pub eager_read_threshold : ℕ

abbrev pub default_handle : TargetHandle
default_handle = record {
  is_valid = true;
  eager_write_threshold = 2048;
  eager_read_threshold = 2048;
}

-- What a call gives: its value, or a request whose callback gives it later.
pub data Outcome {ℓ} (A : Type ℓ) : Type ℓ where
  returned : A → Outcome A
  requested : AsyncRequestImpl A → Outcome A

abbrev pub invalid_handle : String
invalid_handle = "Invalid warabi::TargetHandle object"

-- Thallium's exception for a response that does not deserialize.
unfoldable pub transport : BoolResult → Run BoolResult
transport r = elim (restore_bool success_bool (save_bool r)) [
  | none ↦ raise "invalid archive"
  | some (received, _) ↦ done received
]

unfoldable pub transport_value {ℓ} : {A : Type ℓ} → A → Result A → Run (Result A)
transport_value a r = elim (restore (succeed a) (save r)) [
  | none ↦ raise "invalid archive"
  | some (received, _) ↦ done received
]

unfoldable pub set_eager_write_threshold : TargetHandle → ℕ → Run TargetHandle
set_eager_write_threshold h size =
    if h.is_valid then done (record h { eager_write_threshold = size }) else raise invalid_handle

unfoldable pub set_eager_read_threshold : TargetHandle → ℕ → Run TargetHandle
set_eager_read_threshold h size =
    if h.is_valid then done (record h { eager_read_threshold = size }) else raise invalid_handle

-- What a call does once the request is sent: it waits and gives what its synchronous branch gives,
-- or stores the callback of its asynchronous branch.
unfoldable pub respond {ℓ κ} :
    {A : Type ℓ} {S : Type κ} → Bool → S → Run A → Run A → Run (Outcome A × S)
respond true s synchronous callback =
    done (requested (record { waited = false; callback = callback }), s)
respond false s synchronous callback = do a ← synchronous; done (returned a, s)

-- `if(region) *region = response.valueOrThrow(); else response.check();`, with what `*region` is
-- assigned.
unfoldable pub assign_or_check : Bool → Result RegionId → Run (Option RegionId)
assign_or_check true response = value_or_throw response >>= λ id. done (some id)
assign_or_check false response = check response >>= λ _. done none

-- `if(region) *region = response.valueOrThrow();`
unfoldable pub assign_or_throw : Bool → Result RegionId → Run (Option RegionId)
assign_or_throw true response = value_or_throw response >>= λ id. done (some id)
assign_or_throw false response = done none

-- `if(region) *region = response.value();`
unfoldable pub assign_unchecked : Bool → Result RegionId → Run (Option RegionId)
assign_unchecked true response = done (some response.value)
assign_unchecked false response = done none

module _ (N : Network) (B : Backend N) (unset : Unset) (client : N.Endpoint) where
  open N use {Remote, Bulk}

  abbrev pub World : Type 0
  World = Remote × Provider N B

  -- The response to a request, as the client receives it.
  unfoldable pub on_status : Remote → Run (BoolResult × Provider N B) → Run (BoolResult × World)
  on_status w handler = do
    (response, p) ← handler
    received ← transport response
    done (received, (w, p))

  unfoldable pub on_value {ℓ} :
      {A : Type ℓ} → A → Remote → Run (Result A × Provider N B) → Run (Result A × World)
  on_value initial w handler = do
    (response, p) ← handler
    received ← transport_value initial response
    done (received, (w, p))

  unfoldable pub create :
      TargetHandle → World → Bool → ℕ → Bool → Run (Outcome (Option RegionId) × World)
  unfolding respond on_value
  create h (w, p) region size asynchronous =
      if h.is_valid
      then (do
        (response, s) ← on_value unset.region_id w (create_rpc N B unset p size)
        respond asynchronous s (assign_or_throw region response) (assign_unchecked region response))
      else raise invalid_handle

  unfoldable pub write_from_bulk :
      TargetHandle
      → World
      → RegionId
      → List Segment
      → Bulk
      → String
      → ℕ
      → Bool
      → Bool
      → Run (Outcome (Unit {0}) × World)
  unfolding respond on_status
  write_from_bulk h (w, p) region region_offset_sizes bulk address bulk_offset persist
        asynchronous =
      if h.is_valid
      then (do
        (response, s) ← on_status w (
            write_rpc N B unset w client p region region_offset_sizes bulk address bulk_offset
              persist)
        respond asynchronous s (check_bool response) (check_bool response))
      else raise invalid_handle

  -- `data` is the memory that `const char* data` points to; its first `size` bytes are sent.
  unfoldable pub write :
      TargetHandle
      → World
      → RegionId
      → List Segment
      → Bytes
      → Bool
      → Bool
      → Run (Outcome (Unit {0}) × World)
  unfolding respond on_status write_from_bulk
  write h (w, p) region region_offset_sizes ptr persist asynchronous =
      if h.is_valid
      then (do
        let size = total_size region_offset_sizes
        content ← load ptr 0 size
        if leb h.eager_write_threshold size
            then (do
              let (bulk, w') = N.expose w client content
              write_from_bulk h (w', p) region region_offset_sizes bulk "" 0 persist asynchronous)
            else (do
              (response, s) ←
                  on_status w
                    (write_eager_rpc N B unset p region region_offset_sizes content persist)
              respond asynchronous s (check_bool response) (check_bool response)))
      else raise invalid_handle

  unfoldable pub persist :
      TargetHandle → World → RegionId → List Segment → Bool → Run (Outcome (Unit {0}) × World)
  unfolding respond on_status
  persist h (w, p) region region_offset_sizes asynchronous =
      if h.is_valid
      then (do
        (response, s) ← on_status w (persist_rpc N B unset p region region_offset_sizes)
        respond asynchronous s (check_bool response) (check_bool response))
      else raise invalid_handle

  unfoldable pub create_and_write_from_bulk :
      TargetHandle
      → World
      → Bool
      → Bulk
      → String
      → ℕ
      → ℕ
      → Bool
      → Bool
      → Run (Outcome (Option RegionId) × World)
  unfolding respond on_value
  create_and_write_from_bulk h (w, p) region bulk address bulk_offset size persist asynchronous =
      if h.is_valid
      then (do
        (response, s) ←
            on_value unset.region_id w
              (create_write_rpc N B unset w client p bulk address bulk_offset size persist)
        respond asynchronous s (assign_or_check region response) (assign_or_check region response))
      else raise invalid_handle

  unfoldable pub create_and_write :
      TargetHandle → World → Bool → Bytes → Bool → Bool → Run (Outcome (Option RegionId) × World)
  unfolding respond on_value create_and_write_from_bulk
  create_and_write h (w, p) region content persist asynchronous =
      if h.is_valid
      then (if leb h.eager_write_threshold (length content)
          then (do
            let (bulk, w') = N.expose w client content
            create_and_write_from_bulk h (w', p) region bulk "" 0 (length content) persist
                asynchronous)
          else (do
            (response, s) ←
                on_value unset.region_id w (create_write_eager_rpc N B unset p content persist)
            respond asynchronous s (assign_or_check region response)
                (assign_or_check region response)))
      else raise invalid_handle

  unfoldable pub read_to_bulk :
      TargetHandle
      → World
      → RegionId
      → List Segment
      → Bulk
      → String
      → ℕ
      → Bool
      → Run (Outcome (Unit {0}) × World)
  unfolding respond
  read_to_bulk h (w, p) region region_offset_sizes bulk address bulk_offset asynchronous =
      if h.is_valid
      then (do
        (response, w', p') ←
            read_rpc N B unset w client p region region_offset_sizes bulk address bulk_offset
        received ← transport response
        respond asynchronous (w', p') (check_bool received) (check_bool received))
      else raise invalid_handle

  unfoldable pub erase : TargetHandle → World → RegionId → Bool → Run (Outcome (Unit {0}) × World)
  unfolding respond on_status
  erase h (w, p) region asynchronous =
      if h.is_valid
      then (do
        (response, s) ← on_status w (erase_rpc N B unset p region)
        respond asynchronous s (check_bool response) (check_bool response))
      else raise invalid_handle

  -- What the memory at `data` holds, whose first bytes are exposed, once the transfer has been made
  -- and checked.
  abbrev pub landed : Bytes → Bulk → Outcome (Unit {0}) × World → Outcome Bytes × World
  landed ptr bulk (returned u, (w, p)) = (returned (patch ptr 0 (N.contents w client bulk)), (w, p))
  landed ptr bulk (requested r, (w, p)) = (
    requested (record {
      waited = r.waited;
      callback = r.callback >>= λ _. done (patch ptr 0 (N.contents w client bulk));
    }),
    (w, p),
  )

  -- The `memcpy` of an eager response, after its check: what `data` then holds.
  unfoldable pub copy_response : Bytes → ℕ → Result Bytes → Run Bytes
  copy_response ptr size response =
      check response >>= λ _. load response.value 0 size >>= store ptr 0

  -- `ptr` is what the memory at `data` held; the call gives what it holds then.
  unfoldable pub read :
      TargetHandle → World → RegionId → List Segment → Bytes → Bool → Run (Outcome Bytes × World)
  unfolding respond on_value read_to_bulk copy_response
  read h (w, p) region region_offset_sizes ptr asynchronous =
      if h.is_valid
      then (do
        let size = total_size region_offset_sizes
        if leb h.eager_read_threshold size
            then (do
              exposed ← load ptr 0 size
              let (bulk, w') = N.expose w client exposed
              outcome ← read_to_bulk h (w', p) region region_offset_sizes bulk "" 0 asynchronous
              done (landed ptr bulk outcome))
            else (do
              (response, s) ← on_value [] w (read_eager_rpc N B unset p region region_offset_sizes)
              respond asynchronous s (copy_response ptr size response)
                  (copy_response ptr size response)))
      else raise invalid_handle
