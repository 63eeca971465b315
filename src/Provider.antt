-- ===== src/Provider.antt =====
-- src/ProviderImpl.hpp: the handlers of the provider's RPCs. A handler takes the provider and
-- returns the response that `tl::auto_respond` sends, beside the provider's new state. The region
-- handle is local to a handler, so that it is closed before the handler responds.
pub mod Idle
pub mod Stored
pub mod Spec
pub mod Setup
use mochi_warabi.Prelude.{
  ℕ, ◌≡◌, String, Bool, true, false, List, [], ◌∷◌, Option, none, some, length, if◌then◌else◌,
  str_eq,
}
use mochi_warabi.Run.{Run, done, undef, ◌>>=◌}
use mochi_warabi.Bytes.{Bytes}
use mochi_warabi.Result.{Result, BoolResult, succeed, fail, success_bool, fail_bool}
use mochi_warabi.RegionId.{RegionId}
use mochi_warabi.Segments.{Segment, total_size}
use mochi_warabi.Network.{Network}
use mochi_warabi.Backend.{Backend}
use mochi_warabi.DefaultTransfer.{TransferManager}

pub record Provider (N : Network) (B : Backend N) : Type 0 where
  pub target : Option B.Target
  pub transfer_manager : TransferManager N B

-- What a default constructed value or a new buffer holds before it is assigned.
pub record Unset : Type 0 where
  pub region_id : RegionId
  pub buffer : ℕ → Bytes

-- `*region.value()`
abbrev pub dereference {ℓ} : {A : Type ℓ} → Option A → Run A
dereference none = undef
dereference (some a) = done a

abbrev pub no_target : String
no_target = "No target found in the provider"

module _ (N : Network) (B : Backend N) (unset : Unset) where
  open N use {Remote, Bulk, Endpoint}
  open B use {Target, Region}

  -- The destructor of the `unique_ptr` to a region.
  unfoldable pub release : Target → Option Region → Run Target
  release t none = done t
  release t (some r) = B.close t r

  -- `address.empty() ? req.get_endpoint() : m_engine.lookup(address)`
  unfoldable pub source_of : Endpoint → String → Run Endpoint
  source_of sender address = if str_eq address "" then done sender else N.lookup address

  abbrev pub attached : Provider N B → Target → Provider N B
  attached p t = record p { target = some t }

  -- The early return of a handler that could not open a region.
  unfoldable pub refuse {ℓ} :
      {A : Type ℓ} → Provider N B → Target → Option Region → A → Run (A × Provider N B)
  unfolding release
  refuse p t region result = do t ← release t region; done (result, attached p t)

  unfoldable pub create_rpc : Provider N B → ℕ → Run (Result RegionId × Provider N B)
  unfolding release refuse
  create_rpc p size = elim p.target [
    | none ↦ done (fail no_target unset.region_id, p)
    | some t ↦ do
      (region, t) ← B.create t size
      if region.success
          then (do
            r ← dereference region.value
            let result = B.get_region_id r
            t ← B.close t r
            done (result, attached p t))
          else refuse p t region.value (fail region.error unset.region_id)
  ]

  unfoldable pub write_rpc :
      Remote
      → Endpoint
      → Provider N B
      → RegionId
      → List Segment
      → Bulk
      → String
      → ℕ
      → Bool
      → Run (BoolResult × Provider N B)
  unfolding release refuse source_of
  write_rpc w sender p region_id region_offset_sizes bulk address bulk_offset persist =
      elim p.target [
        | none ↦ done (fail_bool no_target, p)
        | some t ↦ do
          (region, t) ← B.write t region_id persist
          if region.success
              then (do
                source ← source_of sender address
                r ← dereference region.value
                (result, t) ←
                    p.transfer_manager.pull w t r region_offset_sizes bulk source bulk_offset
                      persist
                t ← B.close t r
                done (result, attached p t))
              else refuse p t region.value (fail_bool region.error)
      ]

  unfoldable pub write_eager_rpc :
      Provider N B → RegionId → List Segment → Bytes → Bool → Run (BoolResult × Provider N B)
  unfolding release refuse
  write_eager_rpc p region_id region_offset_sizes buffer persist = elim p.target [
    | none ↦ done (fail_bool no_target, p)
    | some t ↦ do
      (region, t) ← B.write t region_id persist
      if region.success
          then (do
            r ← dereference region.value
            (result, t) ← B.region_write t r region_offset_sizes buffer persist
            t ← B.close t r
            done (result, attached p t))
          else refuse p t region.value (fail_bool region.error)
  ]

  unfoldable pub persist_rpc :
      Provider N B → RegionId → List Segment → Run (BoolResult × Provider N B)
  unfolding release refuse
  persist_rpc p region_id region_offset_sizes = elim p.target [
    | none ↦ done (fail_bool no_target, p)
    | some t ↦ do
      (region, t) ← B.write t region_id true
      if region.success
          then (do
            r ← dereference region.value
            (result, t) ← B.region_persist t r region_offset_sizes
            t ← B.close t r
            done (result, attached p t))
          else refuse p t region.value (fail_bool region.error)
  ]

  -- What `create_write` and `create_write_eager` answer: the id, or the error of the write.
  abbrev pub after_write : Result RegionId → BoolResult → Result RegionId
  after_write result write_result =
      if write_result.success
      then result
      else record result { success = false; error = write_result.error }

  unfoldable pub create_write_rpc :
      Remote
      → Endpoint
      → Provider N B
      → Bulk
      → String
      → ℕ
      → ℕ
      → Bool
      → Run (Result RegionId × Provider N B)
  unfolding release refuse source_of
  create_write_rpc w sender p bulk address bulk_offset size persist = elim p.target [
    | none ↦ done (fail no_target unset.region_id, p)
    | some t ↦ do
      (region, t) ← B.create t size
      if region.success
          then (do
            r ← dereference region.value
            let result = B.get_region_id r
            source ← source_of sender address
            (write_result, t) ←
                p.transfer_manager.pull w t r ((0, size) ∷ []) bulk source bulk_offset persist
            t ← B.close t r
            done (after_write result write_result, attached p t))
          else refuse p t region.value (fail region.error unset.region_id)
  ]

  unfoldable pub create_write_eager_rpc :
      Provider N B → Bytes → Bool → Run (Result RegionId × Provider N B)
  unfolding release refuse
  create_write_eager_rpc p buffer persist = elim p.target [
    | none ↦ done (fail no_target unset.region_id, p)
    | some t ↦ do
      (region, t) ← B.create t (length buffer)
      if region.success
          then (do
            r ← dereference region.value
            let result = B.get_region_id r
            (write_result, t) ← B.region_write t r ((0, length buffer) ∷ []) buffer persist
            t ← B.close t r
            done (after_write result write_result, attached p t))
          else refuse p t region.value (fail region.error unset.region_id)
  ]

  -- `read` and `read_eager` test the pointer, not the success.
  unfoldable pub read_rpc :
      Remote
      → Endpoint
      → Provider N B
      → RegionId
      → List Segment
      → Bulk
      → String
      → ℕ
      → Run (BoolResult × Remote × Provider N B)
  unfolding source_of
  read_rpc w sender p region_id region_offset_sizes bulk address bulk_offset = elim p.target [
    | none ↦ done (fail_bool no_target, w, p)
    | some t ↦ do
      (region, t) ← B.read t region_id
      elim region.value [
        | none ↦ done (fail_bool region.error, w, attached p t)
        | some r ↦ do
          source ← source_of sender address
          (result, w, t) ← p.transfer_manager.push w t r region_offset_sizes bulk source bulk_offset
          t ← B.close t r
          done (result, w, attached p t)
      ]
  ]

  unfoldable pub read_eager_rpc :
      Provider N B → RegionId → List Segment → Run (Result Bytes × Provider N B)
  read_eager_rpc p region_id region_offset_sizes = elim p.target [
    | none ↦ done (fail no_target [], p)
    | some t ↦ do
      (region, t) ← B.read t region_id
      elim region.value [
        | none ↦ done (fail region.error [], attached p t)
        | some r ↦ do
          let buffer = unset.buffer (total_size region_offset_sizes)
          (ret, content, t) ← B.region_read t r region_offset_sizes buffer
          t ← B.close t r
          done (if ret.success then succeed content else fail ret.error content, attached p t)
      ]
  ]

  unfoldable pub erase_rpc : Provider N B → RegionId → Run (BoolResult × Provider N B)
  erase_rpc p region_id = elim p.target [
    | none ↦ done (fail_bool no_target, p)
    | some t ↦ do (result, t) ← B.erase t region_id; done (result, attached p t)
  ]

  -- The destructor: the target is destroyed if there is one, and its result is dropped.
  unfoldable pub shutdown : Provider N B → Run (Provider N B)
  shutdown p = elim p.target [
    | none ↦ done p
    | some t ↦ do (result, t) ← B.destroy t; done (attached p t)
  ]
