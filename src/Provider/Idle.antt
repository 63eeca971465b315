-- ===== src/Provider/Idle.antt =====
-- What the handlers of src/ProviderImpl.hpp need of a backend's lock, and sequences of requests.
pub mod Requests
pub mod Mutex
use mochi_warabi.Prelude.{ℕ, String, Bool, List, [], ◌∷◌, Option, none, some, if◌then◌else◌}
use mochi_warabi.Run.{Run, done, ◌>>=◌, Ends}
use mochi_warabi.Bytes.{Bytes}
use mochi_warabi.Result.{Result, BoolResult}
use mochi_warabi.RegionId.{RegionId}
use mochi_warabi.Segments.{Segment}
use mochi_warabi.Network.{Network}
use mochi_warabi.Backend.{Backend}
use mochi_warabi.DefaultTransfer.{TransferManager}
use mochi_warabi.Provider.{
  Provider, Unset, create_rpc, write_rpc, write_eager_rpc, persist_rpc, create_write_rpc,
  create_write_eager_rpc, read_rpc, read_eager_rpc, erase_rpc,
}

-- A request, with the arguments that the client serializes.
pub data Request (N : Network) : Type 0 where
  create : ℕ → Request N
  write : RegionId → List Segment → N.Bulk → String → ℕ → Bool → Request N
  write_eager : RegionId → List Segment → Bytes → Bool → Request N
  persist : RegionId → List Segment → Request N
  create_write : N.Bulk → String → ℕ → ℕ → Bool → Request N
  create_write_eager : Bytes → Bool → Request N
  read : RegionId → List Segment → N.Bulk → String → ℕ → Request N
  read_eager : RegionId → List Segment → Request N
  erase : RegionId → Request N

pub data Response : Type 0 where
  status : BoolResult → Response
  region : Result RegionId → Response
  content : Result Bytes → Response

module _ (N : Network) (B : Backend N) (unset : Unset) where
  open N use {Remote, Endpoint}

  abbrev pub State : Type 0
  State = Remote × Provider N B

  abbrev pub answer {ℓ} :
      {A : Type ℓ} → Remote → (A → Response) → Run (A × Provider N B) → Run (Response × State)
  answer w reply m = do (result, p) ← m; done (reply result, (w, p))

  -- The handler that each RPC is registered with.
  unfoldable pub serve : Endpoint → State → Request N → Run (Response × State)
  serve e (w, p) (create size) = answer w region (create_rpc N B unset p size)
  serve e (w, p) (write id ss bulk address offset durable) =
      answer w status (write_rpc N B unset w e p id ss bulk address offset durable)
  serve e (w, p) (write_eager id ss buffer durable) =
      answer w status (write_eager_rpc N B unset p id ss buffer durable)
  serve e (w, p) (persist id ss) = answer w status (persist_rpc N B unset p id ss)
  serve e (w, p) (create_write bulk address offset size durable) =
      answer w region (create_write_rpc N B unset w e p bulk address offset size durable)
  serve e (w, p) (create_write_eager buffer durable) =
      answer w region (create_write_eager_rpc N B unset p buffer durable)
  serve e (w, p) (read id ss bulk address offset) = do
    (result, w', p') ← read_rpc N B unset w e p id ss bulk address offset
    done (status result, (w', p'))
  serve e (w, p) (read_eager id ss) = answer w content (read_eager_rpc N B unset p id ss)
  serve e (w, p) (erase id) = answer w status (erase_rpc N B unset p id)

  -- Requests that are served one after the other.
  unfoldable pub serve_all : Endpoint → State → List (Request N) → Run (List Response × State)
  unfolding serve
  serve_all e s [] = done ([], s)
  serve_all e s (r ∷ rs) = do
    (response, s') ← serve e s r
    (responses, s'') ← serve_all e s' rs
    done (response ∷ responses, s'')

-- What an operation that opens a region leaves: a handle that is alive, or none.
abbrev pub Opened :
    {Target Region : Type 0}
    → (Target → Type 0)
    → (Target → Type 0)
    → Option Region
    → Target
    → Type 0
Opened Idle Held none t = Idle t
Opened Idle Held (some r) t = Held t

-- A lock discipline for a backend and a transfer manager: `Idle` when no handle is alive, `Held`
-- while one is. Every operation that the provider calls keeps to it, and none waits.
pub record IsDisciplined (N : Network) (B : Backend N) (T : TransferManager N B) : Type 1 where
  pub Idle : B.Target → Type 0
  pub Held : B.Target → Type 0
  pub create_lem :
      (t : B.Target) (size : ℕ)
      → Idle t
      → Ends (λ a. Opened Idle Held a.0.value a.1) (B.create t size)
  pub write_lem :
      (t : B.Target) (id : RegionId) (persist : Bool)
      → Idle t
      → Ends (λ a. Opened Idle Held a.0.value a.1) (B.write t id persist)
  pub read_lem :
      (t : B.Target) (id : RegionId)
      → Idle t
      → Ends (λ a. Opened Idle Held a.0.value a.1) (B.read t id)
  pub erase_lem : (t : B.Target) (id : RegionId) → Idle t → Ends (λ a. Idle a.1) (B.erase t id)
  pub region_write_lem :
      (t : B.Target) (r : B.Region) (ss : List Segment) (d : Bytes) (persist : Bool)
      → Held t
      → Ends (λ a. Held a.1) (B.region_write t r ss d persist)
  pub region_persist_lem :
      (t : B.Target) (r : B.Region) (ss : List Segment)
      → Held t
      → Ends (λ a. Held a.1) (B.region_persist t r ss)
  pub region_read_lem :
      (t : B.Target) (r : B.Region) (ss : List Segment) (buffer : Bytes)
      → Held t
      → Ends (λ a. Held a.2) (B.region_read t r ss buffer)
  pub pull_lem :
      (w : N.Remote) (t : B.Target) (r : B.Region) (ss : List Segment) (bulk : N.Bulk)
      (e : N.Endpoint) (offset : ℕ) (persist : Bool)
      → Held t
      → Ends (λ a. Held a.1) (T.pull w t r ss bulk e offset persist)
  pub push_lem :
      (w : N.Remote) (t : B.Target) (r : B.Region) (ss : List Segment) (bulk : N.Bulk)
      (e : N.Endpoint) (offset : ℕ)
      → Held t
      → Ends (λ a. Held a.2) (T.push w t r ss bulk e offset)
  pub close_lem : (t : B.Target) (r : B.Region) → Held t → Ends Idle (B.close t r)
