-- ===== src/Network.antt =====
-- What the code uses of Thallium's transport, which is not part of the repository: remote memory,
-- the lookup of an address, and the two RDMA transfers between a remote bulk and local segments.
use mochi_warabi.Prelude.{ℕ, ◌≡◌, String, length}
use mochi_warabi.Run.{Run, done, Ends}
use mochi_warabi.Bytes.{Bytes}

-- `Remote` is the memory that the processes have exposed.
pub record Network : Type 1 where
  pub Remote : Type 0
  pub Endpoint : Type 0
  pub Bulk : Type 0
  -- `engine.lookup(address)`
  pub lookup : String → Run Endpoint
  -- `local << bulk.on(address)(offset, size)`: the bytes that arrive
  pub pull : Remote → Endpoint → Bulk → ℕ → ℕ → Run Bytes
  -- `local >> bulk.on(address)(offset, size)`, with the bytes that leave
  pub push : Remote → Endpoint → Bulk → ℕ → Bytes → Run Remote
  -- `engine.expose` of a buffer by the process at an endpoint
  pub expose : Remote → Endpoint → Bytes → Bulk × Remote
  -- what the owner of an exposed buffer finds in it
  pub contents : Remote → Endpoint → Bulk → Bytes

-- What Thallium documents of these.
pub record IsFaithful (N : Network) : Type 0 where
  pub pull-expose :
      (w : N.Remote) (e : N.Endpoint) (d : Bytes) (n : ℕ)
      → n ≡ length d
      → N.pull (N.expose w e d).1 e (N.expose w e d).0 0 n ≡ done d
  pub contents-expose :
      (w : N.Remote) (e : N.Endpoint) (buf : Bytes)
      → N.contents (N.expose w e buf).1 e (N.expose w e buf).0 ≡ buf
  pub push-expose :
      (w : N.Remote) (e : N.Endpoint) (buf d : Bytes)
      → length d ≡ length buf
      → (w' : N.Remote) × (N.push (N.expose w e buf).1 e (N.expose w e buf).0 0 d ≡ done w')
        × (N.contents w' e (N.expose w e buf).0 ≡ d)
  pub length-pull :
      (w : N.Remote) (e : N.Endpoint) (b : N.Bulk) (off n : ℕ) (d : Bytes)
      → N.pull w e b off n ≡ done d
      → length d ≡ n

-- A lookup or a transfer ends, by a value or by an error.
pub record IsPrompt (N : Network) : Type 0 where
  pub lookup_ends : (address : String) → Ends (λ e. Unit {0}) (N.lookup address)
  pub pull_ends :
      (w : N.Remote) (e : N.Endpoint) (b : N.Bulk) (offset n : ℕ)
      → Ends (λ d. Unit {0}) (N.pull w e b offset n)
  pub push_ends :
      (w : N.Remote) (e : N.Endpoint) (b : N.Bulk) (offset : ℕ) (d : Bytes)
      → Ends (λ w'. Unit {0}) (N.push w e b offset d)
