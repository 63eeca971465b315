-- ===== src/AsyncRequest.antt =====
-- src/AsyncRequest.cpp and src/AsyncRequestImpl.hpp: the result of a call that has not been waited
-- for. Copies of a request share one `AsyncRequestImpl`; a request that has none is null.
pub mod Lifetime
use mochi_warabi.Prelude.{Bool, true, Option, none, some, if◌then◌else◌}
use mochi_warabi.Run.{Run, done, raise, ◌>>=◌}

-- `callback` is `m_wait_callback` with the response that it waits for, and what it gives.
pub record AsyncRequestImpl {ℓ} (A : Type ℓ) : Type ℓ where
  pub waited : Bool
  pub callback : Run A

module _ {ℓ} {A : Type ℓ} where
  -- `none` is a call that returns at once. The flag is set before the callback runs, so that the
  -- request has its new state also when the callback throws.
  unfoldable pub wait : Option (AsyncRequestImpl A) → Run (Option A) × Option (AsyncRequestImpl A)
  wait none = (raise "Invalid warabi::AsyncRequest object", none)
  wait (some r) =
      if r.waited
      then (done none, some r)
      else (r.callback >>= λ a. done (some a), some (record r { waited = true }))
