-- ===== src/Examples/Services.antt =====
-- Sequences of requests to a provider, and the copies of an asynchronous request, at concrete inputs.
use mochi_warabi.Prelude.{
  ℕ, Bool, false, ◌≡◌, ◌≢◌, ◌≤◌, ◌⊎◌, refl, true, false, List, [], ◌∷◌, some, map, arith,
}
use mochi_warabi.Run.{done, raise, undef}
use mochi_warabi.DefaultTransfer.{default_transfer}
use mochi_warabi.Examples.{one_buffer-IsPrompt}
use mochi_warabi.Prelude.{String}
use mochi_warabi.Provider.Idle.{Response}
use mochi_warabi.Provider.Idle.Requests.{IsIdle, serve_all-IsIdle}
use mochi_warabi.Provider.Idle.Mutex.{mutex_discipline, Unlocked-IsIdle}
use mochi_warabi.RegionId.{index_size_to_region_id}
use mochi_warabi.RegionId.RoundTrip.{index-index_size_to_region_id}
use mochi_warabi.Examples.{one_buffer, zeros, zeros-length}
use mochi_warabi.Examples.Targets.{
  target, id0, ends, small_word, old_bytes, new_bytes, sevens, ends-Fits,
}
use mochi_warabi.Provider.{Provider}
use mochi_warabi.Memory.{memory_backend}
use mochi_warabi.Provider.Stored.{provider_of}
use mochi_warabi.Provider.Idle.{serve_all}
use mochi_warabi.Provider.Spec.{Store, Eager, request_of, find, step, replay, AllAllowed}
use mochi_warabi.Provider.Spec.Refines.{at_rest, store_provider, serve_all-replay}
use mochi_warabi.AsyncRequest.Lifetime.{
  Shared, Objects, put, copy, Operation, perform, assign_copy, replaced, wait_shared, drop_request,
  Reach, fresh, Reach-runs,
}

-- One region of four bytes, and a sequence of requests about it and a new one.
abbrev stored : Store
stored = old_bytes ∷ []

abbrev requests : List Eager
requests =
    Eager.create 2
    ∷ Eager.write_eager id0 ends new_bytes true
    ∷ Eager.create_write_eager sevens false
    ∷ Eager.erase (index_size_to_region_id 1 2)
    ∷ []

requests_allowed : AllAllowed stored requests
unfolding step find
requests_allowed = (
  tt,
  (
    rw (index-index_size_to_region_id 0 4 (omega arith)) ends-Fits,
    (small_word 2 (omega arith), (tt, tt)),
  ),
)

abbrev waiting_state : one_buffer.Remote × Provider one_buffer (memory_backend one_buffer)
waiting_state = ([], provider_of one_buffer target)

-- An object that nobody shares any more and that was waited for.
abbrev gone : Shared
gone = record { uses = 0; waited = true; fails = false; runs = 1 }

-- Two requests: the first one is assigned to the second one, whose object is waited for, and then
-- both go.
abbrev none_fails : ℕ → Bool
none_fails i = false

abbrev assigned : Objects
assigned = put 0 (copy (fresh none_fails 0)) (put 1 gone (fresh none_fails))

abbrev shared_once : Objects
shared_once = put 0 (fresh none_fails 0) assigned

abbrev dropped : Objects
dropped = put 0 gone shared_once

assigned_and_dropped : Reach (fresh none_fails) dropped
unfolding perform assign_copy replaced wait_shared copy drop_request
assigned_and_dropped =
    Reach.next {o = shared_once} (Operation.drops 0)
      (Reach.next {o = assigned} (Operation.drops 0)
        (Reach.next {o = fresh none_fails} (Operation.assigns_copy (some 1) (some 0)) Reach.here
          ((λ e. omega (arith, e)), (λ e. omega (arith, e))) refl)
        (λ e. omega (arith, e)) refl)
      (λ e. omega (arith, e)) refl

serve_all-replay_example :
    serve_all one_buffer
      (memory_backend one_buffer)
      zeros
      tt
      (([]), store_provider one_buffer zeros ("{}") stored)
      (map (request_of one_buffer) requests)
    ≡ done (
      (replay stored requests).0,
      (([]), store_provider one_buffer zeros ("{}") (replay stored requests).1),
    )
serve_all-replay_example =
    serve_all-replay one_buffer zeros ("{}") ([]) tt stored requests zeros-length requests_allowed

Reach-runs_example : ((dropped 1).runs ≤ 1) × (((dropped 1).runs ≡ 1) ⊎ ((dropped 1).uses ≢ 0))
Reach-runs_example = Reach-runs none_fails dropped 1 assigned_and_dropped

-- The run of `serve_all-replay_example`, which ends with responses.
serve_all-IsIdle_example :
    ((a : List Response × (one_buffer.Remote × Provider one_buffer (memory_backend one_buffer)))
      × (serve_all one_buffer
            (memory_backend one_buffer)
            zeros
            tt
            (([]), store_provider one_buffer zeros ("{}") stored)
            (map (request_of one_buffer) requests)
          ≡ done a)
      × IsIdle one_buffer
          (memory_backend one_buffer)
          (default_transfer one_buffer (memory_backend one_buffer))
          (mutex_discipline one_buffer one_buffer-IsPrompt)
          zeros
          (λ address. tt)
          a.1.1)
    ⊎ (((message : String) × (serve_all one_buffer
              (memory_backend one_buffer)
              zeros
              tt
              (([]), store_provider one_buffer zeros ("{}") stored)
              (map (request_of one_buffer) requests)
            ≡ raise message))
        ⊎ (serve_all one_buffer
              (memory_backend one_buffer)
              zeros
              tt
              (([]), store_provider one_buffer zeros ("{}") stored)
              (map (request_of one_buffer) requests)
            ≡ undef))
serve_all-IsIdle_example =
    serve_all-IsIdle one_buffer (memory_backend one_buffer)
      (default_transfer one_buffer (memory_backend one_buffer))
      (mutex_discipline one_buffer one_buffer-IsPrompt) zeros (λ address. tt) tt ([])
      (store_provider one_buffer zeros ("{}") stored) (map (request_of one_buffer) requests)
      (Unlocked-IsIdle one_buffer one_buffer-IsPrompt zeros (λ address. tt) (at_rest ("{}") stored)
        refl)
