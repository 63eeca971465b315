-- ===== src/TargetHandle/Waiting.antt =====
-- Asynchronous calls of src/TargetHandle.cpp, and what src/AsyncRequest.cpp makes of them.
use mochi_warabi.Prelude.{
  ℕ, ◌≡◌, refl, String, Bool, true, false, List, Option, none, some, length, leb, Bool-cases, inl,
  inr, ◌⊎◌,
}
use mochi_warabi.Run.{Run, done, raise, undef, stuck, ◌>>=◌}
use mochi_warabi.Bytes.{Bytes, load}
use mochi_warabi.Result.{fail, value_or_throw, save, restore}
use mochi_warabi.RegionId.{RegionId}
use mochi_warabi.Segments.{Segment, total_size}
use mochi_warabi.Network.{Network}
use mochi_warabi.Backend.{Backend}
use mochi_warabi.AsyncRequest.{AsyncRequestImpl, wait}
use mochi_warabi.Provider.{
  Provider, Unset, create_rpc, write_eager_rpc, persist_rpc, erase_rpc, create_write_eager_rpc,
  write_rpc, create_write_rpc,
}
use mochi_warabi.TargetHandle.{
  TargetHandle, Outcome, returned, requested, create, write, write_from_bulk, persist,
  create_and_write, create_and_write_from_bulk, erase, respond, on_value, on_status,
  transport_value, assign_or_throw, assign_unchecked, World,
}

-- Whatever a request's callback does, exceptions included, a request has been waited for after the
-- first `wait`, and a second one does nothing: it gives no value and leaves the request as it is. A
-- null request throws every time.
pub wait-wait {ℓ} :
    {A : Type ℓ} (request : Option (AsyncRequestImpl A))
    → ((request ≡ none) × ((wait request).0 ≡ raise "Invalid warabi::AsyncRequest object"))
      ⊎ ((wait (wait request).1).0 ≡ done none) × ((wait (wait request).1).1 ≡ (wait request).1)
unfolding wait
wait-wait none = inl (refl, refl)
wait-wait (some r) = elim (Bool-cases r.waited) [
  | inl e ↦ inr (rw e (refl, refl))
  | inr e ↦ inr (rw e (refl, refl))
]

-- What the caller has after a first `wait`. A second one would give nothing.
abbrev pub waited_for : {A S : Type 0} → S → Option A → Run (Outcome A × S)
waited_for s none = undef
waited_for s (some a) = done (returned a, s)

-- The first run ends with a request that was not waited for, and waiting for it then ends as the
-- second run does; or neither run ends with a value, and both for the same reason.
abbrev pub Deferred : {A S : Type 0} → Run (Outcome A × S) → Run (Outcome A × S) → Type 0
Deferred (done (returned a, s)) k = ⊥
Deferred (done (requested r, s)) k = (r.waited ≡ false) × (((wait (some r)).0 >>= waited_for s) ≡ k)
Deferred (raise e) k = k ≡ raise e
Deferred undef k = k ≡ undef
Deferred stuck k = k ≡ stuck

Deferred->>= :
    {A S X : Type 0} (m : Run X) (f g : X → Run (Outcome A × S))
    → ((x : X) → Deferred (f x) (g x))
    → Deferred (m >>= f) (m >>= g)
Deferred->>= (done x) f g h = h x
Deferred->>= (raise e) f g h = refl
Deferred->>= undef f g h = refl
Deferred->>= stuck f g h = refl

respond-Deferred :
    {A S : Type 0} (s : S) (m : Run A) → Deferred (respond true s m m) (respond false s m m)
unfolding respond wait
respond-Deferred s (done a) = (refl, refl)
respond-Deferred s (raise e) = (refl, refl)
respond-Deferred s undef = (refl, refl)
respond-Deferred s stuck = (refl, refl)

module _ (N : Network) (B : Backend N) (unset : Unset) (client : N.Endpoint) where
  -- When the provider answers a `create` with an error: the synchronous call throws it if it was
  -- given a place for the id, and ignores it otherwise; the asynchronous call ignores it in both
  -- cases, and assigns to the id what the response was initialized with.
  pub create_ignores_failure :
      (h : TargetHandle) (w : N.Remote) (p p' : Provider N B) (size : ℕ) (e : String)
      (id : RegionId)
      → h.is_valid ≡ true
      → create_rpc N B unset p size ≡ done (fail e id, p')
      → (create N B unset client h (w, p) true size false ≡ raise e)
        × (create N B unset client h (w, p) false size false ≡ done (returned none, (w, p')))
        × (create N B unset client h (w, p) true size true
            ≡ done (
              requested (record { waited = false; callback = done (some unset.region_id) }),
              (w, p'),
            ))
        × (create N B unset client h (w, p) false size true
            ≡ done (requested (record { waited = false; callback = done none }), (w, p')))
  unfolding create respond on_value transport_value save restore assign_or_throw assign_unchecked
      value_or_throw
  create_ignores_failure h w p p' size e id v c =
      (rw (v, c) refl, rw (v, c) refl, rw (v, c) refl, rw (v, c) refl)

  write_waiting :
      (h : TargetHandle) (w : N.Remote) (p : Provider N B) (id : RegionId) (ss : List Segment)
      (content : Bytes) (durable : Bool)
      → h.is_valid ≡ true
      → Deferred
          (write N B unset client h (w, p) id ss content durable true)
          (write N B unset client h (w, p) id ss content durable false)
  unfolding write write_from_bulk respond
  write_waiting h w p id ss content durable v =
      elim (Bool-cases (leb h.eager_write_threshold (total_size ss))) [
        | inl e ↦
            rw (v, e)
              (Deferred->>= (load content 0 (total_size ss)) _ _ (λ c.
                let (bulk, w') = N.expose w client c in
                Deferred->>=
                  (on_status N B unset client w'
                    (write_rpc N B unset w' client p id ss bulk "" 0 durable))
                  _ _ (λ x. respond-Deferred x.1 _)))
        | inr e ↦
            rw (v, e)
              (Deferred->>= (load content 0 (total_size ss)) _ _ (λ c.
                Deferred->>=
                  (on_status N B unset client w (write_eager_rpc N B unset p id ss c durable)) _ _
                  (λ x. respond-Deferred x.1 _)))
      ]

  create_and_write_waiting :
      (h : TargetHandle) (w : N.Remote) (p : Provider N B) (content : Bytes) (durable want : Bool)
      → h.is_valid ≡ true
      → Deferred
          (create_and_write N B unset client h (w, p) want content durable true)
          (create_and_write N B unset client h (w, p) want content durable false)
  unfolding create_and_write create_and_write_from_bulk respond
  create_and_write_waiting h w p content durable want v =
      elim (Bool-cases (leb h.eager_write_threshold (length content))) [
        | inl e ↦
            let (bulk, w') = N.expose w client content in
            rw (v, e)
              (Deferred->>=
                (on_value N B unset client unset.region_id w'
                  (create_write_rpc N B unset w' client p bulk "" 0 (length content) durable))
                _ _ (λ x. respond-Deferred x.1 _))
        | inr e ↦
            rw (v, e)
              (Deferred->>=
                (on_value N B unset client unset.region_id w
                  (create_write_eager_rpc N B unset p content durable))
                _ _ (λ x. respond-Deferred x.1 _))
      ]

  -- To write, to persist, to create and write and to erase asynchronously, when the provider serves
  -- the request before the call returns: the call leaves a request that was not waited for, and the
  -- first wait for it ends as the synchronous call does, with the same value, the same exception and
  -- the same state; or the call throws, is undefined or waits for ever, as the synchronous one does.
  pub waiting_lem :
      (h : TargetHandle) (s : World N B unset client) (id : RegionId) (ss : List Segment)
      (content : Bytes) (durable want : Bool)
      → (Deferred
          (write N B unset client h s id ss content durable true)
          (write N B unset client h s id ss content durable false))
        × (Deferred
            (persist N B unset client h s id ss true)
            (persist N B unset client h s id ss false))
        × (Deferred
            (create_and_write N B unset client h s want content durable true)
            (create_and_write N B unset client h s want content durable false))
        × (Deferred (erase N B unset client h s id true) (erase N B unset client h s id false))
  unfolding write persist create_and_write erase write_from_bulk create_and_write_from_bulk respond
  waiting_lem h (w, p) id ss content durable want = elim (Bool-cases h.is_valid) [
    | inl v ↦ (
      write_waiting h w p id ss content durable v,
      rw v (
          Deferred->>= (on_status N B unset client w (persist_rpc N B unset p id ss)) _ _
            (λ x. respond-Deferred x.1 _)),
      create_and_write_waiting h w p content durable want v,
      rw v (
          Deferred->>= (on_status N B unset client w (erase_rpc N B unset p id)) _ _
            (λ x. respond-Deferred x.1 _)),
    )
    | inr v ↦ (rw v refl, rw v refl, rw v refl, rw v refl)
  ]
