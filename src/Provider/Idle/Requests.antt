-- ===== src/Provider/Idle/Requests.antt =====
-- The handlers of src/ProviderImpl.hpp and the lock of a target, for a backend that keeps to the
-- lock discipline.
use mochi_warabi.Prelude.{
  ℕ, ◌≡◌, refl, sym, subst, String, Bool, true, false, List, [], ◌∷◌, Option, none, some, length,
  if◌then◌else◌, str_eq, Bool-cases, inl, inr, ◌⊎◌,
}
use mochi_warabi.Run.{Run, raise, undef, Ends-cases, done, ◌>>=◌, Ends, Ends->>=}
use mochi_warabi.Bytes.{Bytes}
use mochi_warabi.Result.{Result, BoolResult, succeed, fail, fail_bool}
use mochi_warabi.RegionId.{RegionId}
use mochi_warabi.Segments.{Segment, total_size}
use mochi_warabi.Network.{Network}
use mochi_warabi.Backend.{Backend}
use mochi_warabi.DefaultTransfer.{TransferManager}
use mochi_warabi.Provider.{
  Provider, Unset, dereference, attached, after_write, create_rpc, write_rpc, write_eager_rpc,
  persist_rpc, create_write_rpc, create_write_eager_rpc, read_rpc, read_eager_rpc, erase_rpc,
  refuse, release, source_of,
}
use mochi_warabi.Provider.Idle.{Request, Response, answer, serve, serve_all, Opened, IsDisciplined}

module _ (N : Network) (B : Backend N) (T : TransferManager N B) (law : IsDisciplined N B T)
    (unset : Unset)
    (lookup_ends : (address : String) → Ends (λ e. Unit {0}) (N.lookup address)) where
  abbrev pub NoHandle : Option B.Target → Type 0
  NoHandle none = Unit {0}
  NoHandle (some t) = law.Idle t

  -- The provider has the transfer manager `T`, and no handle on its target is alive, if it has one.
  abbrev pub IsIdle : Provider N B → Type 0
  IsIdle p = (p.transfer_manager ≡ T) × NoHandle p.target

  abbrev holding : Option B.Target → Provider N B
  holding target = record { target = target; transfer_manager = T }

  source-Ends :
      (e : N.Endpoint) (address : String) → Ends (λ s. Unit {0}) (source_of N B unset e address)
  unfolding source_of
  source-Ends e address = elim (Bool-cases (str_eq address "")) [
    | inl h ↦ rw h tt
    | inr h ↦ rw h (lookup_ends address)
  ]

  -- The end of a handler: the handle is closed and the response is made.
  closing {ℓ} :
      {A : Type ℓ} (p : Provider N B) (t : B.Target) (r : B.Region) (result : A)
      → p.transfer_manager ≡ T
      → law.Held t
      → Ends
          (λ (a : A × Provider N B). IsIdle a.1)
          (B.close t r >>= λ t'. done (result, attached N B unset p t'))
  closing p t r result e h =
      Ends->>= law.Idle (λ a. IsIdle a.1) (B.close t r) _ (law.close_lem t r h) (λ t' i. (e, i))

  refusing {ℓ} :
      {A : Type ℓ} (p : Provider N B) (t : B.Target) (r : Option B.Region) (result : A)
      → p.transfer_manager ≡ T
      → Opened law.Idle law.Held r t
      → Ends (λ (a : A × Provider N B). IsIdle a.1) (refuse N B unset p t r result)
  unfolding refuse release
  refusing p t none result e h = (e, h)
  refusing p t (some r) result e h = closing p t r result e h

  Opened-cases :
      {A : Type 0} (p : Provider N B) (region : Option B.Region) (success : Bool) (t : B.Target)
      (use_region : Option B.Region → Run (A × Provider N B)) (result : A)
      → p.transfer_manager ≡ T
      → Opened law.Idle law.Held region t
      → Ends (λ a. IsIdle a.1) (use_region none)
      → ((r : B.Region) → law.Held t → Ends (λ a. IsIdle a.1) (use_region (some r)))
      → Ends
          (λ a. IsIdle a.1)
          (if success then use_region region else refuse N B unset p t region result)
  Opened-cases p none true t use_region result e h l k = l
  Opened-cases p (some r) true t use_region result e h l k = k r h
  Opened-cases p region false t use_region result e h l k = refusing p t region result e h

  -- A handler that opens a region: what it does with a handle, and with a null pointer.
  opening_pointer :
      {A : Type 0} (p : Provider N B) (m : Run (Result (Option B.Region) × B.Target))
      (use_region : B.Target → Option B.Region → Run (A × Provider N B)) (result : String → A)
      → p.transfer_manager ≡ T
      → Ends (λ a. Opened law.Idle law.Held a.0.value a.1) m
      → ((t : B.Target) → Ends (λ a. IsIdle a.1) (use_region t none))
      → ((r : B.Region) (t : B.Target)
          → law.Held t
          → Ends (λ a. IsIdle a.1) (use_region t (some r)))
      → Ends
          (λ a. IsIdle a.1)
          (m >>= λ a.
            if a.0.success
            then use_region a.1 a.0.value
            else refuse N B unset p a.1 a.0.value (result a.0.error))
  opening_pointer p m use_region result e h l k =
      Ends->>= (λ a. Opened law.Idle law.Held a.0.value a.1) (λ a. IsIdle a.1) m _ h
        (λ a i.
          Opened-cases p a.0.value a.0.success a.1 (use_region a.1) (result a.0.error) e i (l a.1)
            (λ r g. k r a.1 g))

  opening :
      {A : Type 0} (p : Provider N B) (m : Run (Result (Option B.Region) × B.Target))
      (use_region : B.Target → B.Region → Run (A × Provider N B)) (result : String → A)
      → p.transfer_manager ≡ T
      → Ends (λ a. Opened law.Idle law.Held a.0.value a.1) m
      → ((r : B.Region) (t : B.Target) → law.Held t → Ends (λ a. IsIdle a.1) (use_region t r))
      → Ends
          (λ a. IsIdle a.1)
          (m >>= λ a.
            if a.0.success
            then (dereference a.0.value >>= use_region a.1)
            else refuse N B unset p a.1 a.0.value (result a.0.error))
  opening p m use_region result e h k =
      opening_pointer p m (λ t region. dereference region >>= use_region t) result e h (λ t. tt) k

  create_rpc-IsIdle :
      (target : Option B.Target) (size : ℕ)
      → NoHandle target
      → Ends (λ a. IsIdle a.1) (create_rpc N B unset (holding target) size)
  unfolding create_rpc
  create_rpc-IsIdle none size i = (refl, tt)
  create_rpc-IsIdle (some t) size i =
      opening (holding (some t)) (B.create t size) _ (λ e. fail e unset.region_id) refl
        (law.create_lem t size i)
        (λ r t' h. closing (holding (some t)) t' r (B.get_region_id r) refl h)

  -- An access to an open region, and the end of the handler.
  accessing {ℓ} :
      {A : Type ℓ} (p : Provider N B) (r : B.Region) (m : Run (BoolResult × B.Target))
      (result : BoolResult → A)
      → p.transfer_manager ≡ T
      → Ends (λ a. law.Held a.1) m
      → Ends
          (λ (a : A × Provider N B). IsIdle a.1)
          (m >>= λ a. B.close a.1 r >>= λ t'. done (result a.0, attached N B unset p t'))
  accessing p r m result e h =
      Ends->>= (λ a. law.Held a.1) (λ a. IsIdle a.1) m _ h (λ a i. closing p a.1 r (result a.0) e i)

  write_eager_rpc-IsIdle :
      (target : Option B.Target) (id : RegionId) (ss : List Segment) (buffer : Bytes)
      (persist : Bool)
      → NoHandle target
      → Ends (λ a. IsIdle a.1) (write_eager_rpc N B unset (holding target) id ss buffer persist)
  unfolding write_eager_rpc
  write_eager_rpc-IsIdle none id ss buffer persist i = (refl, tt)
  write_eager_rpc-IsIdle (some t) id ss buffer persist i =
      opening (holding (some t)) (B.write t id persist) _ fail_bool refl
        (law.write_lem t id persist i)
        (λ r t' h.
          accessing (holding (some t)) r (B.region_write t' r ss buffer persist) (λ b. b) refl
            (law.region_write_lem t' r ss buffer persist h))

  persist_rpc-IsIdle :
      (target : Option B.Target) (id : RegionId) (ss : List Segment)
      → NoHandle target
      → Ends (λ a. IsIdle a.1) (persist_rpc N B unset (holding target) id ss)
  unfolding persist_rpc
  persist_rpc-IsIdle none id ss i = (refl, tt)
  persist_rpc-IsIdle (some t) id ss i =
      opening (holding (some t)) (B.write t id true) _ fail_bool refl (law.write_lem t id true i)
        (λ r t' h.
          accessing (holding (some t)) r (B.region_persist t' r ss) (λ b. b) refl
            (law.region_persist_lem t' r ss h))

  -- An access that needs the address of the client's data.
  accessing_remote {ℓ} :
      {A : Type ℓ} (p : Provider N B) (r : B.Region) (e : N.Endpoint) (address : String)
      (m : N.Endpoint → Run (BoolResult × B.Target)) (result : BoolResult → A)
      → p.transfer_manager ≡ T
      → ((s : N.Endpoint) → Ends (λ a. law.Held a.1) (m s))
      → Ends
          (λ (a : A × Provider N B). IsIdle a.1)
          (source_of N B unset e address >>= λ s.
            m s >>= λ a. B.close a.1 r >>= λ t'. done (result a.0, attached N B unset p t'))
  accessing_remote p r e address m result eq h =
      Ends->>= (λ s. Unit {0}) (λ a. IsIdle a.1) (source_of N B unset e address) _
        (source-Ends e address) (λ s _. accessing p r (m s) result eq (h s))

  write_rpc-IsIdle :
      (w : N.Remote) (e : N.Endpoint) (target : Option B.Target) (id : RegionId) (ss : List Segment)
      (bulk : N.Bulk) (address : String) (offset : ℕ) (persist : Bool)
      → NoHandle target
      → Ends
          (λ a. IsIdle a.1)
          (write_rpc N B unset w e (holding target) id ss bulk address offset persist)
  unfolding write_rpc
  write_rpc-IsIdle w e none id ss bulk address offset persist i = (refl, tt)
  write_rpc-IsIdle w e (some t) id ss bulk address offset persist i =
      opening_pointer (holding (some t)) (B.write t id persist)
        (λ t' region. source_of N B unset e address >>= λ s. dereference region >>= λ r.
          T.pull w t' r ss bulk s offset persist >>= λ a.
          B.close a.1 r >>= λ t''. done (a.0, attached N B unset (holding (some t)) t''))
        fail_bool refl (law.write_lem t id persist i)
        (λ t'.
          Ends->>= (λ s. Unit {0}) (λ a. IsIdle a.1) (source_of N B unset e address) _
            (source-Ends e address) (λ s _. tt))
        (λ r t' h.
          accessing_remote (holding (some t)) r e address
            (λ s. T.pull w t' r ss bulk s offset persist) (λ b. b) refl
            (λ s. law.pull_lem w t' r ss bulk s offset persist h))

  create_write_rpc-IsIdle :
      (w : N.Remote) (e : N.Endpoint) (target : Option B.Target) (bulk : N.Bulk) (address : String)
      (offset size : ℕ) (persist : Bool)
      → NoHandle target
      → Ends
          (λ a. IsIdle a.1)
          (create_write_rpc N B unset w e (holding target) bulk address offset size persist)
  unfolding create_write_rpc
  create_write_rpc-IsIdle w e none bulk address offset size persist i = (refl, tt)
  create_write_rpc-IsIdle w e (some t) bulk address offset size persist i =
      opening (holding (some t)) (B.create t size) _ (λ e'. fail e' unset.region_id) refl
        (law.create_lem t size i)
        (λ r t' h.
          accessing_remote (holding (some t)) r e address
            (λ s. T.pull w t' r ((0, size) ∷ []) bulk s offset persist)
            (after_write N B unset (B.get_region_id r)) refl
            (λ s. law.pull_lem w t' r ((0, size) ∷ []) bulk s offset persist h))

  create_write_eager_rpc-IsIdle :
      (target : Option B.Target) (buffer : Bytes) (persist : Bool)
      → NoHandle target
      → Ends (λ a. IsIdle a.1) (create_write_eager_rpc N B unset (holding target) buffer persist)
  unfolding create_write_eager_rpc
  create_write_eager_rpc-IsIdle none buffer persist i = (refl, tt)
  create_write_eager_rpc-IsIdle (some t) buffer persist i =
      opening (holding (some t)) (B.create t (length buffer)) _ (λ e. fail e unset.region_id) refl
        (law.create_lem t (length buffer) i)
        (λ r t' h.
          accessing (holding (some t)) r
            (B.region_write t' r ((0, length buffer) ∷ []) buffer persist)
            (after_write N B unset (B.get_region_id r)) refl
            (law.region_write_lem t' r ((0, length buffer) ∷ []) buffer persist h))

  read_rpc-IsIdle :
      (w : N.Remote) (e : N.Endpoint) (target : Option B.Target) (id : RegionId) (ss : List Segment)
      (bulk : N.Bulk) (address : String) (offset : ℕ)
      → NoHandle target
      → Ends (λ a. IsIdle a.2) (read_rpc N B unset w e (holding target) id ss bulk address offset)
  unfolding read_rpc
  read_rpc-IsIdle w e none id ss bulk address offset i = (refl, tt)
  read_rpc-IsIdle w e (some t) id ss bulk address offset i =
      Ends->>= (λ a. Opened law.Idle law.Held a.0.value a.1) (λ a. IsIdle a.2) (B.read t id) _
        (law.read_lem t id i) (λ a. pushed a.0.value a.0.error a.1)
    where
      pushed :
          (region : Option B.Region) (error : String) (t' : B.Target)
          → Opened law.Idle law.Held region t'
          → Ends
              (λ a. IsIdle a.2)
              (elim region as (λ x. Run (BoolResult × N.Remote × Provider N B)) [
                | none ↦ done (fail_bool error, w, attached N B unset (holding (some t)) t')
                | some r ↦ source_of N B unset e address >>= λ s.
                    T.push w t' r ss bulk s offset >>= λ a. B.close a.2 r >>= λ t''.
                    done (a.0, a.1, attached N B unset (holding (some t)) t'')
              ])
      pushed none error t' h = (refl, h)
      pushed (some r) error t' h =
          Ends->>= (λ s. Unit {0}) (λ a. IsIdle a.2) (source_of N B unset e address) _
            (source-Ends e address)
            (λ s _.
              Ends->>= (λ a. law.Held a.2) (λ a. IsIdle a.2) (T.push w t' r ss bulk s offset) _
                (law.push_lem w t' r ss bulk s offset h)
                (λ a g.
                  Ends->>= law.Idle (λ a'. IsIdle a'.2) (B.close a.2 r) _ (law.close_lem a.2 r g)
                    (λ t'' j. (refl, j))))

  read_eager_rpc-IsIdle :
      (target : Option B.Target) (id : RegionId) (ss : List Segment)
      → NoHandle target
      → Ends (λ a. IsIdle a.1) (read_eager_rpc N B unset (holding target) id ss)
  unfolding read_eager_rpc
  read_eager_rpc-IsIdle none id ss i = (refl, tt)
  read_eager_rpc-IsIdle (some t) id ss i =
      Ends->>= (λ a. Opened law.Idle law.Held a.0.value a.1) (λ a. IsIdle a.1) (B.read t id) _
        (law.read_lem t id i) (λ a. filled a.0.value a.0.error a.1)
    where
      filled :
          (region : Option B.Region) (error : String) (t' : B.Target)
          → Opened law.Idle law.Held region t'
          → Ends
              (λ a. IsIdle a.1)
              (elim region as (λ x. Run (Result Bytes × Provider N B)) [
                | none ↦ done (fail error [], attached N B unset (holding (some t)) t')
                | some r ↦ B.region_read t' r ss (unset.buffer (total_size ss)) >>= λ a.
                    B.close a.2 r >>= λ t''. done (
                      if a.0.success then succeed a.1 else fail a.0.error a.1,
                      attached N B unset (holding (some t)) t'',
                    )
              ])
      filled none error t' h = (refl, h)
      filled (some r) error t' h =
          let buffer = unset.buffer (total_size ss) in
          Ends->>= (λ a. law.Held a.2) (λ a. IsIdle a.1) (B.region_read t' r ss buffer) _
            (law.region_read_lem t' r ss buffer h)
            (λ a g. closing (holding (some t)) a.2 r _ refl g)

  erase_rpc-IsIdle :
      (target : Option B.Target) (id : RegionId)
      → NoHandle target
      → Ends (λ a. IsIdle a.1) (erase_rpc N B unset (holding target) id)
  unfolding erase_rpc
  erase_rpc-IsIdle none id i = (refl, tt)
  erase_rpc-IsIdle (some t) id i =
      Ends->>= (λ a. law.Idle a.1) (λ a. IsIdle a.1) (B.erase t id) _ (law.erase_lem t id i)
        (λ a j. (refl, j))

  answering {ℓ} :
      {A : Type ℓ} (w : N.Remote) (reply : A → Response) (m : Run (A × Provider N B))
      → Ends (λ a. IsIdle a.1) m
      → Ends (λ a. IsIdle a.1.1) (answer N B unset w reply m)
  answering w reply m h = Ends->>= (λ a. IsIdle a.1) (λ a. IsIdle a.1.1) m _ h (λ a i. i)

  serve-holding :
      (e : N.Endpoint) (w : N.Remote) (target : Option B.Target) (r : Request N)
      → NoHandle target
      → Ends (λ a. IsIdle a.1.1) (serve N B unset e (w, holding target) r)
  unfolding serve
  serve-holding e w g (Request.create size) i =
      answering w Response.region _ (create_rpc-IsIdle g size i)
  serve-holding e w g (Request.write id ss bulk address offset durable) i =
      answering w Response.status _ (write_rpc-IsIdle w e g id ss bulk address offset durable i)
  serve-holding e w g (Request.write_eager id ss buffer durable) i =
      answering w Response.status _ (write_eager_rpc-IsIdle g id ss buffer durable i)
  serve-holding e w g (Request.persist id ss) i =
      answering w Response.status _ (persist_rpc-IsIdle g id ss i)
  serve-holding e w g (Request.create_write bulk address offset size durable) i =
      answering w Response.region _
        (create_write_rpc-IsIdle w e g bulk address offset size durable i)
  serve-holding e w g (Request.create_write_eager buffer durable) i =
      answering w Response.region _ (create_write_eager_rpc-IsIdle g buffer durable i)
  serve-holding e w g (Request.read id ss bulk address offset) i =
      Ends->>= (λ a. IsIdle a.2) (λ a. IsIdle a.1.1)
        (read_rpc N B unset w e (holding g) id ss bulk address offset) _
        (read_rpc-IsIdle w e g id ss bulk address offset i) (λ a j. j)
  serve-holding e w g (Request.read_eager id ss) i =
      answering w Response.content _ (read_eager_rpc-IsIdle g id ss i)
  serve-holding e w g (Request.erase id) i = answering w Response.status _ (erase_rpc-IsIdle g id i)

  serve-IsIdle :
      (e : N.Endpoint) (w : N.Remote) (p : Provider N B) (r : Request N)
      → IsIdle p
      → Ends (λ a. IsIdle a.1.1) (serve N B unset e (w, p) r)
  serve-IsIdle e w p r (eq, i) =
      subst
        (λ T'.
          Ends (λ a. IsIdle a.1.1)
            (serve N B unset e (w, record { target = p.target; transfer_manager = T' }) r))
        (sym eq) (serve-holding e w p.target r i)

  serve_all-Ends :
      (e : N.Endpoint) (w : N.Remote) (p : Provider N B) (rs : List (Request N))
      → IsIdle p
      → Ends (λ a. IsIdle a.1.1) (serve_all N B unset e (w, p) rs)
  unfolding serve_all
  serve_all-Ends e w p [] i = i
  serve_all-Ends e w p (r ∷ rs) i =
      Ends->>= (λ a. IsIdle a.1.1) (λ a. IsIdle a.1.1) (serve N B unset e (w, p) r) _
        (serve-IsIdle e w p r i)
        (λ a j.
          Ends->>= (λ b. IsIdle b.1.1) (λ b. IsIdle b.1.1) (serve_all N B unset e a.1 rs) _
            (serve_all-Ends e a.1.0 a.1.1 rs j) (λ b k. k))

  -- For a backend and a transfer manager that keep to the lock discipline, and where looking an
  -- address up does not wait: no sequence of requests to a provider on whose target no handle is
  -- alive waits for a lock. The sequence is served to its end, with successes and errors as
  -- responses, and no handle is alive after it; or a handler throws; or one does what is undefined,
  -- such as an access outside a region.
  pub serve_all-IsIdle :
      (e : N.Endpoint) (w : N.Remote) (p : Provider N B) (rs : List (Request N))
      → IsIdle p
      → ((a : List Response × (N.Remote × Provider N B)) × (serve_all N B unset e (w, p) rs
            ≡ done a)
          × IsIdle a.1.1)
        ⊎ (((message : String) × (serve_all N B unset e (w, p) rs ≡ raise message))
            ⊎ (serve_all N B unset e (w, p) rs ≡ undef))
  serve_all-IsIdle e w p rs i = Ends-cases _ _ (serve_all-Ends e w p rs i)
