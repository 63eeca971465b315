-- ===== src/Memory/Threads.antt =====
-- The handlers of several threads on one target of src/MemoryBackend.cpp: their calls, in any order.
-- A call that waits for the mutex is no step until it returns.
use mochi_warabi.Prelude.{
  ℕ, ◌<◌, ◌≡◌, refl, sym, ap, ◌∙◌, ◌⊎◌, inl, inr, String, Bool, true, false, List, [], ◌∷◌, ◌++◌,
  Option, none, some, length, arith, pos, negsuc, ℤ, Bool-cases, length-set, subst, false≢true,
  replicate, length-append, ◌==◌, get_elem?-some,
}
use mochi_warabi.Run.{Run, done, stuck, >>=-eq-done, done-injective}
use mochi_warabi.Bytes.{Bytes}
use mochi_warabi.Result.{Result, BoolResult, fail}
use mochi_warabi.RegionId.{RegionId, region_id_to_index}
use mochi_warabi.Segments.{Segment, convert_to_segments, copy_in, total_size}
use mochi_warabi.Network.{Network}
use mochi_warabi.Memory.Region.{
  MemoryTarget, MemoryRegion, contents, contents_or_undef, replace, gather,
}
use mochi_warabi.Memory.Region
use mochi_warabi.Memory.{create, write, read, erase, close, open_region, lock}
use mochi_warabi.Memory.Regions.{
  Names-cases, open_valid, open_invalid_at, create-created, erase_valid, erase_invalid_at,
}

-- A target, and the handles that are alive in all threads.
pub record Threads : Type 0 where
  pub target : MemoryTarget
  pub alive : List MemoryRegion

abbrev pub opened : Option MemoryRegion → List MemoryRegion → List MemoryRegion
opened none alive = alive
opened (some r) alive = r ∷ alive

-- One call that returns, in one of the threads. A handle is used and closed while it is alive.
-- Reading a region and persisting it have no step: they return the target that they are given.
pub data Step (N : Network) (s : Threads) : Threads → Type 0 where
  creates :
      (size : ℕ) (result : Result (Option MemoryRegion)) (t : MemoryTarget)
      → create s.target size ≡ done (result, t)
      → Step N s (record { target = t; alive = opened result.value s.alive })
  reads :
      (id : RegionId) (result : Result (Option MemoryRegion)) (t : MemoryTarget)
      → read s.target id ≡ done (result, t)
      → Step N s (record { target = t; alive = opened result.value s.alive })
  writes :
      (id : RegionId) (persist : Bool) (result : Result (Option MemoryRegion)) (t : MemoryTarget)
      → write s.target id persist ≡ done (result, t)
      → Step N s (record { target = t; alive = opened result.value s.alive })
  erases :
      (id : RegionId) (result : BoolResult) (t : MemoryTarget)
      → erase s.target id ≡ done (result, t)
      → Step N s (record { target = t; alive = s.alive })
  closes :
      (before : List MemoryRegion) (r : MemoryRegion) (after : List MemoryRegion) (t : MemoryTarget)
      → s.alive ≡ before ++ r ∷ after
      → close s.target r ≡ done t
      → Step N s (record { target = t; alive = before ++ after })
  fills :
      (before : List MemoryRegion) (r : MemoryRegion) (after : List MemoryRegion) (t : MemoryTarget)
      (segments : List Segment) (buffer : Bytes) (persist : Bool) (result : BoolResult)
      → s.alive ≡ before ++ r ∷ after
      → Region.write s.target r segments buffer persist ≡ done (result, t)
      → Step N s (record { target = t; alive = s.alive })
  pulls :
      (before : List MemoryRegion) (r : MemoryRegion) (after : List MemoryRegion) (t : MemoryTarget)
      (w : Network.Remote N) (segments : List Segment) (bulk : Network.Bulk N)
      (address : Network.Endpoint N) (offset : ℕ) (persist : Bool) (result : BoolResult)
      → s.alive ≡ before ++ r ∷ after
      → Region.write_bulk N w s.target r segments bulk address offset persist ≡ done (result, t)
      → Step N s (record { target = t; alive = s.alive })

pub data Reach (N : Network) (s : Threads) : Threads → Type 0 where
  here : Reach N s s
  next : {t u : Threads} → Reach N s t → Step N t u → Reach N s u

-- The target that `create` of the class makes, before any handle.
abbrev pub unused : String → Threads
unused config = record {
  target = record { config = config; regions = []; locked = false };
  alive = [];
}

-- The mutex is held when a handle is alive and only then, and the handle refers to a region.
abbrev Guarded : MemoryTarget → List MemoryRegion → Type 0
Guarded t [] = t.locked ≡ false
Guarded t (r ∷ []) = (t.locked ≡ true) × (r.index < length t.regions)
Guarded t (r ∷ r' ∷ rs) = ⊥

unlocked-none :
    (t : MemoryTarget) (rs : List MemoryRegion) → t.locked ≡ false → Guarded t rs → rs ≡ []
unlocked-none t [] u g = refl
unlocked-none t (r ∷ []) u g = absurd (false≢true (sym u ∙ g.0))
unlocked-none t (r ∷ r' ∷ rs) u g = absurd g

-- A call that opens a region returns no handle and leaves the target, or it found the mutex free.
abbrev Opens : MemoryTarget → Option MemoryRegion → MemoryTarget → Type 0
Opens t none t' = t' ≡ t
Opens t (some r) t' = (t.locked ≡ false) × (t'.locked ≡ true) × (r.index < length t'.regions)

Opens-Guarded :
    (t t' : MemoryTarget) (o : Option MemoryRegion) (rs : List MemoryRegion)
    → Opens t o t'
    → Guarded t rs
    → Guarded t' (opened o rs)
Opens-Guarded t t' none rs h g = subst (λ x. Guarded x rs) (sym h) g
Opens-Guarded t t' (some r) rs (u, l, i) g =
    subst (λ x. Guarded t' (r ∷ x)) (sym (unlocked-none t rs u g)) (l, i)

stuck≢done {ℓ} : {A : Type ℓ} {a : A} → ¬ (stuck ≡ done a)
stuck≢done h = cc

abbrev Returned : Result (Option MemoryRegion) × MemoryTarget → MemoryTarget → Type 0
Returned a t = Opens t a.0.value a.1

Returned-eq :
    (t : MemoryTarget) (m : Run (Result (Option MemoryRegion) × MemoryTarget))
    (a b : Result (Option MemoryRegion) × MemoryTarget)
    → m ≡ done a
    → m ≡ done b
    → Returned a t
    → Returned b t
Returned-eq t m a b e h o = subst (λ x. Returned x t) (done-injective (sym e ∙ h)) o

create-Opens :
    (t t' : MemoryTarget) (size : ℕ) (result : Result (Option MemoryRegion))
    → create t size ≡ done (result, t')
    → Opens t result.value t'
unfolding create lock
create-Opens t t' size result h = elim (Bool-cases t.locked) [
  | inl l ↦ absurd (stuck≢done (rw l at h))
  | inr u ↦
      Returned-eq t _ _ _ (create-created t size u) h
        (u, refl, omega (arith, length-append t.regions (replicate size 0 ∷ [])))
]

open_region-Opens :
    (t t' : MemoryTarget) (id : RegionId) (z : ℤ) (result : Result (Option MemoryRegion))
    → region_id_to_index id ≡ z
    → open_region t id ≡ done (result, t')
    → Opens t result.value t'
unfolding open_region lock
open_region-Opens t t' id (pos i) result e h = elim (Bool-cases t.locked) [
  | inl l ↦ absurd (stuck≢done (rw (e, l) at h))
  | inr u ↦ elim (Names-cases t id) [
    | inl (j, n) ↦ Returned-eq t _ _ _ (open_valid t id j u n) h (u, refl, n.1)
    | inr n ↦ Returned-eq t _ _ _ (open_invalid_at t id (pos i) e u n) h refl
  ]
]
open_region-Opens t t' id (negsuc i) result e h =
    Returned-eq t _ (fail "Invalid RegionID information" none, t) _ (rw e refl) h refl

erase_keeps :
    (t t' : MemoryTarget) (id : RegionId) (result : BoolResult) (rs : List MemoryRegion)
    → erase t id ≡ done (result, t')
    → Guarded t rs
    → Guarded t' rs
unfolding erase lock
erase_keeps t t' id result rs h g = elim (Bool-cases t.locked) [
  | inl l ↦ absurd (stuck≢done (rw l at h))
  | inr u ↦
      let free : (a : BoolResult × MemoryTarget)
          → erase t id ≡ done a
          → a.1.locked ≡ false
          → Guarded t' rs =
        λ a e k. subst (Guarded t') (sym (unlocked-none t rs u g)) (
          subst (λ (x : BoolResult × MemoryTarget). x.1.locked ≡ false) (done-injective (sym e ∙ h))
            k) in
      elim (Names-cases t id) [
        | inl (i, n) ↦ free _ (erase_valid t id i u n) u
        | inr n ↦ free _ (erase_invalid_at t id (region_id_to_index id) refl u n) u
      ]
]

Keeps : MemoryTarget → MemoryTarget → Type 0
Keeps t t' = (t'.locked ≡ t.locked) × (length t'.regions ≡ length t.regions)

Keeps-Guarded :
    (t t' : MemoryTarget) (rs : List MemoryRegion) → Keeps t t' → Guarded t rs → Guarded t' rs
unfolding Keeps
Keeps-Guarded t t' [] (l, n) u = l ∙ u
Keeps-Guarded t t' (r ∷ []) (l, n) (k, i) = (l ∙ k, subst (λ x. r.index < x) (sym n) i)
Keeps-Guarded t t' (r ∷ r' ∷ rs) k g = g

replace-Keeps : (t : MemoryTarget) (r : MemoryRegion) (b : Bytes) → Keeps t (replace t r b)
unfolding Keeps
replace-Keeps t r b = (refl, length-set t.regions r.index b)

region_write-Keeps :
    (t t' : MemoryTarget) (r : MemoryRegion) (ss : List Segment) (d : Bytes) (persist : Bool)
    (result : BoolResult)
    → Region.write t r ss d persist ≡ done (result, t')
    → Keeps t t'
unfolding Region.write
region_write-Keeps t t' r ss d persist result h =
    let (b, e, h1) = >>=-eq-done (contents t r) _ h in
    let (b', e', h2) = >>=-eq-done (copy_in (convert_to_segments ss) d 0 b) _ h1 in
    subst (λ (a : BoolResult × MemoryTarget). Keeps t a.1) (done-injective h2)
      (replace-Keeps t r b')

region_write_bulk-Keeps :
    (N : Network) (w : N.Remote) (t t' : MemoryTarget) (r : MemoryRegion) (ss : List Segment)
    (bulk : N.Bulk) (address : N.Endpoint) (offset : ℕ) (persist : Bool) (result : BoolResult)
    → Region.write_bulk N w t r ss bulk address offset persist ≡ done (result, t')
    → Keeps t t'
unfolding Region.write_bulk Keeps
region_write_bulk-Keeps N w t t' r ss bulk address offset persist result h =
    let segments = convert_to_segments ss in
    elim (Bool-cases (length segments == 0)) [
      | inl z ↦
          subst (λ (a : BoolResult × MemoryTarget). Keeps t a.1) (done-injective (rw z at h))
            (refl, refl)
      | inr z ↦
          let (b, e, h1) = >>=-eq-done (contents t r) _ (rw z at h) in
          let (arrived, e', h2) =
            >>=-eq-done (N.pull w address bulk offset (total_size segments)) _ h1 in
          let (b', e'', h3) = >>=-eq-done (copy_in segments arrived 0 b) _ h2 in
          subst (λ (a : BoolResult × MemoryTarget). Keeps t a.1) (done-injective h3)
            (replace-Keeps t r b')
    ]

close-Guarded :
    (t t' : MemoryTarget) (before : List MemoryRegion) (r : MemoryRegion)
    (after : List MemoryRegion)
    → close t r ≡ done t'
    → Guarded t (before ++ r ∷ after)
    → Guarded t' (before ++ after)
unfolding close
close-Guarded t t' [] r [] h g = sym (ap (λ (x : MemoryTarget). x.locked) (done-injective h))
close-Guarded t t' [] r (r' ∷ rs) h g = absurd g
close-Guarded t t' (x ∷ []) r rs h g = absurd g
close-Guarded t t' (x ∷ y ∷ xs) r rs h g = absurd g

Step-Guarded :
    (N : Network) (s u : Threads) → Step N s u → Guarded s.target s.alive → Guarded u.target u.alive
unfolding read write
Step-Guarded N s u (creates size result t h) g =
    Opens-Guarded s.target t result.value s.alive (create-Opens s.target t size result h) g
Step-Guarded N s u (reads id result t h) g =
    Opens-Guarded s.target t result.value s.alive (open_region-Opens s.target t id _ result refl h)
      g
Step-Guarded N s u (writes id persist result t h) g =
    Opens-Guarded s.target t result.value s.alive (open_region-Opens s.target t id _ result refl h)
      g
Step-Guarded N s u (erases id result t h) g = erase_keeps s.target t id result s.alive h g
Step-Guarded N s u (closes before r after t e h) g =
    close-Guarded s.target t before r after h (subst (Guarded s.target) e g)
Step-Guarded N s u (fills before r after t ss d persist result e h) g =
    Keeps-Guarded s.target t s.alive (region_write-Keeps s.target t r ss d persist result h) g
Step-Guarded N s u (pulls before r after t w ss bulk address offset persist result e h) g =
    Keeps-Guarded s.target t s.alive
      (region_write_bulk-Keeps N w s.target t r ss bulk address offset persist result h) g

Reach-Guarded :
    (N : Network) (config : String) (s : Threads)
    → Reach N (unused config) s
    → Guarded s.target s.alive
Reach-Guarded N config s here = refl
Reach-Guarded N config s (next {t} r h) = Step-Guarded N t s h (Reach-Guarded N config t r)

Guarded-exclusive :
    (t : MemoryTarget) (rs : List MemoryRegion)
    → Guarded t rs
    → ((rs ≡ []) × (t.locked ≡ false))
      ⊎ ((r : MemoryRegion) × (b : Bytes) × (rs ≡ r ∷ [])
          × (contents t r ≡ done b)
          × ((size : ℕ) → create t size ≡ stuck)
          × ((id : RegionId) → erase t id ≡ stuck))
unfolding contents create erase lock
Guarded-exclusive t [] g = inl (refl, g)
Guarded-exclusive t (r ∷ []) (l, i) =
    let (b, e) = get_elem?-some t.regions r.index i in
    inr (r, b, refl, ap contents_or_undef e, λ size. rw l refl, λ id. rw l refl)
Guarded-exclusive t (r ∷ r' ∷ rs) g = absurd g

-- However the calls of several threads are ordered, from a new target on: either no handle is alive
-- and the mutex is free; or one handle is alive, the region that it refers to is there, and creating
-- a region or erasing one waits.
pub Reach-exclusive :
    (N : Network) (config : String) (s : Threads)
    → Reach N (unused config) s
    → ((s.alive ≡ []) × (s.target.locked ≡ false))
      ⊎ ((r : MemoryRegion) × (b : Bytes) × (s.alive ≡ r ∷ [])
          × (contents s.target r ≡ done b)
          × ((size : ℕ) → create s.target size ≡ stuck)
          × ((id : RegionId) → erase s.target id ≡ stuck))
Reach-exclusive N config s h = Guarded-exclusive s.target s.alive (Reach-Guarded N config s h)
