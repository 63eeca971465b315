-- ===== src/Memory/Regions.antt =====
-- Region ids of src/MemoryBackend.cpp: which ids are accepted, and what they lead to.
use mochi_warabi.Prelude.{
  ℕ, ◌-◌, ◌^◌, ◌<◌, ◌≤◌, ◌≡◌, refl, ap, ◌⊎◌, ◌==◌, inl, inr, ◌↔◌, Bool, true, false, [], ◌∷◌, ◌++◌,
  none, some, length, get_elem?, set, replicate, arith, pos, negsuc, ℤ, ltb, Bool-cases,
  length-append, length-set, get_elem?-append_left, get_elem?-append_last, get_elem?-set_self,
  get_elem?-set_ne,
}
use mochi_warabi.Run.{done, ◌>>=◌}
use mochi_warabi.Result.{succeed, fail, success_bool, fail_bool}
use mochi_warabi.RegionId.{RegionId, region_id_to_index, index_size_to_region_id}
use mochi_warabi.RegionId.RoundTrip.{index-index_size_to_region_id}
use mochi_warabi.Memory.Region.{MemoryTarget, MemoryRegion, contents, contents_or_undef}
use mochi_warabi.Memory.{lock, create, open_region, write, read, erase, close}

-- The id names the region at position `i`.
abbrev pub Names : MemoryTarget → RegionId → ℕ → Type 0
Names t id i = (region_id_to_index id ≡ pos i) × (i < length t.regions)

abbrev pub handle : RegionId → ℕ → MemoryRegion
handle id i = record { id = id; index = i }

pub open_valid :
    (t : MemoryTarget) (id : RegionId) (i : ℕ)
    → t.locked ≡ false
    → Names t id i
    → open_region t id ≡ done (succeed (some (handle id i)), record t { locked = true })
unfolding open_region lock
open_valid t id i u (e, h) = ground arith

pub open_invalid_at :
    (t : MemoryTarget) (id : RegionId) (z : ℤ)
    → region_id_to_index id ≡ z
    → t.locked ≡ false
    → ((i : ℕ) → ¬ Names t id i)
    → open_region t id ≡ done (fail "Invalid RegionID information" none, t)
unfolding open_region lock
open_invalid_at t id (pos i) e u h =
    let out : length t.regions ≤ i = ground (arith, λ (k : i < length t.regions). h i (e, k)) in
    ground arith
open_invalid_at t id (negsuc i) e u h = ground arith

Names-at :
    (t : MemoryTarget) (id : RegionId) (z : ℤ)
    → region_id_to_index id ≡ z
    → ((i : ℕ) × Names t id i) ⊎ ((i : ℕ) → ¬ Names t id i)
Names-at t id (pos i) e = elim (Bool-cases (ltb i (length t.regions))) [
  | inl h ↦ inl (i, (e, ground arith))
  | inr h ↦ inr (λ j n. ground (arith, n.0, n.1))
]
Names-at t id (negsuc i) e = inr (λ j n. ground (arith, n.0))

-- Every id names one region of the target or none.
pub Names-cases :
    (t : MemoryTarget) (id : RegionId) → ((i : ℕ) × Names t id i) ⊎ ((i : ℕ) → ¬ Names t id i)
Names-cases t id = Names-at t id (region_id_to_index id) refl

-- On an unlocked target there are two cases. Either the id names a region: then `read` and `write`
-- return a handle to that region and hold the mutex. Or it names none: then both return the error
-- and leave the target as it was.
pub open-Names :
    (t : MemoryTarget) (id : RegionId) (persist : Bool)
    → t.locked ≡ false
    → ((i : ℕ) × Names t id i
        × (read t id ≡ done (succeed (some (handle id i)), record t { locked = true }))
        × (write t id persist ≡ done (succeed (some (handle id i)), record t { locked = true })))
      ⊎ (((i : ℕ) → ¬ Names t id i)
          × (read t id ≡ done (fail "Invalid RegionID information" none, t))
          × (write t id persist ≡ done (fail "Invalid RegionID information" none, t)))
unfolding read write
open-Names t id persist u = elim (Names-cases t id) [
  | inl (i, n) ↦ inl (i, n, open_valid t id i u n, open_valid t id i u n)
  | inr h ↦ inr (
    h,
    open_invalid_at t id (region_id_to_index id) refl u h,
    open_invalid_at t id (region_id_to_index id) refl u h,
  )
]

pub write_valid :
    (t : MemoryTarget) (id : RegionId) (i : ℕ) (persist : Bool)
    → t.locked ≡ false
    → Names t id i
    → write t id persist ≡ done (succeed (some (handle id i)), record t { locked = true })
unfolding write
write_valid t id i persist u n = open_valid t id i u n

abbrev pub created : MemoryTarget → ℕ → MemoryTarget
created t size = record t { regions = t.regions ++ replicate size 0 ∷ []; locked = true }

abbrev pub new_handle : MemoryTarget → ℕ → MemoryRegion
new_handle t size = handle (index_size_to_region_id (length t.regions) size) (length t.regions)

pub create-created :
    (t : MemoryTarget) (size : ℕ)
    → t.locked ≡ false
    → create t size ≡ done (succeed (some (new_handle t size)), created t size)
unfolding create lock
create-created t size u =
    let e : length (t.regions ++ replicate size 0 ∷ []) - 1 ≡ length t.regions =
      omega (arith, length-append t.regions (replicate size 0 ∷ [])) in
    rw u (rw e refl)

-- A region that is created on an unlocked target with fewer than 2 ^ 63 regions holds `size` zero
-- bytes; its handle is what `read` returns for the new id once the handle is closed; and a
-- region `r'` that was there keeps its position and its bytes.
pub read-create :
    (t : MemoryTarget) (size : ℕ) (r' : MemoryRegion)
    → t.locked ≡ false
    → length t.regions < 2 ^ 63
    → r'.index < length t.regions
    → (r : MemoryRegion) × (t' : MemoryTarget) × (create t size ≡ done (succeed (some r), t'))
      × ((close t' r >>= λ t''. read t'' r.id) ≡ done (succeed (some r), t'))
      × (contents t' r ≡ done (replicate size 0))
      × (contents t' r' ≡ contents t r')
unfolding read close contents
read-create t size r' u h k = (
  new_handle t size,
  created t size,
  create-created t size u,
  open_valid (record (created t size) { locked = false })
      (index_size_to_region_id (length t.regions) size) (length t.regions) refl
      (
        index-index_size_to_region_id (length t.regions) size h,
        omega (arith, length-append t.regions (replicate size 0 ∷ [])),
      ),
  ap contents_or_undef (get_elem?-append_last t.regions (replicate size 0) (length t.regions) refl),
  ap contents_or_undef (get_elem?-append_left t.regions (replicate size 0 ∷ []) r'.index k),
)

pub erase_valid :
    (t : MemoryTarget) (id : RegionId) (i : ℕ)
    → t.locked ≡ false
    → Names t id i
    → erase t id ≡ done (success_bool, record t { regions = set t.regions i [] })
unfolding erase lock
erase_valid t id i u (e, h) = ground arith

pub erase_invalid_at :
    (t : MemoryTarget) (id : RegionId) (z : ℤ)
    → region_id_to_index id ≡ z
    → t.locked ≡ false
    → ((i : ℕ) → ¬ Names t id i)
    → erase t id ≡ done (fail_bool "Invalid RegionID", t)
unfolding erase lock
erase_invalid_at t id (pos i) e u h =
    let out : length t.regions ≤ i = ground (arith, λ (k : i < length t.regions). h i (e, k)) in
    ground arith
erase_invalid_at t id (negsuc i) e u h = ground arith

-- What `erase` leaves of an unlocked target whose region `i` is named: the region is empty, every
-- other region keeps its bytes, and the ids that name a region are those that did before, the
-- erased one included.
pub record IsErased (t : MemoryTarget) (i : ℕ) (t' : MemoryTarget) : Type 0 where
  pub unlocked : t'.locked ≡ false
  pub emptied : get_elem? t'.regions i ≡ some []
  pub kept : (r : MemoryRegion) → (i ≡ r.index) ⊎ (contents t' r ≡ contents t r)
  pub names : (id : RegionId) (j : ℕ) → Names t' id j ↔ Names t id j

pub erase-IsErased :
    (t : MemoryTarget) (id : RegionId) (i : ℕ)
    → t.locked ≡ false
    → Names t id i
    → (t' : MemoryTarget) × (erase t id ≡ done (success_bool, t')) × IsErased t i t'
unfolding contents
erase-IsErased t id i u n = (
  record t { regions = set t.regions i [] },
  erase_valid t id i u n,
  record {
    unlocked = u;
    emptied = get_elem?-set_self t.regions i [] n.1;
    kept = λ r. elim (Bool-cases (i == r.index)) [
      | inl e ↦ inl (ground (arith, e))
      | inr e ↦ inr (
          ap contents_or_undef
            (get_elem?-set_ne t.regions i r.index [] (λ k. ground (arith, e, k))))
    ];
    names = λ id' j. (
      λ m. (m.0, omega (arith, length-set t.regions i [])),
      λ m. (m.0, omega (arith, length-set t.regions i [])),
    );
  },
)

-- On an unlocked target either the id names a region, and `erase` succeeds, empties that region,
-- keeps the bytes of every other one and leaves every id meaning what it meant; or it names none,
-- and `erase` fails and changes nothing.
pub erase_lem :
    (t : MemoryTarget) (id : RegionId)
    → t.locked ≡ false
    → ((i : ℕ) × (t' : MemoryTarget) × Names t id i
        × (erase t id ≡ done (success_bool, t'))
        × IsErased t i t')
      ⊎ (((i : ℕ) → ¬ Names t id i) × (erase t id ≡ done (fail_bool "Invalid RegionID", t)))
erase_lem t id u = elim (Names-cases t id) [
  | inl (i, n) ↦ let (t', e, s) = erase-IsErased t id i u n in inl (i, t', n, e, s)
  | inr h ↦ inr (h, erase_invalid_at t id (region_id_to_index id) refl u h)
]
