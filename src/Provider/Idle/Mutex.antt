-- ===== src/Provider/Idle/Mutex.antt =====
-- The mutex of src/MemoryBackend.cpp as a lock discipline for the handlers of
-- src/ProviderImpl.hpp.
use mochi_warabi.Prelude.{
  String, ℕ, ◌+◌, ◌≡◌, refl, Bool, true, false, List, [], ◌∷◌, Option, none, some, length,
  get_elem?, take, ◌==◌, wrap, is_neg, to_nat, leb, ◌||◌,
}
use mochi_warabi.Run.{Ends, Ends->>=, Ends-if}
use mochi_warabi.Bytes.{Bytes, load, store}
use mochi_warabi.RegionId.{RegionId, region_id_to_index}
use mochi_warabi.Segments.{Segment, convert_to_segments, copy_in, copy_out, total_size}
use mochi_warabi.Network.{Network, IsPrompt}
use mochi_warabi.DefaultTransfer.{TransferManager, default_transfer}
use mochi_warabi.DefaultTransfer
use mochi_warabi.Memory.Region.{
  MemoryTarget, MemoryRegion, contents, contents_or_undef, gather, replace,
}
use mochi_warabi.Memory.Region
use mochi_warabi.Provider.{Unset}
use mochi_warabi.Provider.Stored.{provider_of}
use mochi_warabi.Provider.Idle.Requests.{IsIdle}
use mochi_warabi.Memory.{memory_backend, create, write, read, erase, close, open_region, lock}
use mochi_warabi.Provider.Idle.{Opened, IsDisciplined}

abbrev pub Unlocked : MemoryTarget → Type 0
Unlocked t = t.locked ≡ false

abbrev pub Locked : MemoryTarget → Type 0
Locked t = t.locked ≡ true

Any : {A : Type 0} → A → Type 0
Any _ = Unit {0}

load-Ends : (b : Bytes) (off n : ℕ) → Ends Any (load b off n)
unfolding load Any
load-Ends b off n = Ends-if Any _ _ (leb (off + n) (length b)) tt tt

store-Ends : (b : Bytes) (off : ℕ) (d : Bytes) → Ends Any (store b off d)
unfolding store Any
store-Ends b off d = Ends-if Any _ _ (leb (off + length d) (length b)) tt tt

copy_in-Ends : (ss : List Segment) (d : Bytes) (off : ℕ) (b : Bytes) → Ends Any (copy_in ss d off b)
unfolding copy_in Any
copy_in-Ends [] d off b = tt
copy_in-Ends ((o, n) ∷ ss) d off b = Ends->>= Any Any (load d off n) _ (load-Ends d off n) (λ c _.
    Ends->>= Any Any (store b o c) _ (store-Ends b o c)
      (λ b' _. copy_in-Ends ss d (wrap (off + n)) b'))

copy_out-Ends :
    (ss : List Segment) (b : Bytes) (off : ℕ) (p : Bytes) → Ends Any (copy_out ss b off p)
unfolding copy_out Any
copy_out-Ends [] b off p = tt
copy_out-Ends ((o, n) ∷ ss) b off p = Ends->>= Any Any (load b o n) _ (load-Ends b o n) (λ c _.
    Ends->>= Any Any (store p off c) _ (store-Ends p off c)
      (λ p' _. copy_out-Ends ss b (wrap (off + n)) p'))

gather-Ends : (ss : List Segment) (b : Bytes) → Ends Any (gather ss b)
unfolding gather Any
gather-Ends [] b = tt
gather-Ends ((o, n) ∷ ss) b =
    Ends->>= Any Any (load b o n) _ (load-Ends b o n)
      (λ c _. Ends->>= Any Any (gather ss b) _ (gather-Ends ss b) (λ d _. tt))

contents-Ends : (t : MemoryTarget) (r : MemoryRegion) → Ends Any (contents t r)
unfolding contents Any
contents-Ends t r = defined (get_elem? t.regions r.index)
  where
    defined : (o : Option Bytes) → Ends Any (contents_or_undef o)
    defined none = tt
    defined (some b) = tt

pub create_opens :
    (t : MemoryTarget) (size : ℕ)
    → Unlocked t
    → Ends (λ a. Opened Unlocked Locked a.0.value a.1) (create t size)
unfolding create lock
create_opens t size u = rw u refl

pub region_opens :
    (t : MemoryTarget) (id : RegionId)
    → Unlocked t
    → Ends (λ a. Opened Unlocked Locked a.0.value a.1) (open_region t id)
unfolding open_region lock
region_opens t id u =
    Ends-if (λ a. Opened Unlocked Locked a.0.value a.1) _ _ (is_neg (region_id_to_index id)) u
      (rw u (
        Ends-if (λ a. Opened Unlocked Locked a.0.value a.1) _ _
          (leb (length t.regions) (to_nat (region_id_to_index id))) refl refl))

pub erase_keeps :
    (t : MemoryTarget) (id : RegionId) → Unlocked t → Ends (λ a. Unlocked a.1) (erase t id)
unfolding erase lock
erase_keeps t id u = rw u (
    Ends-if (λ a. Unlocked a.1) _ _
      (is_neg (region_id_to_index id) || leb (length t.regions) (to_nat (region_id_to_index id)))
      refl refl)

pub write_keeps :
    (t : MemoryTarget) (r : MemoryRegion) (ss : List Segment) (d : Bytes) (persist : Bool)
    → Locked t
    → Ends (λ a. Locked a.1) (Region.write t r ss d persist)
unfolding Region.write
write_keeps t r ss d persist h =
    Ends->>= Any (λ a. Locked a.1) (contents t r) _ (contents-Ends t r)
      (λ b _.
        Ends->>= Any (λ a. Locked a.1) (copy_in (convert_to_segments ss) d 0 b) _
          (copy_in-Ends (convert_to_segments ss) d 0 b) (λ b' _. h))

pub read_keeps :
    (t : MemoryTarget) (r : MemoryRegion) (ss : List Segment) (buffer : Bytes)
    → Locked t
    → Ends (λ a. Locked a.2) (Region.read t r ss buffer)
unfolding Region.read
read_keeps t r ss buffer h =
    Ends-if (λ a. Locked a.2) _ _ (length (convert_to_segments ss) == 0) h
      (Ends->>= Any (λ a. Locked a.2) (contents t r) _ (contents-Ends t r)
        (λ b _.
          Ends->>= Any (λ a. Locked a.2) (copy_out (convert_to_segments ss) b 0 buffer) _
            (copy_out-Ends (convert_to_segments ss) b 0 buffer) (λ b' _. h)))

module _ (N : Network) (prompt : IsPrompt N) where
  pub write_bulk_keeps :
      (w : N.Remote) (t : MemoryTarget) (r : MemoryRegion) (ss : List Segment) (bulk : N.Bulk)
      (e : N.Endpoint) (offset : ℕ) (persist : Bool)
      → Locked t
      → Ends (λ a. Locked a.1) (Region.write_bulk N w t r ss bulk e offset persist)
  unfolding Region.write_bulk Any
  write_bulk_keeps w t r ss bulk e offset persist h =
      let size = total_size (convert_to_segments ss) in
      Ends-if (λ a. Locked a.1) _ _ (length (convert_to_segments ss) == 0) h
        (Ends->>= Any (λ a. Locked a.1) (contents t r) _ (contents-Ends t r)
          (λ b _.
            Ends->>= Any (λ a. Locked a.1) (N.pull w e bulk offset size) _
              (prompt.pull_ends w e bulk offset size)
              (λ d _.
                Ends->>= Any (λ a. Locked a.1) (copy_in (convert_to_segments ss) d 0 b) _
                  (copy_in-Ends (convert_to_segments ss) d 0 b) (λ b' _. h))))

  pub read_bulk_keeps :
      (w : N.Remote) (t : MemoryTarget) (r : MemoryRegion) (ss : List Segment) (bulk : N.Bulk)
      (e : N.Endpoint) (offset : ℕ)
      → Locked t
      → Ends (λ a. Locked a.2) (Region.read_bulk N w t r ss bulk e offset)
  unfolding Region.read_bulk Any
  read_bulk_keeps w t r ss bulk e offset h =
      Ends-if (λ a. Locked a.2) _ _ (length (convert_to_segments ss) == 0) h
        (Ends->>= Any (λ a. Locked a.2) (contents t r) _ (contents-Ends t r)
          (λ b _.
            Ends->>= Any (λ a. Locked a.2) (gather (convert_to_segments ss) b) _
              (gather-Ends (convert_to_segments ss) b)
              (λ d _.
                let leaving = take (total_size (convert_to_segments ss)) d in
                Ends->>= Any (λ a. Locked a.2) (N.push w e bulk offset leaving) _
                  (prompt.push_ends w e bulk offset leaving) (λ w' _. h))))

  -- The lock discipline of a target in memory: no handle is alive when the mutex is free.
  abbrev pub mutex_discipline :
      IsDisciplined N (memory_backend N) (default_transfer N (memory_backend N))
  unfolding write read Region.persist close DefaultTransfer.pull DefaultTransfer.push
  mutex_discipline = record {
    Idle = Unlocked;
    Held = Locked;
    create_lem = create_opens;
    write_lem = λ t id persist. region_opens t id;
    read_lem = region_opens;
    erase_lem = erase_keeps;
    region_write_lem = write_keeps;
    region_persist_lem = λ t r ss h. h;
    region_read_lem = read_keeps;
    pull_lem = write_bulk_keeps;
    push_lem = read_bulk_keeps;
    close_lem = λ t r h. refl;
  }

  pub Unlocked-IsIdle :
      (unset : Unset) (lookup_ends : (address : String) → Ends (λ e. Unit {0}) (N.lookup address))
      (t : MemoryTarget)
      → Unlocked t
      → IsIdle N
          (memory_backend N)
          (default_transfer N (memory_backend N))
          mutex_discipline
          unset
          lookup_ends
          (provider_of N t)
  unfolding mutex_discipline
  Unlocked-IsIdle unset lookup_ends t u = (refl, u)
