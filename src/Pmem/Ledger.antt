-- ===== src/Pmem/Ledger.antt =====
-- Who holds the migration lock of src/PmemBackend.cpp: a request takes one read lock when it opens
-- its region, and the region's methods give it back.
use mochi_warabi.Prelude.{ℕ, ◌≡◌, refl, sym, Bool, true, false, List, [], some, arith, ltb, ◌||◌}
use mochi_warabi.Run.{done, stuck}
use mochi_warabi.Bytes.{Bytes}
use mochi_warabi.Result.{succeed, success_bool}
use mochi_warabi.RegionId.{RegionId}
use mochi_warabi.RwLock.{RwLock, one_reader, readers_left}
use mochi_warabi.Segments.{Segment, convert_to_segments, shift}
use mochi_warabi.Pmem.Region.{Pmemobj, Oid, PmemTarget, PmemRegion, segments_at}
use mochi_warabi.Pmem.Region
use mochi_warabi.Pmem.Durable.{Fits, write_lem}
use mochi_warabi.Pmem.Migration.{start_migration}
use mochi_warabi.Pmem.{create, write, read, erase, close, region_id_to_oid, oid_to_region_id}

migration_waits :
    {Heap : Type 0} (t : PmemTarget Heap) (k : ℕ) (remove_source : Bool)
    → t.lock ≡ one_reader k
    → start_migration t remove_source ≡ stuck
unfolding start_migration
migration_waits t k remove_source h =
    let l : (t.lock.writer || ltb 0 t.lock.readers) ≡ true = rw h (ground arith) in rw l refl

module _ (P : Pmemobj) where
  abbrev pub handle : RegionId → ℕ → PmemRegion
  handle rid p = record { id = rid; ptr = p }

  abbrev pub with_lock : PmemTarget P.Heap → RwLock → PmemTarget P.Heap
  with_lock t l = record t { lock = l }

  open_lem :
      (t : PmemTarget P.Heap) (rid : RegionId) (p k : ℕ) (persist : Bool)
      → t.lock ≡ readers_left k
      → P.direct (region_id_to_oid rid) ≡ some p
      → (write P t rid persist ≡ done (succeed (some (handle rid p)), with_lock t (one_reader k)))
        × (read P t rid ≡ done (succeed (some (handle rid p)), with_lock t (one_reader k)))
  unfolding write read
  open_lem t rid p k persist u e = (rw e (rw u refl), rw e (rw u refl))

  -- While no migration holds the lock, a request that opens a region with a valid id for writing and
  -- writes to it locally, to places that lie in the pool and do not overlap, whose sizes add up to that
  -- of the data, below 2 ^ 64, while the mapping and its durable copy have one size: each step
  -- succeeds, and when the handle is dropped the lock has as many readers as before. The data may be
  -- empty.
  pub write_balanced :
      (t : PmemTarget P.Heap) (rid : RegionId) (p k : ℕ) (ss : List Segment) (d : Bytes)
      (persist : Bool)
      → t.lock ≡ readers_left k
      → P.direct (region_id_to_oid rid) ≡ some p
      → Fits (with_lock t (one_reader k)) (handle rid p) ss d
      → (opened t' : PmemTarget P.Heap) × (write P t rid persist
          ≡ done (succeed (some (handle rid p)), opened))
        × (Region.write opened (handle rid p) ss d persist ≡ done (success_bool, t'))
        × (close P t' (handle rid p) ≡ done t')
        × (t'.lock ≡ t.lock)
  unfolding close
  write_balanced t rid p k ss d persist u e f =
      let (memory, durable, written, held, lm, ld, durable_held, kept) =
        write_lem (with_lock t (one_reader k)) (handle rid p) ss d persist k refl f in
      (
        with_lock t (one_reader k),
        record t { memory = memory; durable = durable; lock = readers_left k },
        (open_lem t rid p k persist u e).0,
        written,
        refl,
        sym u,
      )

  -- Three requests keep the lock, so that a migration waits for ever: one that creates a region and
  -- drops the handle, one that erases a region, and one that opens a region to read no bytes.
  pub lock_leaks :
      (t : PmemTarget P.Heap) (rid : RegionId) (oid : Oid) (heap : P.Heap) (p q k size : ℕ)
      (buf : Bytes) (remove_source : Bool)
      → t.lock ≡ readers_left k
      → P.direct (region_id_to_oid rid) ≡ some p
      → P.alloc t.heap size ≡ some (oid, heap)
      → P.direct oid ≡ some q
      → (created erased opened : PmemTarget P.Heap) × (create P t size
          ≡ done (succeed (some (handle (oid_to_region_id oid) q)), created))
        × (close P created (handle (oid_to_region_id oid) q) ≡ done created)
        × (start_migration created remove_source ≡ stuck)
        × (erase P t rid ≡ done (success_bool, erased))
        × (start_migration erased remove_source ≡ stuck)
        × (read P t rid ≡ done (succeed (some (handle rid p)), opened))
        × (Region.read opened (handle rid p) [] buf ≡ done (success_bool, buf, opened))
        × (start_migration opened remove_source ≡ stuck)
  unfolding create erase close Region.read segments_at shift convert_to_segments
  lock_leaks t rid oid heap p q k size buf remove_source u e a b =
      let created = record t { heap = heap; lock = one_reader k } in
      let erased = record t { heap = P.free t.heap (region_id_to_oid rid); lock = one_reader k } in
      (
        created,
        erased,
        with_lock t (one_reader k),
        rw u (rw a (rw b refl)),
        refl,
        migration_waits created k remove_source refl,
        rw e (rw u refl),
        migration_waits erased k remove_source refl,
        (open_lem t rid p k false u e).1,
        refl,
        migration_waits (with_lock t (one_reader k)) k remove_source refl,
      )
