-- ===== src/Migration/Outcomes.antt =====
-- How `migrateTarget` of src/ProviderImpl.hpp ends for a target of src/PmemBackend.cpp and for one of
-- src/AbtIOBackend.cpp.
use mochi_warabi.Prelude.{ℕ, ◌≡◌, ◌⊎◌, String, Bool, true, false, Option, none, some}
use mochi_warabi.Run.{done}
use mochi_warabi.RwLock.{free_lock}
use mochi_warabi.Json.{Json}
use mochi_warabi.Remi.{Remi}
use mochi_warabi.Migration.Send.{Sender, Destination, prepare, migrate_target}
use mochi_warabi.Migration.Kept.{IsReadable, Settled-cases, migrate_target-Settled}
use mochi_warabi.Pmem.Region.{PmemTarget}
use mochi_warabi.Pmem.Migration
use mochi_warabi.Pmem.Reversible.{pmem_migratable, pmem-IsReversible, IsSamePool}
use mochi_warabi.AbtIo.Region.{AbtIoTarget}
use mochi_warabi.AbtIo.Migration.{abt_io_migratable, abt_io-IsReversible, IsSameFile}
use mochi_warabi.AbtIo.Migration as AbtIoMigration

module _ (J : Json) (R : Remi) where
  -- A migration of a pool that gets past its preparation, while no request holds the target's lock,
  -- and with options and a configuration of the target that can be read as the types that the code
  -- expects, ends, whatever REMI answers to any call. Either there is no exception and the sender has
  -- lost its target; or there is one and the sender has a target with the same file, the same mapped
  -- and the same durable content, whose lock is free, and whose pool is open if and only if
  -- `pmemobj_open` succeeds when the migration is cancelled.
  pub migrate_target-IsSamePool :
      (Heap : Type 0) (reopened : Bool) (w : R.World) (s : Sender (PmemTarget Heap))
      (d : Destination) (t : PmemTarget Heap) (options : J.Value) (id : ℕ) (remove : Bool)
      → s.target ≡ some t
      → t.lock ≡ free_lock
      → prepare J R (pmem_migratable Heap reopened) w s d ≡ done (options, id, remove)
      → IsReadable J R options t.config (Migration.get_root t)
      → (e : Option String) × (s' : Sender (PmemTarget Heap)) × (w' : R.World) × (migrate_target J R
            (pmem_migratable Heap reopened)
            w
            s
            d
          ≡ done (e, s', w'))
        × (((e ≡ none) × (s' ≡ record s { target = none }))
            ⊎ ((message : String) × (t' : PmemTarget Heap) × (e ≡ some message)
                × (s' ≡ record s { target = some t' })
                × (t'.lock ≡ free_lock)
                × IsSamePool Heap reopened t t'))
  unfolding Migration.get_root
  migrate_target-IsSamePool Heap reopened w s d t options id true has i p r =
      let law = pmem-IsReversible Heap reopened in
      let (e, s', w', run, settled) =
        migrate_target-Settled J R (pmem_migratable Heap reopened) law w s d t options id true has i
          p r in
      (e, s', w', run, Settled-cases J R (pmem_migratable Heap reopened) law s t e s' settled)
  migrate_target-IsSamePool Heap reopened w s d t options id false has i p r =
      let law = pmem-IsReversible Heap reopened in
      let (e, s', w', run, settled) =
        migrate_target-Settled J R (pmem_migratable Heap reopened) law w s d t options id false has
          i p r in
      (e, s', w', run, Settled-cases J R (pmem_migratable Heap reopened) law s t e s' settled)

  -- A migration of a target over an open file that gets past its preparation, while no request holds
  -- the target's lock, and with options and a configuration of the target that can be read as the
  -- types that the code expects, ends, whatever REMI answers to any call. Either there is no exception
  -- and the sender has lost its target; or there is one and the sender has a target over the same file
  -- with the same size, open, whose lock is free.
  pub migrate_target-IsSameFile :
      (File : Type 0) (w : R.World) (s : Sender (AbtIoTarget File)) (d : Destination)
      (t : AbtIoTarget File) (options : J.Value) (id : ℕ) (remove : Bool)
      → s.target ≡ some t
      → t.lock ≡ free_lock
      → t.is_open ≡ true
      → prepare J R abt_io_migratable w s d ≡ done (options, id, remove)
      → IsReadable J R options t.config (AbtIoMigration.get_root t)
      → (e : Option String) × (s' : Sender (AbtIoTarget File)) × (w' : R.World) × (migrate_target J
            R abt_io_migratable w s d
          ≡ done (e, s', w'))
        × (((e ≡ none) × (s' ≡ record s { target = none }))
            ⊎ ((message : String) × (t' : AbtIoTarget File) × (e ≡ some message)
                × (s' ≡ record s { target = some t' })
                × ((t'.lock ≡ free_lock) × (t'.is_open ≡ true))
                × IsSameFile t t'))
  unfolding AbtIoMigration.get_root
  migrate_target-IsSameFile File w s d t options id remove has l o p r =
      let (e, s', w', run, settled) =
        migrate_target-Settled J R abt_io_migratable abt_io-IsReversible w s d t options id remove
          has (l, o) p r in
      (e, s', w', run, Settled-cases J R abt_io_migratable abt_io-IsReversible s t e s' settled)
