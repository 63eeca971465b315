-- ===== src/Pmem/Reversible.antt =====
-- The migration handle of src/PmemBackend.hpp, as a provider that sends a target uses it.
use mochi_warabi.Prelude.{◌≡◌, refl, Bool, true, false, Option, some, if◌then◌else◌}
use mochi_warabi.Run.{Run, done, ◌>>=◌}
use mochi_warabi.Result.{Result, succeed}
use mochi_warabi.RwLock.{RwLock, free_lock, written_lock}
use mochi_warabi.Migration.{Migratable}
use mochi_warabi.Migration.Kept.{IsReversible}
use mochi_warabi.Pmem.Region.{PmemTarget}
use mochi_warabi.Pmem.Migration.{
  PmemMigrationHandle, start_migration, cancel, end_migration, get_root, get_files,
}

module _ (Heap : Type 0) where
  -- `startMigration`
  unfoldable pub start_with_result :
      PmemTarget Heap → Bool → Run (Result (Option PmemMigrationHandle) × PmemTarget Heap)
  unfolding start_migration
  start_with_result t remove_source = do
    (h, t') ← start_migration t remove_source
    done (succeed (some h), t')

  -- `reopened` is whether `pmemobj_open` succeeds when a migration is cancelled.
  abbrev pub pmem_migratable : Bool → Migratable (PmemTarget Heap)
  pmem_migratable reopened = record {
    Handle = PmemMigrationHandle;
    name = λ t. "pmdk";
    get_config = λ t. t.config;
    start_migration = start_with_result;
    get_root = λ t h. get_root t;
    get_files = λ t h. get_files t;
    cancel = cancel reopened;
    end_migration = end_migration;
  }

  -- The same pool, with the same content. It is open if it could be opened again.
  pub record IsSamePool (reopened : Bool) (t t' : PmemTarget Heap) : Type 0 where
    pub filename_lem : t'.filename ≡ t.filename
    pub heap_lem : t'.heap ≡ t.heap
    pub memory_lem : t'.memory ≡ t.memory
    pub durable_lem : t'.durable ≡ t.durable
    pub pool_open_lem : t'.pool_open ≡ reopened
    pub file_exists_lem : t'.file_exists ≡ t.file_exists

  abbrev pub with_lock : PmemTarget Heap → RwLock → PmemTarget Heap
  with_lock t l = record t { lock = l }

  -- The pool is closed while it is migrated, if it is to be removed.
  abbrev pub opened : PmemTarget Heap → Bool → PmemTarget Heap
  opened t remove =
      let held = with_lock t written_lock in
      if remove then record held { pool_open = false } else held

  abbrev pub handle : Bool → PmemMigrationHandle
  handle remove = record { remove_source = remove }

  pub start_free :
      (t : PmemTarget Heap) (remove : Bool)
      → t.lock ≡ free_lock
      → start_with_result t remove ≡ done (succeed (some (handle remove)), opened t remove)
  unfolding start_with_result start_migration
  start_free t remove e = rw e refl

  abbrev pub left : PmemTarget Heap → Bool → PmemTarget Heap
  left t remove =
      let t' = if remove then record t { pool_open = false; file_exists = false } else t in
      with_lock t' free_lock

  pub end_free :
      (t : PmemTarget Heap) (remove : Bool)
      → end_migration (opened t remove) (handle remove) ≡ done (left t remove)
  unfolding end_migration
  end_free t true = refl
  end_free t false = refl

  abbrev pub reopened_target : Bool → PmemTarget Heap → PmemTarget Heap
  reopened_target reopened t = record (with_lock t free_lock) { pool_open = reopened }

  pub cancel_free :
      (reopened : Bool) (t : PmemTarget Heap) (remove : Bool)
      → end_migration
          (cancel reopened (opened t remove) (handle remove)).1
          (cancel reopened (opened t remove) (handle remove)).0
        ≡ done (reopened_target reopened t)
  unfolding end_migration cancel
  cancel_free reopened t true = refl
  cancel_free reopened t false = refl

  abbrev pub pmem-IsReversible : (reopened : Bool) → IsReversible (pmem_migratable reopened)
  pmem-IsReversible reopened = record {
    Idle = λ t. t.lock ≡ free_lock;
    Same = IsSamePool reopened;
    opened = opened;
    handle = λ t remove. handle remove;
    restored = λ t remove. reopened_target reopened t;
    ended = left;
    start_lem = start_free;
    cancel_lem = λ t remove e. cancel_free reopened t remove;
    end_lem = λ t remove e. end_free t remove;
    restored-Idle = λ t remove e. refl;
    restored-Same = λ t remove e. record {
      filename_lem = refl;
      heap_lem = refl;
      memory_lem = refl;
      durable_lem = refl;
      pool_open_lem = refl;
      file_exists_lem = refl;
    };
  }
