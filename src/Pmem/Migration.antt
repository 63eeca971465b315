-- ===== src/Pmem/Migration.antt =====
-- `PmemMigrationHandle` of src/PmemBackend.hpp, and `startMigration`.
use mochi_warabi.Prelude.{ℕ, Bool, false, List, if◌then◌else◌}
use mochi_warabi.Run.{Run, done, ◌>>=◌}
use mochi_warabi.RwLock.{wrlock}
use mochi_warabi.FilePath
use mochi_warabi.Pmem.Region.{PmemTarget, released}

pub record PmemMigrationHandle : Type 0 where
  pub remove_source : Bool

module _ {Heap : Type 0} where
  -- The constructor.
  unfoldable pub start_migration :
      PmemTarget Heap → Bool → Run (PmemMigrationHandle × PmemTarget Heap)
  start_migration t remove_source = do
    lock ← wrlock t.lock
    let held = record t { lock = lock }
    done (
      record { remove_source = remove_source },
      if remove_source then record held { pool_open = false } else held,
    )

  -- The pool is opened again; `reopened` is whether `pmemobj_open` succeeds.
  unfoldable pub cancel :
      Bool → PmemTarget Heap → PmemMigrationHandle → PmemMigrationHandle × PmemTarget Heap
  cancel reopened t h = (record h { remove_source = false }, record t { pool_open = reopened })

  -- The destructor: `destroy()` if the source is to be removed, then the lock.
  unfoldable pub end_migration : PmemTarget Heap → PmemMigrationHandle → Run (PmemTarget Heap)
  end_migration t h =
      released (if h.remove_source then record t { pool_open = false; file_exists = false } else t)

  unfoldable pub get_root : PmemTarget Heap → List ℕ
  get_root t = FilePath.get_root t.filename

  unfoldable pub get_files : PmemTarget Heap → List (List ℕ)
  get_files t = FilePath.get_files t.filename
