-- ===== src/AbtIo/Migration.antt =====
-- `AbtIOMigrationHandle` of src/AbtIOBackend.hpp, and `startMigration` of src/AbtIOBackend.cpp.
use mochi_warabi.Prelude.{ℕ, ◌≡◌, refl, Bool, true, false, List, Option, some, if◌then◌else◌}
use mochi_warabi.Run.{Run, done, ◌>>=◌, ◌>>◌}
use mochi_warabi.Result.{Result, succeed}
use mochi_warabi.RwLock.{RwLock, free_lock, written_lock, wrlock, unlock}
use mochi_warabi.FilePath
use mochi_warabi.Migration.{Migratable}
use mochi_warabi.Migration.Kept.{IsReversible}
use mochi_warabi.AbtIo.Region.{AbtIoTarget, in_use}

pub record AbtIoMigrationHandle : Type 0 where
  pub remove_source : Bool

module _ {File : Type 0} where
  unfoldable pub start_migration :
      AbtIoTarget File → Bool → Run (Result (Option AbtIoMigrationHandle) × AbtIoTarget File)
  start_migration t remove_source = do
    lock ← wrlock t.lock
    done (succeed (some (record { remove_source = remove_source })), record t { lock = lock })

  unfoldable pub cancel :
      AbtIoTarget File → AbtIoMigrationHandle → AbtIoMigrationHandle × AbtIoTarget File
  cancel t h = (record h { remove_source = false }, t)

  -- The destructor: `destroy()` if the source is to be removed, then the lock.
  unfoldable pub end_migration : AbtIoTarget File → AbtIoMigrationHandle → Run (AbtIoTarget File)
  end_migration t h = do
    t' ←
        if h.remove_source
        then (in_use t >> done (record t { is_open = false; file_exists = false }))
        else done t
    lock ← unlock t'.lock
    done (record t' { lock = lock })

  unfoldable pub get_root : AbtIoTarget File → List ℕ
  get_root t = FilePath.get_root t.filename

  unfoldable pub get_files : AbtIoTarget File → List (List ℕ)
  get_files t = FilePath.get_files t.filename

  -- The class, as a provider that sends a target sees it.
  abbrev pub abt_io_migratable : Migratable (AbtIoTarget File)
  abt_io_migratable = record {
    Handle = AbtIoMigrationHandle;
    name = λ t. "abtio";
    get_config = λ t. t.config;
    start_migration = start_migration;
    get_root = λ t h. get_root t;
    get_files = λ t h. get_files t;
    cancel = cancel;
    end_migration = end_migration;
  }

  -- The same file, with the same content.
  pub record IsSameFile (t t' : AbtIoTarget File) : Type 0 where
    pub filename_lem : t'.filename ≡ t.filename
    pub file_lem : t'.file ≡ t.file
    pub file_size_lem : t'.file_size ≡ t.file_size
    pub is_open_lem : t'.is_open ≡ t.is_open
    pub file_exists_lem : t'.file_exists ≡ t.file_exists

  abbrev pub with_lock : AbtIoTarget File → RwLock → AbtIoTarget File
  with_lock t l = record t { lock = l }

  pub start_free :
      (t : AbtIoTarget File) (remove : Bool)
      → t.lock ≡ free_lock
      → start_migration t remove
        ≡ done (succeed (some (record { remove_source = remove })), with_lock t written_lock)
  unfolding start_migration
  start_free t remove e = rw e refl

  abbrev pub left : AbtIoTarget File → Bool → AbtIoTarget File
  left t remove =
      let t' = if remove then record t { is_open = false; file_exists = false } else t in
      with_lock t' free_lock

  pub end_free :
      (t : AbtIoTarget File) (remove : Bool)
      → t.is_open ≡ true
      → end_migration (with_lock t written_lock) (record { remove_source = remove })
        ≡ done (left t remove)
  unfolding end_migration
  end_free t true o = rw o refl
  end_free t false o = refl

  pub cancel_free :
      (t : AbtIoTarget File) (remove : Bool)
      → end_migration
          (cancel (with_lock t written_lock) (record { remove_source = remove })).1
          (cancel (with_lock t written_lock) (record { remove_source = remove })).0
        ≡ done (with_lock t free_lock)
  unfolding end_migration cancel
  cancel_free t remove = refl

  abbrev pub abt_io-IsReversible : IsReversible abt_io_migratable
  abt_io-IsReversible = record {
    Idle = λ t. (t.lock ≡ free_lock) × (t.is_open ≡ true);
    Same = IsSameFile;
    opened = λ t remove. with_lock t written_lock;
    handle = λ t remove. record { remove_source = remove };
    restored = λ t remove. with_lock t free_lock;
    ended = left;
    start_lem = λ t remove i. start_free t remove i.0;
    cancel_lem = λ t remove e. cancel_free t remove;
    end_lem = λ t remove i. end_free t remove i.1;
    restored-Idle = λ t remove i. (refl, i.1);
    restored-Same = λ t remove e. record {
      filename_lem = refl;
      file_lem = refl;
      file_size_lem = refl;
      is_open_lem = refl;
      file_exists_lem = refl;
    };
  }
