-- ===== src/FileSystem.antt =====
-- What the code uses of the file system, by names of files as bytes. It is not part of the
-- repository.
use mochi_warabi.Prelude.{ℕ, ◌≡◌, Bool, false, List, ℤ}

pub record FileSystem : Type 1 where
  pub Disk : Type 0
  -- `std::filesystem::exists`, `remove`, and `create_directories` of the parent
  pub exists : Disk → List ℕ → Bool
  pub remove : Disk → List ℕ → Disk
  pub create_parent : Disk → List ℕ → Disk
  -- `open` with `O_EXCL|O_WRONLY|O_CREAT`, and `close`
  pub open_new : Disk → List ℕ → ℤ × Disk

-- A file that was removed is not there, and making its parent does not bring it back.
pub record IsFileSystem (F : FileSystem) : Type 0 where
  pub exists-remove : (d : F.Disk) (path : List ℕ) → F.exists (F.remove d path) path ≡ false
