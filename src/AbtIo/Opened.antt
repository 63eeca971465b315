-- ===== src/AbtIo/Opened.antt =====
-- How `create` and `recover` of src/AbtIOBackend.cpp open the file of a target.
use mochi_warabi.Prelude.{ℕ, suc, ◌≡◌, Bool, true, false, List, [], ◌∷◌, Option, some, ℤ, pos}
use mochi_warabi.Run.{Run, done}
use mochi_warabi.Result.{Result}
use mochi_warabi.RwLock.{free_lock}
use mochi_warabi.Json.{Json}
use mochi_warabi.FileSystem.{FileSystem}
use mochi_warabi.AbtIo.Region.{AbtIoTarget}
use mochi_warabi.AbtIo.Setup.{Opener, open_retry, start_instance}

module _ (J : Json) (F : FileSystem) (File : Type 0) (O : Opener File F.Disk) where
  open F use {Disk, exists, remove, create_parent, open_new}
  open O use {open_file, fstat}

  -- The target that the constructor makes over a file.
  abbrev pub target_over : J.Value → List ℕ → ℕ × File → ℕ → AbtIoTarget File
  target_over config path (size, file) alignment = record {
    config = J.dump config;
    filename = path;
    is_open = true;
    file_exists = true;
    file = file;
    file_size = size;
    alignment = alignment;
    lock = free_lock;
  }

  -- What becomes of the descriptor that was opened with a configuration: it is positive, and the
  -- target is over the file that `fstat` finds for it.
  pub record IsOver (path : List ℕ) (o : ℤ × J.Value × Disk) (t : AbtIoTarget File) (d : Disk)
      : Type 0 where
    pub descriptor : ℕ
    pub found : ℕ × File
    pub alignment : ℕ
    pub opened : o.0 ≡ pos (suc descriptor)
    pub stat : fstat o.2 (suc descriptor) ≡ some found
    pub aligned : J.value_size o.1 "alignment" 8 ≡ done alignment
    pub made : t ≡ target_over o.1 path found alignment
    pub disk : d ≡ o.2

  -- There is one file, it is there, ABT-IO starts, and the file is opened; the file system may refuse
  -- `O_DIRECT`, in which case it is asked again without, and the configuration says so.
  pub record IsRecovered (d : Disk) (config : J.Value) (files : List (List ℕ))
      (t : AbtIoTarget File) (d' : Disk) : Type 0 where
    pub path : List ℕ
    pub directio : Bool
    pub single : files ≡ path ∷ []
    pub asked : J.value_bool (J.set_path config "path" path) "directio" false ≡ done directio
    pub present : exists d path ≡ true
    pub started : start_instance J F File O (J.set_path config "path" path) ≡ true
    pub over :
        IsOver path (open_retry J F File O d (J.set_path config "path" path) path directio) t d'
