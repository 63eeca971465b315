-- ===== src/AbtIo/Setup.antt =====
-- `AbtIOTarget::create`, `recover` and `validate` of src/AbtIOBackend.cpp: a target over a file that
-- ABT-IO opens.
use mochi_warabi.Prelude.{
  ℕ, zero, suc, String, Bool, true, false, not, ◌&&◌, List, [], ◌∷◌, Option, none, some,
  if◌then◌else◌, ◌==◌, ℤ, pos, negsuc,
}
use mochi_warabi.Run.{Run, done, ◌>>=◌}
use mochi_warabi.Result.{Result, BoolResult, succeed, fail, success_bool, fail_bool}
use mochi_warabi.RwLock.{free_lock}
use mochi_warabi.Json.{Json}
use mochi_warabi.FileSystem.{FileSystem}
use mochi_warabi.AbtIo.Region.{AbtIoTarget}

-- The start of an ABT-IO instance (whether there is one), `abt_io_open` with and without `O_DIRECT`,
-- and `fstat` with the file that a descriptor refers to.
pub record Opener (File Disk : Type 0) : Type 0 where
  pub init_ext : String → Bool
  pub init : ℕ → Bool
  pub open_file : Disk → List ℕ → Bool → ℤ × Disk
  pub fstat : Disk → ℕ → Option (ℕ × File)
  -- the messages with the text of `strerror`
  pub open_error : List ℕ → ℤ → String
  pub fstat_error : List ℕ → String
  pub new_file_error : List ℕ → String

-- `fd == -EINVAL`
abbrev pub is_einval : ℤ → Bool
is_einval (pos n) = false
is_einval (negsuc n) = n == 21

-- `!fd`
abbrev pub is_zero : ℤ → Bool
is_zero (pos n) = n == 0
is_zero (negsuc n) = false

module _ (J : Json) (F : FileSystem) (File : Type 0) (O : Opener File F.Disk) where
  open F use {Disk, exists, remove, create_parent, open_new}
  open O use {open_file, fstat}

  abbrev pub Made : Type 0
  Made = Run (Result (Option (AbtIoTarget File)) × Disk)

  unfoldable pub start_instance : J.Value → Bool
  start_instance config =
      if J.contains config "abt_io" then O.init_ext (J.dump (J.get config "abt_io")) else O.init 1

  -- A file that is opened with `O_DIRECT` and refuses it is opened once more without, and the
  -- configuration says so: the test of the loop fails the second time.
  unfoldable pub open_retry : Disk → J.Value → List ℕ → Bool → ℤ × J.Value × Disk
  open_retry d config path directio =
      let (fd, d') = open_file d path directio in
      if is_einval fd && directio
      then (let (fd', d'') = open_file d' path false in
          (fd', J.set_bool config "directio" false, d''))
      else (fd, config, d')

  -- The constructor, over the descriptor of a file whose size was found.
  abbrev pub with_stat : Disk → J.Value → List ℕ → Option (ℕ × File) → Made
  with_stat d config path none = done (fail (O.fstat_error path) none, d)
  with_stat d config path (some (size, file)) = do
    alignment ← J.value_size config "alignment" 8
    done (
      succeed (
          some (record {
            config = J.dump config;
            filename = path;
            is_open = true;
            file_exists = true;
            file = file;
            file_size = size;
            alignment = alignment;
            lock = free_lock;
          })),
      d,
    )

  -- From the descriptor on: it is refused unless it is positive.
  abbrev pub with_descriptor : List ℕ → ℤ × J.Value × Disk → Made
  with_descriptor path (pos zero, config, d) = done (fail (O.open_error path (pos zero)) none, d)
  with_descriptor path (pos (suc fd), config, d) = with_stat d config path (fstat d (suc fd))
  with_descriptor path (negsuc n, config, d) = done (fail (O.open_error path (negsuc n)) none, d)

  -- The file is made if it is not there, and opened again later.
  abbrev pub with_new_file : J.Value → List ℕ → Bool → ℤ × Disk → Made
  with_new_file config path directio (fd, d) =
      if is_zero fd
      then done (fail (O.new_file_error path) none, d)
      else with_descriptor path (open_retry d config path directio)

  unfoldable pub create : Disk → J.Value → Made
  unfolding start_instance open_retry
  create d config = do
    path ← J.get_path config "path"
    override_if_exists ← J.value_bool config "override_if_exists" false
    directio ← J.value_bool config "directio" false
    let d' = if exists d path && override_if_exists then remove d path else d
    if start_instance config
        then (if exists d path && not override_if_exists
            then with_descriptor path (open_retry d' config path directio)
            else with_new_file config path directio (open_new (create_parent d' path) path))
        else done (fail "Could not create ABT-IO instance" none, d)

  unfoldable pub recover : Disk → J.Value → List (List ℕ) → Made
  unfolding start_instance open_retry
  recover d config [] = done (fail "No file to recover from" none, d)
  recover d config (path ∷ []) = do
    let config' = J.set_path config "path" path
    directio ← J.value_bool config' "directio" false
    if exists d path
        then (if start_instance config'
            then with_descriptor path (open_retry d config' path directio)
            else done (fail "Could not create ABT-IO instance" none, d))
        else done (fail (J.format_path "File {} not found" path "") none, d)
  recover d config (path ∷ path' ∷ filenames) =
      done (fail "AbtIO backend cannot recover from multiple files" none, d)

  abbrev pub validate_files : Disk → J.Value → Option String → Run BoolResult
  validate_files d config (some what) =
      done (
        fail_bool
          (J.format "Error(s) while validating JSON config for warabi AbtIOTarget: {}" what))
  validate_files d config none = do
    path ← J.get_path config "path"
    create_if_missing ← J.value_bool config "create_if_missing" false
    done (
        if not (exists d path) && not create_if_missing
        then fail_bool (J.format_path "File {} does not exist" path "")
        else success_bool)

  unfoldable pub validate : Disk → J.Value → Run BoolResult
  validate d config = validate_files d config (J.violation "abtio target" config)
