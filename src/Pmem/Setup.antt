-- ===== src/Pmem/Setup.antt =====
-- `PmemTarget::create`, `recover` and `validate` of src/PmemBackend.cpp: a target over the pool in a
-- file.
use mochi_warabi.Prelude.{
  ℕ, String, true, false, not, ◌&&◌, List, [], ◌∷◌, Option, none, some, if◌then◌else◌, ◌==◌,
}
use mochi_warabi.Run.{Run, done, ◌>>=◌}
use mochi_warabi.Bytes.{Bytes}
use mochi_warabi.Result.{Result, BoolResult, succeed, fail, success_bool, fail_bool}
use mochi_warabi.RwLock.{free_lock}
use mochi_warabi.Json.{Json}
use mochi_warabi.FileSystem.{FileSystem}
use mochi_warabi.Pmem.Region.{PmemTarget}

-- `pmemobj_open` and `pmemobj_create`, with what the pool holds: the allocator's state and the memory.
pub record Pools (Heap Disk : Type 0) : Type 0 where
  pub open_pool : Disk → List ℕ → Option (Heap × Bytes) × Disk
  pub create_pool : Disk → List ℕ → ℕ → Option (Heap × Bytes) × Disk
  -- `pmemobj_errormsg()` in the messages of `create` and of `recover`
  pub create_error : String
  pub open_error : List ℕ → String

module _ (J : Json) (F : FileSystem) (Heap : Type 0) (P : Pools Heap F.Disk) where
  open F use {Disk, exists, remove, create_parent}
  open P use {open_pool, create_pool}

  -- The constructor. An open pool is mapped, and what is mapped is durable.
  abbrev pub new_target : J.Value → List ℕ → Heap × Bytes → PmemTarget Heap
  new_target config path (heap, memory) = record {
    config = J.dump config;
    filename = path;
    pool_open = true;
    file_exists = true;
    heap = heap;
    memory = memory;
    durable = memory;
    lock = free_lock;
  }

  -- `if(!pool)`, or the target over the pool.
  abbrev pub with_pool :
      String
      → J.Value
      → List ℕ
      → Option (Heap × Bytes) × Disk
      → Run (Result (Option (PmemTarget Heap)) × Disk)
  with_pool message config path (none, d) = done (fail message none, d)
  with_pool message config path (some pool, d) =
      done (succeed (some (new_target config path pool)), d)

  unfoldable pub create : Disk → J.Value → Run (Result (Option (PmemTarget Heap)) × Disk)
  create d config = do
    path ← J.get_path config "path"
    create_if_missing_with_size ← J.value_size config "create_if_missing_with_size" 0
    override_if_exists ← J.value_bool config "override_if_exists" false
    let overridden = exists d path && override_if_exists
    let d' = if overridden then remove d path else d
    let file_exists = exists d path && not override_if_exists
    with_pool P.create_error config path (
        if file_exists
        then open_pool d' path
        else create_pool (create_parent d' path) path create_if_missing_with_size)

  unfoldable pub recover :
      Disk → J.Value → List (List ℕ) → Run (Result (Option (PmemTarget Heap)) × Disk)
  recover d config [] = done (fail "No file to recover from" none, d)
  recover d config (path ∷ []) =
      if exists d path
      then with_pool (P.open_error path) (J.set_path config "path" path) path (open_pool d path)
      else done (fail (J.format_path "File {} not found" path "") none, d)
  recover d config (path ∷ path' ∷ filenames) =
      done (fail "Pmem backend cannot recover from multiple files" none, d)

  abbrev pub validate_files : Disk → J.Value → Option String → Run BoolResult
  validate_files d config (some what) =
      done (
        fail_bool (J.format "Error(s) while validating JSON config for warabi PmemTarget: {}" what))
  validate_files d config none = do
    path ← J.get_path config "path"
    create_if_missing_with_size ← J.value_size config "create_if_missing_with_size" 0
    override_if_exists ← J.value_bool config "override_if_exists" false
    done (
        if not (exists d path) && create_if_missing_with_size == 0
        then fail_bool (
            J.format_path
              "File {} does not exist but \"create_if_missing_with_size\" was not specified in configuration"
              path "")
        else if override_if_exists && create_if_missing_with_size == 0
        then fail_bool
            "\"override_if_exists\" set to true but \"create_if_missing_with_size\" not specified"
        else success_bool)

  unfoldable pub validate : Disk → J.Value → Run BoolResult
  validate d config = validate_files d config (J.violation "pmem target" config)
