-- ===== src/Examples/Setups.antt =====
-- Factories, providers and targets that are made from a configuration, at concrete inputs.
use mochi_warabi.Prelude.{
  ℕ, ◌≡◌, ◌≢◌, ◌⊎◌, refl, String, Bool, true, false, List, [], ◌∷◌, none, some, pos, str_eq,
  if◌then◌else◌,
}
use mochi_warabi.Run.{done}
use mochi_warabi.Result.{succeed, success_bool}
use mochi_warabi.RwLock.{free_lock}
use mochi_warabi.Examples.Settings.{plain_json}
use mochi_warabi.Examples.Targets.{empty_target}
use mochi_warabi.FileSystem.{FileSystem}
use mochi_warabi.Memory.Region.{MemoryTarget}
use mochi_warabi.Memory.{make, recover as recover_memory}
use mochi_warabi.Factory.{
  BackendType, ManagerFactory, Named, lookup, insert, with_name, register_manager, validate_target,
  create_target, recover_target, create_manager, validate_manager,
}
use mochi_warabi.Factory.Registered.{factory_of, validate_by, create_by, recover_by, factory_of_lem}
use mochi_warabi.Provider.Setup.{
  Members, construct, attach_manager, attach_target, set_target, set_transfer_manager,
}
use mochi_warabi.Provider.Setup.Attached.{IsValidated, IsMadeFrom, construct-IsMadeFrom}
use mochi_warabi.Pmem.Setup.{Pools, with_pool, create, recover, validate}
use mochi_warabi.Pmem.Recovered.{create-validate}
use mochi_warabi.AbtIo.Region.{AbtIoTarget}
use mochi_warabi.AbtIo.Setup.{Opener, open_retry, start_instance}
use mochi_warabi.AbtIo.Setup

abbrev memory_type : BackendType plain_json MemoryTarget
memory_type = record {
  create = λ config. done (make "{}");
  recover = λ config files. done (recover_memory "{}" []);
  validate = λ config. done success_bool;
}

abbrev types : List (String × BackendType plain_json MemoryTarget)
types = ("memory", memory_type) ∷ []

abbrev managers : ManagerFactory plain_json (Unit {0})
unfolding register_manager insert with_name
managers =
    register_manager plain_json (Unit {0}) "__default__"
      (record {
        create = λ config. done (succeed (some tt));
        validate = λ config. done success_bool;
      })
      (record { create_fn = []; validate_fn = [] })

abbrev memory_named : Named plain_json MemoryTarget
memory_named = record { name = "memory"; target = empty_target }

abbrev without_target : Members plain_json MemoryTarget (Unit {0})
without_target = record {
  target = none;
  transfer_manager = some (record { name = "__default__"; target = tt });
}

abbrev ready : Members plain_json MemoryTarget (Unit {0})
ready = record without_target { target = some memory_named }

constructed :
    construct plain_json MemoryTarget
      (Unit {0})
      (factory_of plain_json MemoryTarget types)
      managers
      ""
      none
    ≡ done ready
unfolding construct attach_manager attach_target set_target set_transfer_manager validate_manager
    create_manager validate_target create_target lookup insert with_name factory_of register_manager
    make
constructed = refl

-- "/a"
abbrev slash_a : List ℕ
slash_a = b'/' ∷ b'a' ∷ []

-- A disk is whether its one file is there.
abbrev one_file : FileSystem
one_file = record {
  Disk = Bool;
  exists = λ d path. d;
  remove = λ d path. false;
  create_parent = λ d path. d;
  open_new = λ d path. (pos 3, true);
}

abbrev pools : Pools (Unit {0}) Bool
pools = record {
  open_pool = λ d path. (some (tt, 1 ∷ 2 ∷ []), d);
  create_pool = λ d path size. (some (tt, []), true);
  create_error = "cannot create";
  open_error = λ path. "cannot open";
}

abbrev no_size : ℕ
no_size = 0

found_valid : validate plain_json one_file (Unit {0}) pools true tt ≡ done success_bool
unfolding validate
found_valid = refl

abbrev opener : Opener (Unit {0}) Bool
opener = record {
  init_ext = λ config. true;
  init = λ n. true;
  open_file = λ d path direct. (pos 3, d);
  fstat = λ d fd. some (8, tt);
  open_error = λ path code. "cannot open";
  fstat_error = λ path. "cannot stat";
  new_file_error = λ path. "cannot create";
}

abbrev opened_target : AbtIoTarget (Unit {0})
opened_target = record {
  config = "{}";
  filename = slash_a;
  is_open = true;
  file_exists = true;
  file = tt;
  file_size = 8;
  alignment = 8;
  lock = free_lock;
}

recovered :
    Setup.recover plain_json one_file (Unit {0}) opener true tt (slash_a ∷ [])
    ≡ done (succeed (some opened_target), true)
unfolding Setup.recover start_instance open_retry
recovered = refl

factory_of_lem_example :
    (validate_target plain_json MemoryTarget
        (factory_of plain_json MemoryTarget types)
        ("memory")
        tt
      ≡ validate_by plain_json MemoryTarget ("memory") tt (lookup ("memory") types))
    × (create_target plain_json MemoryTarget
          (factory_of plain_json MemoryTarget types)
          ("memory")
          tt
        ≡ create_by plain_json MemoryTarget ("memory") tt (lookup ("memory") types))
    × (recover_target plain_json MemoryTarget
          (factory_of plain_json MemoryTarget types)
          ("memory")
          tt
          ([])
        ≡ recover_by plain_json MemoryTarget ("memory") tt ([]) (lookup ("memory") types))
factory_of_lem_example = factory_of_lem plain_json MemoryTarget types ("memory") tt ([])

construct-IsMadeFrom_example :
    (json : plain_json.Value) × (type : String) × (config : plain_json.Value) × ((if str_eq ("") ""
        then done plain_json.object
        else plain_json.parse (""))
      ≡ done json)
    × (plain_json.violation "provider" json ≡ none)
    × (plain_json.get_text (plain_json.get json "target") "type" ≡ done type)
    × (plain_json.value_object (plain_json.get json "target") "config" plain_json.object
        ≡ done config)
    × IsValidated plain_json MemoryTarget ((Unit {0})) managers types type config
    × IsMadeFrom plain_json MemoryTarget ((Unit {0})) managers types type config memory_named
construct-IsMadeFrom_example =
    construct-IsMadeFrom plain_json MemoryTarget ((Unit {0})) managers types ("") none ready
      memory_named constructed refl

create-validate_example :
    ((one_file.exists true slash_a ≡ true)
      × (false ≡ false)
      × (create plain_json one_file ((Unit {0})) pools true tt
          ≡ with_pool plain_json one_file
              ((Unit {0}))
              pools
              pools.create_error
              tt
              slash_a
              (pools.open_pool true slash_a)))
    ⊎ ((no_size ≢ 0)
        × (d' : one_file.Disk) × (create plain_json one_file ((Unit {0})) pools true tt
            ≡ with_pool plain_json one_file
                ((Unit {0}))
                pools
                pools.create_error
                tt
                slash_a
                (pools.create_pool d' slash_a no_size)))
create-validate_example =
    create-validate plain_json one_file ((Unit {0})) pools true tt slash_a no_size false refl refl
      refl refl found_valid
