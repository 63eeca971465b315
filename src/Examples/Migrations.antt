-- ===== src/Examples/Migrations.antt =====
-- Migrations of a pool of src/PmemBackend.cpp between two providers, at concrete inputs.
use mochi_warabi.Prelude.{
  ℕ, ◌≡◌, ◌⊎◌, if◌then◌else◌, str_eq, ◌&&◌, ◌==◌, refl, String, true, false, List, [], ◌∷◌, Option,
  none, some, inr,
}
use mochi_warabi.Run.{done}
use mochi_warabi.Result.{succeed, success_bool, value_or_throw}
use mochi_warabi.RwLock.{free_lock}
use mochi_warabi.Remi.{Remi}
use mochi_warabi.FilePath.{split_last, ends_in_slash, place_files, with_slash}
use mochi_warabi.FilePath
use mochi_warabi.Examples.Settings.{
  plain_json, plain_json-IsJson, Box, with_file, with_metadata, declining, delivering,
  delivering-IsCarrying,
}
use mochi_warabi.Factory.{BackendType, lookup, with_name, validate_target, recover_target}
use mochi_warabi.Factory.Registered.{factory_of}
use mochi_warabi.Provider.Setup.{Members}
use mochi_warabi.Pmem.Region.{PmemTarget}
use mochi_warabi.Pmem.Migration.{get_root, get_files}
use mochi_warabi.Pmem.Reversible.{pmem_migratable, pmem-IsReversible, IsSamePool, opened, handle}
use mochi_warabi.Migration.{Migratable, go}
use mochi_warabi.Migration.Fileset.{
  register, register_all, config_to_send, set_transfer_size, describe, fill,
}
use mochi_warabi.Migration.Send.{
  Sender, Destination, prepare, check_options, find_remi_provider, migrate_target,
}
use mochi_warabi.Migration.Kept.{IsReversible, IsReadable}
use mochi_warabi.Migration.Outcomes.{migrate_target-IsSamePool, migrate_target-IsSameFile}
use mochi_warabi.Migration.Receive.{before_migration_callback, after_migration_callback}
use mochi_warabi.Pmem.Migration as PmemMigration
use mochi_warabi.AbtIo.Migration as AbtIoMigration
use mochi_warabi.AbtIo.Migration.{abt_io_migratable, IsSameFile}
use mochi_warabi.AbtIo.Region.{AbtIoTarget}
use mochi_warabi.Migration.Carried.{IsCarrying, OnlyFiles}
use mochi_warabi.Migration.Delivered.{IsReady, migrate_target-delivered}

-- The file "/a".
abbrev source_pool : PmemTarget (Unit {0})
source_pool = record {
  config = "{}";
  filename = b'/' ∷ b'a' ∷ [];
  pool_open = true;
  file_exists = true;
  heap = tt;
  memory = 1 ∷ 2 ∷ [];
  durable = 1 ∷ 2 ∷ [];
  lock = free_lock;
}

abbrev landed_pool : PmemTarget (Unit {0})
landed_pool = record source_pool { config = "moved" }

abbrev source_kind : Migratable (PmemTarget (Unit {0}))
source_kind = pmem_migratable (Unit {0}) true

abbrev source_law : IsReversible source_kind
source_law = pmem-IsReversible (Unit {0}) true

abbrev sender : Sender (PmemTarget (Unit {0}))
sender = record { has_client = true; target = some source_pool }

abbrev destination : Destination
destination = record { address = "there"; provider_id = 7; options = "" }

readable : IsReadable plain_json declining tt "{}" []
readable = record {
  target_config = tt;
  merge_config = tt;
  size = 0;
  new_root = [];
  keep_source = false;
  parsed = refl;
  merged = refl;
  sized = inr refl;
  rooted = refl;
  kept = refl;
}

pool-IsReadable : IsReadable plain_json declining tt "{}" (PmemMigration.get_root source_pool)
unfolding PmemMigration.get_root FilePath.get_root split_last
pool-IsReadable = readable

abbrev empty_box : Box
empty_box = record { root = []; files = []; metadata = λ k. (1, ""); provider = 7 }

abbrev filled_box : Box
filled_box = with_file empty_box (b'a' ∷ [])

abbrev described_box : Box
described_box = with_metadata (with_metadata filled_box "config" "{}") "type" "pmdk"

-- A destination whose only class takes every file.
abbrev pool_type : BackendType plain_json (PmemTarget (Unit {0}))
pool_type = record {
  create = λ config. done (succeed (some landed_pool));
  recover = λ config files. done (succeed (some landed_pool));
  validate = λ config. done success_bool;
}

abbrev pool_types : List (String × BackendType plain_json (PmemTarget (Unit {0})))
pool_types = ("pmdk", pool_type) ∷ []

abbrev remi : Remi
remi =
    delivering (PmemTarget (Unit {0})) (Unit {0})
      (factory_of plain_json (PmemTarget (Unit {0})) pool_types)

abbrev carrying :
    IsCarrying plain_json remi
      (PmemTarget (Unit {0}))
      (Unit {0})
      (factory_of plain_json (PmemTarget (Unit {0})) pool_types)
carrying =
    delivering-IsCarrying (PmemTarget (Unit {0})) (Unit {0})
      (factory_of plain_json (PmemTarget (Unit {0})) pool_types)

abbrev nobody : Members plain_json (PmemTarget (Unit {0})) (Unit {0})
nobody = record { target = none; transfer_manager = none }

abbrev vacant : String → ℕ → Members plain_json (PmemTarget (Unit {0})) (Unit {0})
vacant = λ address id. nobody

-- The process "there" has a pool under the id 7.
abbrev occupied : String → ℕ → Members plain_json (PmemTarget (Unit {0})) (Unit {0})
occupied address id =
    if str_eq address "there" && id == 7
    then record nobody { target = some (record { name = "pmdk"; target = landed_pool }) }
    else nobody

sent_config : config_to_send plain_json remi tt "{}" ≡ go tt
unfolding config_to_send
sent_config = refl

remi_prepared : prepare plain_json remi source_kind vacant sender destination ≡ done (tt, 7, true)
unfolding prepare check_options find_remi_provider value_or_throw
remi_prepared = refl

only_files : OnlyFiles (get_files (opened (Unit {0}) source_pool true))
unfolding get_files FilePath.get_files split_last ends_in_slash
only_files = (refl, tt)

filled :
    fill plain_json remi source_kind tt
      (opened (Unit {0}) source_pool true)
      (handle (Unit {0}) true)
      7
    ≡ go (described_box, [], false)
unfolding fill register_all register describe config_to_send set_transfer_size get_root get_files
    FilePath.get_root FilePath.get_files split_last ends_in_slash
filled = refl

pool-IsReady :
    IsReady plain_json plain_json-IsJson remi
      (PmemTarget (Unit {0}))
      (Unit {0})
      pool_types
      carrying
      vacant
      destination
      "pmdk"
      tt
      (place_files [] (get_files (opened (Unit {0}) source_pool true)))
      landed_pool
unfolding lookup delivering-IsCarrying
pool-IsReady = record {
  backend = pool_type;
  verdict = success_bool;
  empty = refl;
  registered = refl;
  validated = refl;
  accepted = refl;
  recovered = refl;
}

sent_fileset : remi.migrate vacant "there" 7 described_box [] false ≡ (0, occupied)
unfolding before_migration_callback after_migration_callback with_name lookup factory_of
    validate_target recover_target
sent_fileset = refl

-- A pool that cannot be opened again.
lost_prepared :
    prepare plain_json declining (pmem_migratable (Unit {0}) false) tt sender destination
    ≡ done (tt, 7, true)
unfolding prepare check_options find_remi_provider value_or_throw
lost_prepared = refl

migrate_target-IsSamePool_example :
    (e : Option String) × (s' : Sender (PmemTarget (Unit {0}))) × (w' : declining.World)
    × (migrate_target plain_json declining (pmem_migratable (Unit {0}) false) tt sender destination
        ≡ done (e, s', w'))
    × (((e ≡ none) × (s' ≡ record sender { target = none }))
        ⊎ ((message : String) × (t' : PmemTarget (Unit {0})) × (e ≡ some message)
            × (s' ≡ record sender { target = some t' })
            × (t'.lock ≡ free_lock)
            × IsSamePool (Unit {0}) false source_pool t'))
migrate_target-IsSamePool_example =
    migrate_target-IsSamePool plain_json declining (Unit {0}) false tt sender destination
      source_pool tt 7 true refl refl lost_prepared pool-IsReadable

-- The file "/a" of four bytes.
abbrev source_file : AbtIoTarget (Unit {0})
source_file = record {
  config = "{}";
  filename = b'/' ∷ b'a' ∷ [];
  is_open = true;
  file_exists = true;
  file = tt;
  file_size = 4;
  alignment = 1;
  lock = free_lock;
}

abbrev file_sender : Sender (AbtIoTarget (Unit {0}))
file_sender = record { has_client = true; target = some source_file }

file_prepared :
    prepare plain_json declining (abt_io_migratable {File = Unit {0}}) tt file_sender destination
    ≡ done (tt, 7, true)
unfolding prepare check_options find_remi_provider value_or_throw
file_prepared = refl

file-IsReadable : IsReadable plain_json declining tt "{}" (AbtIoMigration.get_root source_file)
unfolding AbtIoMigration.get_root FilePath.get_root split_last
file-IsReadable = readable

migrate_target-IsSameFile_example :
    (e : Option String) × (s' : Sender (AbtIoTarget (Unit {0}))) × (w' : declining.World)
    × (migrate_target plain_json declining abt_io_migratable tt file_sender destination
        ≡ done (e, s', w'))
    × (((e ≡ none) × (s' ≡ record file_sender { target = none }))
        ⊎ ((message : String) × (t' : AbtIoTarget (Unit {0})) × (e ≡ some message)
            × (s' ≡ record file_sender { target = some t' })
            × ((t'.lock ≡ free_lock) × (t'.is_open ≡ true))
            × IsSameFile source_file t'))
migrate_target-IsSameFile_example =
    migrate_target-IsSameFile plain_json declining (Unit {0}) tt file_sender destination source_file
      tt 7 true refl refl refl file_prepared file-IsReadable

migrate_target-delivered_example :
    (migrate_target plain_json remi source_kind vacant sender destination
      ≡ done (none, record sender { target = none }, occupied))
    × (carrying.members occupied "there" 7 ≡ record (carrying.members vacant "there" 7) {
      target = some (record {
        name = source_kind.name (source_law.opened source_pool true);
        target = landed_pool;
      });
    })
migrate_target-delivered_example =
    migrate_target-delivered plain_json plain_json-IsJson remi (PmemTarget (Unit {0})) (Unit {0})
      pool_types carrying source_kind source_law vacant sender destination source_pool tt tt 7 true
      false described_box [] landed_pool occupied refl refl remi_prepared only_files sent_config
      filled sent_fileset pool-IsReady
