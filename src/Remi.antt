-- ===== src/Remi.antt =====
-- What the code uses of REMI, which is not part of the repository: filesets, and the migration of
-- one to another process. A call that returns a code returns 0 (`REMI_SUCCESS`) when it succeeds.
use mochi_warabi.Prelude.{ℕ, String, Bool, List}
use mochi_warabi.Run.{Run}
use mochi_warabi.Result.{Result}

pub record Remi : Type 1 where
  pub Fileset : Type 0
  -- `remi_fileset_create("warabi", root, &fileset)`
  pub create : List ℕ → ℕ × Fileset
  pub set_provider_id : Fileset → ℕ → Fileset
  pub register_directory : Fileset → List ℕ → ℕ × Fileset
  pub register_file : Fileset → List ℕ → ℕ × Fileset
  pub register_metadata : Fileset → String → String → ℕ × Fileset
  pub set_xfer_size : Fileset → ℕ → ℕ × Fileset
  pub get_metadata : Fileset → String → ℕ × String
  pub walkthrough : Fileset → ℕ × List (List ℕ)
  -- `remi_fileset_get_root` without a buffer, for the size, and with one
  pub root_size : Fileset → ℕ × ℕ
  pub get_root : Fileset → ℕ × List ℕ
  -- `World` is the state of the other processes
  pub World : Type 0
  -- `engine.lookup` and `get_identity` of the provider with an id at an address
  pub identify : World → String → ℕ → Run String
  -- the RPC `warabi_get_remi_provider_id` to that provider
  pub remi_provider_id : World → String → ℕ → Run (Result ℕ)
  -- `remi_provider_handle_create` for the REMI provider with an id at an address
  pub handle_create : World → String → ℕ → ℕ
  -- `remi_fileset_migrate` to that address, under a new root, with `REMI_REMOVE_SOURCE` or not
  pub migrate : World → String → ℕ → Fileset → List ℕ → Bool → ℕ × World
