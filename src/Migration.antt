-- ===== src/Migration.antt =====
-- The migration of a target between two providers (src/ProviderImpl.hpp), with the migration handles
-- of include/warabi/Backend.hpp.
pub mod Fileset
pub mod Send
pub mod Receive
pub mod Kept
pub mod Outcomes
pub mod Carried
pub mod Delivered
use mochi_warabi.Prelude.{ℕ, zero, suc, String, Bool, List, Option}
use mochi_warabi.Run.{Run, done, raise, undef, stuck}
use mochi_warabi.Result.{Result}

-- The virtual functions of a migration handle, and those of the target that the migration calls. A
-- handle refers to its target, so that the target is passed to them. `end_migration` is the
-- destructor of a handle.
pub record Migratable (T : Type 0) : Type 1 where
  pub Handle : Type 0
  pub name : T → String
  pub get_config : T → String
  pub start_migration : T → Bool → Run (Result (Option Handle) × T)
  pub get_root : T → Handle → List ℕ
  pub get_files : T → Handle → List (List ℕ)
  pub cancel : T → Handle → Handle × T
  pub end_migration : T → Handle → Run T

-- How the part of `migrateTarget` that has a migration handle goes on: the handle is cancelled
-- before the exception is thrown, or an exception is thrown while the handle is as it was.
pub data Attempt {ℓ} (A : Type ℓ) : Type ℓ where
  go : A → Attempt A
  cancelled : String → Attempt A
  thrown : String → Attempt A
  undefined : Attempt A
  waiting : Attempt A

infixl 5 ◌>>=◌
abbrev pub ◌>>=◌ {ℓ κ} : {A : Type ℓ} {B : Type κ} → Attempt A → (A → Attempt B) → Attempt B
go a >>= f = f a
cancelled e >>= f = cancelled e
thrown e >>= f = thrown e
undefined >>= f = undefined
waiting >>= f = waiting

abbrev pub of_run {ℓ} : {A : Type ℓ} → Run A → Attempt A
of_run (done a) = go a
of_run (raise e) = thrown e
of_run undef = undefined
of_run stuck = waiting

-- `HANDLE_REMI_ERROR`
abbrev pub handle_remi_error {ℓ} : {A : Type ℓ} → (ℕ → String) → ℕ × A → Attempt A
handle_remi_error message (zero, a) = go a
handle_remi_error message (suc code, a) = cancelled (message (suc code))
