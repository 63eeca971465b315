-- ===== src/Factory.antt =====
-- src/Backend.cpp and src/TransferManager.cpp, with the registration of include/warabi/Backend.hpp
-- and include/warabi/TransferManager.hpp: maps from a type's name to the functions that make,
-- recover and validate it.
pub mod Registered
use mochi_warabi.Prelude.{
  ℕ, ◌≡◌, String, Bool, true, false, List, [], ◌∷◌, Option, none, some, if◌then◌else◌, str_eq,
}
use mochi_warabi.Run.{Run, done, raise, undef, ◌>>=◌}
use mochi_warabi.Result.{Result, BoolResult, fail_bool}
use mochi_warabi.Json.{Json}

-- `std::unordered_map` with a text as its key.
module _ {ℓ} {A : Type ℓ} where
  unfoldable pub lookup : String → List (String × A) → Option A
  lookup name [] = none
  lookup name ((k, a) ∷ m) = if str_eq k name then some a else lookup name m

  unfoldable pub insert : String → A → List (String × A) → List (String × A)
  insert name a [] = (name, a) ∷ []
  insert name a ((k, b) ∷ m) = if str_eq k name then (name, a) ∷ m else (k, b) ∷ insert name a m

-- `operator()` of a `std::function`. The empty one that `operator[]` inserts for an unknown key
-- throws as a missing one does, so that the map is left without it.
abbrev pub call {ℓ} : {A : Type ℓ} → Option A → Run A
call none = raise "bad_function_call"
call (some f) = done f

module _ (J : Json) (T : Type 0) where
  -- `it == validate_fn.end()`, or the call of `it->second`.
  abbrev pub validate_with : String → J.Value → Option (J.Value → Run BoolResult) → Run BoolResult
  validate_with unknown config none = done (fail_bool unknown)
  validate_with unknown config (some g) = g config

  -- The static functions of a backend's class.
  pub record BackendType : Type 0 where
    pub create : J.Value → Run (Result (Option T))
    pub recover : J.Value → List (List ℕ) → Run (Result (Option T))
    pub validate : J.Value → Run BoolResult

  -- A backend with the name that it was registered with.
  pub record Named : Type 0 where
    pub name : String
    pub target : T

  abbrev unnamed : Option T → Option Named
  unnamed none = none
  unnamed (some t) = some (record { name = ""; target = t })

  pub record TargetFactory : Type 0 where
    pub create_fn : List (String × (J.Value → Run (Result (Option Named))))
    pub recover_fn : List (String × (J.Value → List (List ℕ) → Run (Result (Option Named))))
    pub validate_fn : List (String × (J.Value → Run BoolResult))

  -- `if(p.success()) p.value()->m_name = backend_name; return p;` The name is empty before.
  unfoldable pub with_name : String → Result (Option T) → Run (Result (Option Named))
  with_name name p =
      if p.success
      then (elim p.value [
        | none ↦ undef
        | some t ↦ done (record {
          success = true;
          error = p.error;
          value = some (record { name = name; target = t });
        })
      ])
      else done (record { success = false; error = p.error; value = unnamed p.value })

  unfoldable pub register_backend : String → BackendType → TargetFactory → TargetFactory
  unfolding insert with_name
  register_backend name b f = record {
    create_fn = insert name (λ config. b.create config >>= with_name name) f.create_fn;
    recover_fn =
        insert name (λ config files. b.recover config files >>= with_name name) f.recover_fn;
    validate_fn = insert name b.validate f.validate_fn;
  }

  unfoldable pub create_target : TargetFactory → String → J.Value → Run (Result (Option Named))
  unfolding lookup
  create_target f name config = call (lookup name f.create_fn) >>= λ g. g config

  unfoldable pub recover_target :
      TargetFactory → String → J.Value → List (List ℕ) → Run (Result (Option Named))
  unfolding lookup
  recover_target f name config files = call (lookup name f.recover_fn) >>= λ g. g config files

  unfoldable pub validate_target : TargetFactory → String → J.Value → Run BoolResult
  unfolding lookup
  validate_target f name config =
      validate_with (J.format "Unknown target type \"{}\"" name) config (lookup name f.validate_fn)

  -- The static functions of a transfer manager's class, and their factory.
  pub record ManagerType : Type 0 where
    pub create : J.Value → Run (Result (Option T))
    pub validate : J.Value → Run BoolResult

  pub record ManagerFactory : Type 0 where
    pub create_fn : List (String × (J.Value → Run (Result (Option Named))))
    pub validate_fn : List (String × (J.Value → Run BoolResult))

  unfoldable pub register_manager : String → ManagerType → ManagerFactory → ManagerFactory
  unfolding insert with_name
  register_manager name m f = record {
    create_fn = insert name (λ config. m.create config >>= with_name name) f.create_fn;
    validate_fn = insert name m.validate f.validate_fn;
  }

  unfoldable pub create_manager : ManagerFactory → String → J.Value → Run (Result (Option Named))
  unfolding lookup
  create_manager f name config = call (lookup name f.create_fn) >>= λ g. g config

  unfoldable pub validate_manager : ManagerFactory → String → J.Value → Run BoolResult
  unfolding lookup
  validate_manager f name config =
      validate_with (J.format "Unknown transfer manager type \"{}\"" name) config
        (lookup name f.validate_fn)
