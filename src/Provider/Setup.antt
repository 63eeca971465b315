-- ===== src/Provider/Setup.antt =====
-- The constructor of src/ProviderImpl.hpp, and the members that it sets. A target and a transfer
-- manager come from the two factories; here they may be of any type.
pub mod Attached
use mochi_warabi.Prelude.{ℕ, zero, suc, String, Bool, Option, none, some, if◌then◌else◌, str_eq}
use mochi_warabi.Run.{Run, done, raise, undef, stuck, ◌>>=◌, ◌>>◌}
use mochi_warabi.Result.{BoolResult, success_bool, fail_bool}
use mochi_warabi.Json.{Json}
use mochi_warabi.Factory.{
  Named, TargetFactory, ManagerFactory, create_target, validate_target, create_manager,
  validate_manager,
}

-- `try { ... } catch(e) { throw Exception(...) }`
abbrev pub rethrow {ℓ} : {A : Type ℓ} → (String → String) → Run A → Run A
rethrow message (done a) = done a
rethrow message (raise e) = raise (message e)
rethrow message undef = undef
rethrow message stuck = stuck

-- `remi_provider_register_provider_migration_class`, where there is a REMI provider: its return
-- value, which is 0 on success.
abbrev pub register_class : (ℕ → String) → Option ℕ → Run (Unit {0})
register_class message none = done tt
register_class message (some zero) = done tt
register_class message (some (suc code)) = raise (message (suc code))

abbrev pub refuse_violation : String → Option String → Run (Unit {0})
refuse_violation message none = done tt
refuse_violation message (some what) = raise message

module _ (J : Json) (T M : Type 0) where
  -- The two shared pointers of the provider.
  pub record Members : Type 0 where
    pub target : Option (Named J T)
    pub transfer_manager : Option (Named J M)

  module _ (targets : TargetFactory J T) (managers : ManagerFactory J M) where
    unfoldable pub set_target : Members → String → J.Value → Run (BoolResult × Members)
    set_target p type config = do
      target ← create_target J T targets type config
      if target.success
          then done (success_bool, record p { target = target.value })
          else done (fail_bool target.error, p)

    unfoldable pub set_transfer_manager : Members → String → J.Value → Run (BoolResult × Members)
    set_transfer_manager p type config = do
      tm ← create_manager J M managers type config
      if tm.success
          then done (success_bool, record p { transfer_manager = tm.value })
          else done (fail_bool tm.error, p)

    -- The block of the constructor about the transfer manager.
    unfoldable pub attach_manager : J.Value → Members → Run Members
    unfolding set_transfer_manager
    attach_manager json p = do
      transfer_manager ← J.value_object json "transfer_manager" J.object
      type ← J.value_text transfer_manager "type" "__default__"
      config ← J.value_object transfer_manager "config" J.object
      is_valid ← validate_manager J M managers type config
      if is_valid.success
          then (do (result, p) ← set_transfer_manager p type config; done p)
          else raise is_valid.error

    -- The block about the target.
    unfoldable pub attach_target : J.Value → Members → Run Members
    unfolding set_target
    attach_target json p =
        if J.contains json "target"
        then (do
          let target = J.get json "target"
          type ← J.get_text target "type"
          config ← J.value_object target "config" J.object
          is_valid ← validate_target J T targets type config
          if is_valid.success
              then (do (result, p) ← set_target p type config; done p)
              else raise is_valid.error)
        else done p

    unfoldable pub construct : String → Option ℕ → Run Members
    unfolding attach_manager attach_target
    construct config registration = do
      json ←
          rethrow (J.format "Could not parse warabi provider configuration: {}")
            (if str_eq config "" then done J.object else J.parse config)
      register_class (J.format_code "Failed to register migration class in REMI: {}") registration
      refuse_violation "Invalid JSON configuration (see error logs for information)"
          (J.violation "provider" json)
      p ← attach_manager json (record { target = none; transfer_manager = none })
      attach_target json p

  -- `{"type": name, "config": json::parse(getConfig())}`, for a target or a transfer manager.
  abbrev pub describe_part : {A : Type 0} → (A → String) → Named J A → Run J.Value
  describe_part get_config part = do
    config ← J.parse (get_config part.target)
    done (J.set_value (J.set_text J.object "type" part.name) "config" config)

  -- The virtual `getConfig` of the target and of the transfer manager are the arguments. The pointer
  -- to the transfer manager is not tested.
  unfoldable pub get_config : (T → String) → (M → String) → Members → Run String
  get_config target_config manager_config p = do
    config ← elim p.target [
      | none ↦ done J.object
      | some t ↦ do
        target ← describe_part target_config t
        done (J.set_value J.object "target" target)
    ]
    elim p.transfer_manager [
      | none ↦ undef
      | some tm ↦ do
        transfer_manager ← describe_part manager_config tm
        done (J.dump (J.set_value config "transfer_manager" transfer_manager))
    ]
