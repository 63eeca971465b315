-- ===== src/Migration/Receive.antt =====
-- The callbacks of src/ProviderImpl.hpp by which REMI asks a provider to accept a fileset, and tells
-- it that the files have arrived. They return 0 when they agree.
use mochi_warabi.Prelude.{ℕ, zero, suc, String, Option, none, some, if◌then◌else◌}
use mochi_warabi.Run.{Run, done, ◌>>=◌}
use mochi_warabi.Result.{Result, succeed, fail}
use mochi_warabi.FilePath.{place_files}
use mochi_warabi.Json.{Json}
use mochi_warabi.Remi.{Remi}
use mochi_warabi.Factory.{TargetFactory, recover_target, validate_target}
use mochi_warabi.Provider.Setup.{Members}

-- `getREMIproviderIdRPC`, for the REMI provider if there is one: what
-- `remi_provider_get_provider_id` returns, and the id. A new result holds the id 0.
unfoldable pub get_remi_provider_id : (ℕ → String) → Option (ℕ × ℕ) → Result ℕ
get_remi_provider_id message none = fail "No target found in the provider" 0
get_remi_provider_id message (some (zero, id)) = succeed id
get_remi_provider_id message (some (suc code, id)) = fail (message (suc code)) 0

-- `if(rret != REMI_SUCCESS) return ...;` with the value that is returned then, or what follows.
abbrev pub or_return : {A C : Type 0} → ℕ × A → (ℕ → C) → (A → C) → C
or_return (zero, a) returned next = next a
or_return (suc code, a) returned next = returned (suc code)

module _ (J : Json) (R : Remi) (T M : Type 0) (targets : TargetFactory J T) where
  open R use {Fileset}

  unfoldable pub before_migration_callback : Members J T M → Fileset → Run ℕ
  before_migration_callback p fileset = or_return (R.get_metadata fileset "type") done λ type.
      or_return (R.get_metadata fileset "config") done λ text. do
        config ← J.parse text
        elim p.target [
          | some t ↦ done 2
          | none ↦ do
            validation ← validate_target J T targets type config
            done (if validation.success then 0 else 3)
        ]

  -- The provider keeps what it had unless the target is recovered.
  unfoldable pub after_migration_callback : Members J T M → Fileset → Run (ℕ × Members J T M)
  after_migration_callback p fileset =
      or_return (R.get_metadata fileset "type") (λ code. done (code, p))
        λ type.
          or_return (R.get_metadata fileset "config") (λ code. done (code, p))
            λ text. do
              config ← J.parse text
              or_return (R.walkthrough fileset) (λ code. done (4, p))
                  λ files.
                    or_return (R.root_size fileset) (λ code. done (5, p))
                      λ size.
                        or_return (R.get_root fileset) (λ code. done (6, p))
                          λ root. do
                            target ← recover_target J T targets type config (place_files root files)
                            done (
                                if target.success
                                then (0, record p { target = target.value })
                                else (7, p))
