-- ===== src/Migration/Send.antt =====
-- `migrateTarget` of src/ProviderImpl.hpp, the provider that sends.
use mochi_warabi.Prelude.{
  ℕ, zero, suc, String, Bool, true, Option, none, some, List, if◌then◌else◌, str_eq,
}
use mochi_warabi.Run.{Run, done, raise, undef, stuck, ◌>>=◌, ◌>>◌}
use mochi_warabi.Result.{value_or_throw}
use mochi_warabi.Json.{Json}
use mochi_warabi.Remi.{Remi}
use mochi_warabi.Provider.Setup.{rethrow}
use mochi_warabi.Migration.{Migratable, Attempt, go, cancelled, thrown, undefined, waiting}
use mochi_warabi.Migration.Fileset.{fill}

-- What the provider that sends has: whether it was given a REMI client, and its target.
pub record Sender (T : Type 0) : Type 0 where
  pub has_client : Bool
  pub target : Option T

-- The arguments of `migrateTarget`.
pub record Destination : Type 0 where
  pub address : String
  pub provider_id : ℕ
  pub options : String

module _ (J : Json) (R : Remi) {T : Type 0} (K : Migratable T) where
  open R use {World}

  -- `if(rret != REMI_SUCCESS) throw`, while there is no migration handle yet.
  abbrev pub check_code : ℕ → Run (Unit {0})
  check_code zero = done tt
  check_code (suc code) = raise (
      J.format_code
        "Failed to create REMI provider handle (remi_provider_handle_create returned {})"
        (suc code))

  -- `Exception("Invalid JSON migration options: {}", ex.what())` makes a text of the characters between
  -- two pointers that are not into one array.
  unfoldable pub check_options : Sender T → String → Run J.Value
  check_options s options =
      if s.has_client
      then (elim s.target [
        | none ↦ raise "No target to migration"
        | some t ↦ do
          json ←
              rethrow (λ what. what) (if str_eq options "" then done J.object else J.parse options)
          elim (J.violation "migration options" json) [ none ↦ done json | some what ↦ undef ]
      ])
      else raise "No REMI client available to send target"

  -- `identify()` of the destination, inside its `try`.
  abbrev pub check_identity : World → Destination → Run (Unit {0})
  check_identity w d = rethrow (J.format "Failed to lookup destination address: {}") (do
    identity ← R.identify w d.address d.provider_id
    if str_eq identity "warabi"
        then done tt
        else raise "Destination provider for migration is not a Warabi provider")

  -- The id of the REMI provider that the destination uses, once its handle has been created.
  unfoldable pub find_remi_provider : World → Destination → Run ℕ
  find_remi_provider w d = do
    check_identity w d
    response ← R.remi_provider_id w d.address d.provider_id
    id ← value_or_throw response
    check_code (R.handle_create w d.address id)
    done id

  -- What `migrateTarget` does before the target is touched: the options, the id of the REMI provider
  -- at the destination, and `remove_source`.
  unfoldable pub prepare : World → Sender T → Destination → Run (J.Value × ℕ × Bool)
  unfolding check_options find_remi_provider
  prepare w s d = do
    options ← check_options s d.options
    id ← find_remi_provider w d
    remove_source ← J.value_bool options "remove_source" true
    done (options, id, remove_source)

  -- What is left of the exception, of the sender and of the rest of the world.
  abbrev pub Outcome : Type 0
  Outcome = Option String × Sender T × World

  abbrev pub with_target : Sender T → Option T → Sender T
  with_target s target = record s { target = target }

  -- The unwinding: the handle is destroyed when the exception leaves the function.
  unfoldable pub unwind : World → Sender T → T → K.Handle → String → Run Outcome
  unwind w s t h e = do t' ← K.end_migration t h; done (some e, with_target s (some t'), w)

  unfoldable pub cancel_and_throw : World → Sender T → T → K.Handle → String → Run Outcome
  unfolding unwind
  cancel_and_throw w s t h e = let (h', t') = K.cancel t h in unwind w s t' h' e

  -- The migration RPC and its result. On success the handle goes first, then the target.
  unfoldable pub conclude : Sender T → T → K.Handle → ℕ × World → Run Outcome
  unfolding cancel_and_throw
  conclude s t h (zero, w) = do t' ← K.end_migration t h; done (none, with_target s none, w)
  conclude s t h (suc code, w) =
      cancel_and_throw w s t h (
        J.format_code "REMI failed to migrate fileset (remi_fileset_migrate returned {})"
          (suc code))

  unfoldable pub issue :
      World
      → Sender T
      → Destination
      → ℕ
      → T
      → K.Handle
      → Attempt (R.Fileset × List ℕ × Bool)
      → Run Outcome
  unfolding conclude unwind
  issue w s d id t h (go (fileset, new_root, keep_source)) =
      conclude s t h (R.migrate w d.address id fileset new_root keep_source)
  issue w s d id t h (cancelled e) = cancel_and_throw w s t h e
  issue w s d id t h (thrown e) = unwind w s t h e
  issue w s d id t h undefined = undef
  issue w s d id t h waiting = stuck

  -- `startMigration.valueOrThrow()`
  unfoldable pub start : World → Sender T → Destination → J.Value × ℕ × Bool → T → Run Outcome
  unfolding issue
  start w s d (options, id, remove_source) t = do
    (handle, t') ← K.start_migration t remove_source
    if handle.success
        then (elim handle.value [
          | none ↦ undef
          | some h ↦ issue w s d id t' h (fill J R K options t' h d.provider_id)
        ])
        else done (some handle.error, with_target s (some t'), w)

  abbrev pub started : World → Sender T → Destination → Option T → J.Value × ℕ × Bool → Run Outcome
  started w s d none prepared = undef
  started w s d (some t) prepared = start w s d prepared t

  abbrev pub begin : World → Sender T → Destination → Run (J.Value × ℕ × Bool) → Run Outcome
  begin w s d (done prepared) = started w s d s.target prepared
  begin w s d (raise e) = done (some e, s, w)
  begin w s d undef = undef
  begin w s d stuck = stuck

  unfoldable pub migrate_target : World → Sender T → Destination → Run Outcome
  unfolding prepare start
  migrate_target w s d = begin w s d (prepare w s d)
