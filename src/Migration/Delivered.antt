-- ===== src/Migration/Delivered.antt =====
-- Both ends of a migration: `migrateTarget` and the callbacks of src/ProviderImpl.hpp, with the
-- factory of the destination.
use mochi_warabi.Prelude.{ℕ, ◌≡◌, refl, ◌∙◌, ap, String, Bool, true, List, Option, none, some}
use mochi_warabi.Run.{done, >>=-eq-done, done-injective}
use mochi_warabi.Result.{Result, BoolResult, succeed, value_or_throw}
use mochi_warabi.FilePath.{place_files}
use mochi_warabi.Json.{Json, IsJson}
use mochi_warabi.Remi.{Remi}
use mochi_warabi.Factory.{BackendType, lookup, with_name}
use mochi_warabi.Factory.Registered.{factory_of, factory_of_lem}
use mochi_warabi.Migration.{Migratable, go}
use mochi_warabi.Migration.Fileset.{config_to_send, fill}
use mochi_warabi.Migration.Send.{
  Sender, Destination, prepare, check_options, find_remi_provider, check_identity, check_code,
  conclude, issue, start, migrate_target, begin, started,
}
use mochi_warabi.Migration.Receive.{before_migration_callback, after_migration_callback}
use mochi_warabi.Migration.Kept.{IsReversible}
use mochi_warabi.Migration.Carried.{IsCarrying, OnlyFiles, Carries, fill-Carries, fill-provider_of}

module _ (J : Json) (json : IsJson J) (R : Remi) (T M : Type 0)
    (types : List (String × BackendType J T))
    (law : IsCarrying J R T M (factory_of J T types)) where
  -- The destination has no target, and the type's class accepts the configuration and recovers the
  -- target `u` from the files.
  pub record IsReady (w : R.World) (d : Destination) (type : String) (config : J.Value)
      (files : List (List ℕ)) (u : T) : Type 0 where
    pub backend : BackendType J T
    pub verdict : BoolResult
    pub empty : (law.members w d.address d.provider_id).target ≡ none
    pub registered : lookup type types ≡ some backend
    pub validated : backend.validate config ≡ done verdict
    pub accepted : verdict.success ≡ true
    pub recovered : backend.recover config files ≡ done (succeed (some u))

  module _ {S : Type 0} (K : Migratable S) where
    -- The id of the REMI provider is the one that the destination answers.
    prepare-remi_provider_id :
        (w : R.World) (s : Sender S) (d : Destination) (options : J.Value) (id : ℕ) (remove : Bool)
        → prepare J R K w s d ≡ done (options, id, remove)
        → (response : Result ℕ) × (R.remi_provider_id w d.address d.provider_id ≡ done response)
          × (value_or_throw response ≡ done id)
    unfolding prepare find_remi_provider
    prepare-remi_provider_id w s d options id remove p =
        let (options', e1, p1) = >>=-eq-done (check_options J R K s d.options) _ p in
        let (id', e2, p2) = >>=-eq-done (find_remi_provider J R K w d) _ p1 in
        let (remove', e3, p3) = >>=-eq-done (J.value_bool options' "remove_source" true) _ p2 in
        let (u, f1, q1) = >>=-eq-done (check_identity J R K w d) _ e2 in
        let (response, f2, q2) = >>=-eq-done (R.remi_provider_id w d.address d.provider_id) _ q1 in
        let (id'', f3, q3) = >>=-eq-done (value_or_throw response) _ q2 in
        let (v, f4, q4) = >>=-eq-done (check_code J R K (R.handle_create w d.address id'')) _ q3 in
        (response, f2, f3 ∙ q4 ∙ ap (λ (x : J.Value × ℕ × Bool). done x.1) (done-injective p3))

    module _ (w : R.World) (d : Destination) (fs : R.Fileset) (root : List ℕ)
        (files : List (List ℕ)) (config : J.Value) (type : String) (u : T) where
      before-agrees :
          Carries J R T M (factory_of J T types) law K fs files (J.dump config) type
          → IsReady w d type config (place_files root files) u
          → before_migration_callback J R T M
              (factory_of J T types)
              (law.members w d.address d.provider_id)
              (law.received fs root)
            ≡ done 0
      unfolding before_migration_callback
      before-agrees c r =
          let (t, _, _) = law.received_lem fs root "type" in
          let (m, _, _) = law.received_lem fs root "config" in
          rw (t ∙ c.type_lem) (
            rw (m ∙ c.config_lem) (
              rw (json.parse_dump config) (
                rw r.empty (
                  rw (factory_of_lem J T types type config (place_files root files)).0
                    (rw r.registered (rw r.validated (rw r.accepted refl)))))))

      after-recovers :
          Carries J R T M (factory_of J T types) law K fs files (J.dump config) type
          → IsReady w d type config (place_files root files) u
          → after_migration_callback J R T M
              (factory_of J T types)
              (law.members w d.address d.provider_id)
              (law.received fs root)
            ≡ done (
              0,
              record (law.members w d.address d.provider_id) {
                target = some (record { name = type; target = u });
              },
            )
      unfolding after_migration_callback with_name
      after-recovers c r =
          let (t, f, g) = law.received_lem fs root "type" in
          let (m, _, _) = law.received_lem fs root "config" in
          let (n, z) = law.root_size-received fs root in
          rw (t ∙ c.type_lem) (
            rw (m ∙ c.config_lem) (
              rw (json.parse_dump config) (
                rw (f ∙ c.files_lem) (
                  rw z (
                    rw g (
                      rw (factory_of_lem J T types type config (place_files root files)).2
                        (rw r.registered (rw r.recovered refl))))))))

    module _ (source : IsReversible K) where
      -- For a backend whose migration handles can be started, cancelled and finished on a target that
      -- no request uses, a JSON library that parses what it has dumped, and under the documentation
      -- of REMI on filesets and migrations. A sender whose target no request uses and which gets past
      -- its preparation, where all names are those of files, the configuration can be sent and the
      -- fileset is filled, and whose migration REMI reports as successful; to a provider that has no
      -- target, where the class of the target's type is registered, accepts the configuration that is
      -- sent, and recovers a target from the files under their new root. The migration ends without
      -- an exception, the sender has no target any more, and the provider with the id and at the
      -- address that were asked for has the recovered target, under the same type.
      pub migrate_target-delivered :
          (w : R.World) (s : Sender S) (d : Destination) (t : S) (options config : J.Value) (id : ℕ)
          (remove keep : Bool) (fs : R.Fileset) (root : List ℕ) (u : T) (w' : R.World)
          → s.target ≡ some t
          → source.Idle t
          → prepare J R K w s d ≡ done (options, id, remove)
          → OnlyFiles (K.get_files (source.opened t remove) (source.handle t remove))
          → config_to_send J R options (K.get_config (source.opened t remove)) ≡ go config
          → fill J R K options (source.opened t remove) (source.handle t remove) d.provider_id
            ≡ go (fs, root, keep)
          → R.migrate w d.address id fs root keep ≡ (0, w')
          → IsReady w d
              (K.name (source.opened t remove))
              config
              (place_files root (K.get_files (source.opened t remove) (source.handle t remove)))
              u
          → (migrate_target J R K w s d ≡ done (none, record s { target = none }, w'))
            × (law.members w' d.address d.provider_id
                ≡ record (law.members w d.address d.provider_id) {
                  target = some (record { name = K.name (source.opened t remove); target = u });
                })
      unfolding migrate_target start issue conclude
      migrate_target-delivered w s d t options config id remove keep fs root u w' has i p o c g sent
            r =
          let t' = source.opened t remove in
          let h = source.handle t remove in
          let files = K.get_files t' h in
          let carried =
            fill-Carries J R T M (factory_of J T types) law K options config t' h d.provider_id fs
              root keep o c g in
          let (response, answered, chosen) = prepare-remi_provider_id w s d options id remove p in
          (
            ap (begin J R K w s d) p
                ∙ ap (λ (x : Option S). started J R K w s d x (options, id, remove)) has
                ∙ rw (source.start_lem t remove i)
                    (rw g (rw sent (rw (source.end_lem t remove i) refl))),
            law.migrate_lem w w' d.address d.provider_id id response fs root keep _ answered chosen
                (fill-provider_of J R T M (factory_of J T types) law K options config t' h
                  d.provider_id fs root keep o c g)
                sent (before-agrees w d fs root files config (K.name t') u carried r)
                (after-recovers w d fs root files config (K.name t') u carried r),
          )
