-- ===== src/Provider/Setup/Attached.antt =====
-- What a provider that was constructed has.
use mochi_warabi.Prelude.{
  none-ne-some, false≢true, ℕ, ◌≡◌, refl, sym, ◌∙◌, String, Bool, true, false, List, [], Option,
  none, some, if◌then◌else◌, Bool-cases, inl, inr, str_eq, ap,
}
use mathlib.Core.Option.{some-injective}
use mochi_warabi.Run.{Run, done, raise, undef, stuck, ◌>>=◌, >>=-eq-done, done-injective}
use mochi_warabi.Result.{Result, BoolResult, fail_bool, success_bool}
use mochi_warabi.Json.{Json}
use mochi_warabi.Factory.{
  BackendType, Named, TargetFactory, ManagerFactory, lookup, with_name, create_target,
  validate_target, create_manager, validate_manager,
}
use mochi_warabi.Factory.Registered.{factory_of, factory_of_lem, validate_by, create_by}
use mochi_warabi.Provider.Setup.{
  Members, rethrow, register_class, refuse_violation, set_target, set_transfer_manager,
  attach_manager, attach_target, construct,
}

raise≢done {ℓ} : {A : Type ℓ} {e : String} {a : A} → ¬ (raise e ≡ done a)
raise≢done h = cc

rethrow-done {ℓ} :
    {A : Type ℓ} {a : A} (message : String → String) (m : Run A)
    → rethrow message m ≡ done a
    → m ≡ done a
rethrow-done message (done b) h = h
rethrow-done message (raise e) h = absurd (cc)
rethrow-done message undef h = absurd (cc)
rethrow-done message stuck h = absurd (cc)

refuse_violation-done :
    {u : Unit {0}} (message : String) (o : Option String)
    → refuse_violation message o ≡ done u
    → o ≡ none
refuse_violation-done message none h = refl
refuse_violation-done message (some what) h = absurd (cc)

module _ (J : Json) (T M : Type 0) (managers : ManagerFactory J M)
    (types : List (String × BackendType J T)) where
  abbrev registered_types : TargetFactory J T
  registered_types = factory_of J T types

  -- How a registered class made a target of a type from a configuration.
  pub record IsMadeFrom (type : String) (config : J.Value) (t : Named J T) : Type 0 where
    pub backend : BackendType J T
    pub made : Result (Option T)
    pub named : t.name ≡ type
    pub registered : lookup type types ≡ some backend
    pub created : backend.create config ≡ done made
    pub succeeded : made.success ≡ true
    pub pointed : made.value ≡ some t.target

  -- The class of the type found the configuration valid.
  pub record IsValidated (type : String) (config : J.Value) : Type 0 where
    pub validator : BackendType J T
    pub verdict : BoolResult
    pub known : lookup type types ≡ some validator
    pub validated : validator.validate config ≡ done verdict
    pub accepted : verdict.success ≡ true

  with_name-inversion :
      (name error : String) (success : Bool) (value : Option T) (r : Result (Option (Named J T)))
      (t : Named J T)
      → with_name J T name (record { success = success; error = error; value = value }) ≡ done r
      → r.success ≡ true
      → r.value ≡ some t
      → (success ≡ true) × (value ≡ some t.target) × (t.name ≡ name)
  unfolding with_name
  with_name-inversion name error true none r t h s v = absurd (cc)
  with_name-inversion name error true (some x) r t h s v =
      let e = ap (λ (q : Result (Option (Named J T))). q.value) (done-injective h) ∙ v in
      let e' = some-injective _ t e in
      (refl, ap (λ (n : Named J T). some n.target) e', sym (ap (λ (n : Named J T). n.name) e'))
  with_name-inversion name error false value r t h s v =
      absurd
        (false≢true (ap (λ (q : Result (Option (Named J T))). q.success) (done-injective h) ∙ s))

  create_by-IsMadeFrom :
      (type : String) (config : J.Value) (o : Option (BackendType J T))
      (r : Result (Option (Named J T))) (t : Named J T)
      → lookup type types ≡ o
      → create_by J T type config o ≡ done r
      → r.success ≡ true
      → r.value ≡ some t
      → IsMadeFrom type config t
  create_by-IsMadeFrom type config none r t l h s v = absurd (cc)
  create_by-IsMadeFrom type config (some b) r t l h s v =
      let (m, e, w) = >>=-eq-done (b.create config) (with_name J T type) h in
      let (s', v', n) = with_name-inversion type m.error m.success m.value r t w s v in
      record {
        backend = b;
        made = m;
        named = n;
        registered = l;
        created = e;
        succeeded = s';
        pointed = v';
      }

  validate_by-IsValidated :
      (type : String) (config : J.Value) (o : Option (BackendType J T)) (v : BoolResult)
      → lookup type types ≡ o
      → validate_by J T type config o ≡ done v
      → v.success ≡ true
      → IsValidated type config
  validate_by-IsValidated type config none v l h s =
      absurd (false≢true (ap (λ (q : BoolResult). q.success) (done-injective h) ∙ s))
  validate_by-IsValidated type config (some b) v l h s = record {
    validator = b;
    verdict = v;
    known = l;
    validated = h;
    accepted = s;
  }

  set_by-inversion :
      (p : Members J T M) (r : Result (Option (Named J T))) (a : BoolResult × Members J T M)
      (t : Named J T)
      → p.target ≡ none
      → (if r.success
          then done (success_bool, record p { target = r.value })
          else done (fail_bool r.error, p))
        ≡ done a
      → a.1.target ≡ some t
      → (r.success ≡ true) × (r.value ≡ some t)
  set_by-inversion p r a t e h k = elim (Bool-cases r.success) [
    | inl s ↦
        let target = λ (q : BoolResult × Members J T M). q.1.target in
        (s, ap target (done-injective (rw s at h)) ∙ k)
    | inr s ↦
        let target = λ (q : BoolResult × Members J T M). q.1.target in
        absurd (none-ne-some _ (sym e ∙ ap target (done-injective (rw s at h)) ∙ k))
  ]

  set_target-IsMadeFrom :
      (p : Members J T M) (type : String) (config : J.Value) (a : BoolResult × Members J T M)
      (t : Named J T)
      → p.target ≡ none
      → set_target J T M registered_types managers p type config ≡ done a
      → a.1.target ≡ some t
      → IsMadeFrom type config t
  unfolding set_target
  set_target-IsMadeFrom p type config a t e h k =
      let (r, c, w) = >>=-eq-done (create_target J T registered_types type config) _ h in
      let (s, v) = set_by-inversion p r a t e w k in
      create_by-IsMadeFrom type config (lookup type types) r t refl
        (sym (factory_of_lem J T types type config []).1 ∙ c) s v

  -- What follows the reading of the configuration.
  attach_by-inversion :
      (type : String) (config : J.Value) (p p' : Members J T M) (t : Named J T)
      → p.target ≡ none
      → (validate_target J T registered_types type config >>= λ v.
          if v.success
          then (set_target J T M registered_types managers p type config >>= λ a. done a.1)
          else raise v.error)
        ≡ done p'
      → p'.target ≡ some t
      → IsValidated type config × IsMadeFrom type config t
  attach_by-inversion type config p p' t e h k =
      let (v, e3, h3) = >>=-eq-done (validate_target J T registered_types type config) _ h in
      elim (Bool-cases v.success) [
        | inl s ↦
            let (a, e4, h4) =
              >>=-eq-done (set_target J T M registered_types managers p type config) _
                (rw s at h3) in
            (
              validate_by-IsValidated type config (lookup type types) v refl
                  (sym (factory_of_lem J T types type config []).0 ∙ e3) s,
              set_target-IsMadeFrom p type config a t e e4
                  (ap (λ (q : Members J T M). q.target) (done-injective h4) ∙ k),
            )
        | inr s ↦ absurd (raise≢done (rw s at h3))
      ]

  attach_target-IsMadeFrom :
      (json : J.Value) (p p' : Members J T M) (t : Named J T)
      → p.target ≡ none
      → attach_target J T M registered_types managers json p ≡ done p'
      → p'.target ≡ some t
      → (type : String) × (config : J.Value) × (J.get_text (J.get json "target") "type" ≡ done type)
        × (J.value_object (J.get json "target") "config" J.object ≡ done config)
        × IsValidated type config
        × IsMadeFrom type config t
  unfolding attach_target
  attach_target-IsMadeFrom json p p' t e h k = elim (Bool-cases (J.contains json "target")) [
    | inl c ↦
        let target = J.get json "target" in
        let (type, e1, h1) = >>=-eq-done (J.get_text target "type") _ (rw c at h) in
        let (config, e2, h2) = >>=-eq-done (J.value_object target "config" J.object) _ h1 in
        let (v, m) = attach_by-inversion type config p p' t e h2 k in (type, config, e1, e2, v, m)
    | inr c ↦ absurd (
        none-ne-some _
          (sym e ∙ ap (λ (q : Members J T M). q.target) (done-injective (rw c at h)) ∙ k))
  ]

  abbrev pub no_members : Members J T M
  no_members = record { target = none; transfer_manager = none }

  manager_set :
      (p : Members J T M) (success : Bool) (value : Option (Named J M)) (error : String)
      (a : BoolResult × Members J T M)
      → (if success
          then done (success_bool, record p { transfer_manager = value })
          else done (fail_bool error, p))
        ≡ done a
      → a.1.target ≡ p.target
  manager_set p true value error a h =
      sym (ap (λ (q : BoolResult × Members J T M). q.1.target) (done-injective h))
  manager_set p false value error a h =
      sym (ap (λ (q : BoolResult × Members J T M). q.1.target) (done-injective h))

  manager_kept :
      (type : String) (config : J.Value) (p p' : Members J T M)
      → (validate_manager J M managers type config >>= λ v.
          if v.success
          then (set_transfer_manager J T M registered_types managers p type config >>= λ a.
              done a.1)
          else raise v.error)
        ≡ done p'
      → p'.target ≡ p.target
  unfolding set_transfer_manager
  manager_kept type config p p' h =
      let target = λ (q : Members J T M). q.target in
      let (v, e, h1) = >>=-eq-done (validate_manager J M managers type config) _ h in
      elim (Bool-cases v.success) [
        | inl s ↦
            let (a, e2, h2) =
              >>=-eq-done (set_transfer_manager J T M registered_types managers p type config) _
                (rw s at h1) in
            let (tm, e3, h3) = >>=-eq-done (create_manager J M managers type config) _ e2 in
            sym (ap target (done-injective h2)) ∙ manager_set p tm.success tm.value tm.error a h3
        | inr s ↦ absurd (raise≢done (rw s at h1))
      ]

  attach_manager-no_target :
      (json : J.Value) (p p' : Members J T M)
      → attach_manager J T M registered_types managers json p ≡ done p'
      → p'.target ≡ p.target
  unfolding attach_manager set_transfer_manager
  attach_manager-no_target json p p' h =
      let (tm, e1, h1) = >>=-eq-done (J.value_object json "transfer_manager" J.object) _ h in
      let (type, e2, h2) = >>=-eq-done (J.value_text tm "type" "__default__") _ h1 in
      let (config, e3, h3) = >>=-eq-done (J.value_object tm "config" J.object) _ h2 in
      manager_kept type config p p' h3

  -- A provider that is constructed with a target read the target's type and configuration from a
  -- text that parses, without violation of the provider's schema; the type is registered, its class
  -- found the configuration valid, and then made the target from it, under the name of the type.
  pub construct-IsMadeFrom :
      (text : String) (registration : Option ℕ) (p : Members J T M) (t : Named J T)
      → construct J T M registered_types managers text registration ≡ done p
      → p.target ≡ some t
      → (json : J.Value) × (type : String) × (config : J.Value) × ((if str_eq text ""
            then done J.object
            else J.parse text)
          ≡ done json)
        × (J.violation "provider" json ≡ none)
        × (J.get_text (J.get json "target") "type" ≡ done type)
        × (J.value_object (J.get json "target") "config" J.object ≡ done config)
        × IsValidated type config
        × IsMadeFrom type config t
  unfolding construct
  construct-IsMadeFrom text registration p t h k =
      let (json, e1, h1) =
        >>=-eq-done
          (rethrow (J.format "Could not parse warabi provider configuration: {}")
            (if str_eq text "" then done J.object else J.parse text))
          _ h in
      let (u, e2, h2) =
        >>=-eq-done
          (register_class (J.format_code "Failed to register migration class in REMI: {}")
            registration)
          _ h1 in
      let (u', e3, h3) =
        >>=-eq-done
          (refuse_violation "Invalid JSON configuration (see error logs for information)"
            (J.violation "provider" json))
          _ h2 in
      let (p0, e4, h4) =
        >>=-eq-done (attach_manager J T M registered_types managers json no_members) _ h3 in
      let (type, config, e5, e6, v, m) =
        attach_target-IsMadeFrom json p0 p t (attach_manager-no_target json no_members p0 e4) h4
          k in
      (
        json,
        type,
        config,
        rethrow-done (J.format "Could not parse warabi provider configuration: {}")
            (if str_eq text "" then done J.object else J.parse text) e1,
        refuse_violation-done "Invalid JSON configuration (see error logs for information)"
            (J.violation "provider" json) e3,
        e5,
        e6,
        v,
        m,
      )
