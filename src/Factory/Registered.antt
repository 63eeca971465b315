-- ===== src/Factory/Registered.antt =====
-- What a registration changes in the factory of targets.
use text.Mathlib.TextEquality.{eq_iff}
use mochi_warabi.Prelude.{
  ℕ, ◌≡◌, refl, ap, String, List, [], ◌∷◌, Option, none, some, if◌then◌else◌, str_eq, arith,
  Bool-cases, inl, inr,
}
use mochi_warabi.Run.{Run, done, raise, ◌>>=◌}
use mochi_warabi.Result.{Result, BoolResult, fail_bool}
use mochi_warabi.Json.{Json}
use mochi_warabi.Factory.{
  lookup, insert, BackendType, Named, TargetFactory, with_name, register_backend, create_target,
  recover_target, validate_target,
}

pub lookup-insert {ℓ} :
    {A : Type ℓ} (name asked : String) (a : A) (m : List (String × A))
    → lookup asked (insert name a m) ≡ (if str_eq name asked then some a else lookup asked m)
unfolding lookup insert
lookup-insert name asked a [] = refl
lookup-insert name asked a ((key, b) ∷ m) =
    let rest = lookup-insert name asked a m in
    ground (arith, rest, eq_iff key asked, eq_iff name asked, eq_iff key name)

module _ (J : Json) (T : Type 0) where
  -- The factory once the types of the list have been registered, the first of the list last.
  unfoldable pub factory_of : List (String × BackendType J T) → TargetFactory J T
  unfolding register_backend
  factory_of [] = record { create_fn = []; recover_fn = []; validate_fn = [] }
  factory_of ((name, b) ∷ types) = register_backend J T name b (factory_of types)

  abbrev pub validate_by : String → J.Value → Option (BackendType J T) → Run BoolResult
  validate_by name config none = done (fail_bool (J.format "Unknown target type \"{}\"" name))
  validate_by name config (some b) = b.validate config

  abbrev pub create_by :
      String → J.Value → Option (BackendType J T) → Run (Result (Option (Named J T)))
  create_by name config none = raise "bad_function_call"
  create_by name config (some b) = b.create config >>= with_name J T name

  abbrev pub recover_by :
      String
      → J.Value
      → List (List ℕ)
      → Option (BackendType J T)
      → Run (Result (Option (Named J T)))
  recover_by name config files none = raise "bad_function_call"
  recover_by name config files (some b) = b.recover config files >>= with_name J T name

  -- Whatever types have been registered, and in whatever order, the factory treats a type's name as
  -- the last registration of that name says: it validates with that class, makes and recovers with
  -- it, and gives the target the name. A name that was never registered is refused by the
  -- validation, while making and recovering a target of that type throw.
  pub factory_of_lem :
      (types : List (String × BackendType J T)) (name : String) (config : J.Value)
      (files : List (List ℕ))
      → (validate_target J T (factory_of types) name config
          ≡ validate_by name config (lookup name types))
        × (create_target J T (factory_of types) name config
            ≡ create_by name config (lookup name types))
        × (recover_target J T (factory_of types) name config files
            ≡ recover_by name config files (lookup name types))
  unfolding factory_of validate_target create_target recover_target
  factory_of_lem [] name config files = (refl, refl, refl)
  factory_of_lem ((k, b) ∷ types) name config files =
      let (v, c, r) = factory_of_lem types name config files in
      let f = factory_of types in
      elim (Bool-cases (str_eq k name)) [
        | inl e ↦
            let p = (eq_iff k name).0 e in
            (
              rw (lookup-insert k name b.validate f.validate_fn) (rw e refl),
              rw (lookup-insert k name (λ c. b.create c >>= with_name J T k) f.create_fn)
                  (rw e (ap (λ (n : String). b.create config >>= with_name J T n) p)),
              rw (lookup-insert k name (λ c fs. b.recover c fs >>= with_name J T k) f.recover_fn)
                  (rw e (ap (λ (n : String). b.recover config files >>= with_name J T n) p)),
            )
        | inr e ↦ (
          rw (lookup-insert k name b.validate f.validate_fn) (rw e v),
          rw (lookup-insert k name (λ c. b.create c >>= with_name J T k) f.create_fn) (rw e c),
          rw (lookup-insert k name (λ c fs. b.recover c fs >>= with_name J T k) f.recover_fn)
              (rw e r),
        )
      ]
