-- ===== src/Migration/Kept.antt =====
-- What becomes of the target that `migrateTarget` of src/ProviderImpl.hpp sends, when the migration
-- fails and when it succeeds.
use mochi_warabi.Prelude.{
  ℕ, zero, suc, ◌≡◌, refl, String, Bool, false, List, [], ◌∷◌, Option, none, some, ◌⊎◌, inl, inr,
  Bool-cases, ap, ◌∙◌,
}
use mochi_warabi.Run.{done}
use mochi_warabi.Result.{succeed}
use mochi_warabi.FilePath.{ends_in_slash}
use mochi_warabi.Json.{Json}
use mochi_warabi.Remi.{Remi}
use mochi_warabi.Migration.{
  Migratable, Attempt, go, cancelled, thrown, undefined, waiting, handle_remi_error, of_run,
}
use mochi_warabi.Migration
use mochi_warabi.Migration.Fileset.{
  register, register_message, metadata_message, size_message, create_message, register_all,
  config_to_send, set_transfer_size, describe, fill,
}
use mochi_warabi.Migration.Send.{
  Sender, Destination, prepare, cancel_and_throw, conclude, issue, start, migrate_target, begin,
  started,
}

-- A backend whose migration handles can be given up. `Idle` is that no request holds the lock of the
-- target, `Same` that a target has the data of another one.
pub record IsReversible {T : Type 0} (K : Migratable T) : Type 1 where
  pub Idle : T → Type 0
  pub Same : T → T → Type 0
  pub opened : T → Bool → T
  pub handle : T → Bool → K.Handle
  pub restored : T → Bool → T
  pub ended : T → Bool → T
  pub start_lem :
      (t : T) (remove : Bool)
      → Idle t
      → K.start_migration t remove ≡ done (succeed (some (handle t remove)), opened t remove)
  pub cancel_lem :
      (t : T) (remove : Bool)
      → Idle t
      → K.end_migration
          (K.cancel (opened t remove) (handle t remove)).1
          (K.cancel (opened t remove) (handle t remove)).0
        ≡ done (restored t remove)
  pub end_lem :
      (t : T) (remove : Bool)
      → Idle t
      → K.end_migration (opened t remove) (handle t remove) ≡ done (ended t remove)
  pub restored-Idle : (t : T) (remove : Bool) → Idle t → Idle (restored t remove)
  pub restored-Same : (t : T) (remove : Bool) → Idle t → Same t (restored t remove)

-- The attempt goes on, or has been cancelled.
abbrev pub Handled {ℓ} : {A : Type ℓ} → Attempt A → Type 0
Handled (go a) = Unit {0}
Handled (cancelled e) = Unit {0}
Handled (thrown e) = ⊥
Handled undefined = ⊥
Handled waiting = ⊥

Handled->>= {ℓ κ} :
    {A : Type ℓ} {B : Type κ} (m : Attempt A) (f : A → Attempt B)
    → Handled m
    → ((a : A) → Handled (f a))
    → Handled (Migration.◌>>=◌ m f)
Handled->>= (go a) f h k = k a
Handled->>= (cancelled e) f h k = tt
Handled->>= (thrown e) f h k = h
Handled->>= undefined f h k = h
Handled->>= waiting f h k = h

handle_remi_error-Handled {ℓ} :
    {A : Type ℓ} (message : ℕ → String) (p : ℕ × A) → Handled (handle_remi_error message p)
handle_remi_error-Handled message (zero, a) = tt
handle_remi_error-Handled message (suc code, a) = tt

module _ (J : Json) (R : Remi) where
  register-Handled : (fileset : R.Fileset) (f : List ℕ) → Handled (register J R fileset f)
  unfolding register
  register-Handled fileset f = elim (Bool-cases (ends_in_slash f)) [
    | inl e ↦ rw e (
        handle_remi_error-Handled (register_message J R f "remi_fileset_register_directory")
          (R.register_directory fileset f))
    | inr e ↦ rw e (
        handle_remi_error-Handled (register_message J R f "remi_fileset_register_file")
          (R.register_file fileset f))
  ]

  register_all-Handled :
      (fileset : R.Fileset) (files : List (List ℕ)) → Handled (register_all J R fileset files)
  unfolding register_all
  register_all-Handled fileset [] = tt
  register_all-Handled fileset (f ∷ files) =
      Handled->>= (register J R fileset f) (λ fileset'. register_all J R fileset' files)
        (register-Handled fileset f) (λ fileset'. register_all-Handled fileset' files)

  -- What the code reads from the options and from the target's configuration is there, or has a
  -- default, and is of the type that it is read as.
  pub record IsReadable (options : J.Value) (config : String) (root : List ℕ) : Type 0 where
    pub target_config : J.Value
    pub merge_config : J.Value
    pub size : ℕ
    pub new_root : List ℕ
    pub keep_source : Bool
    pub parsed : J.parse config ≡ done target_config
    pub merged : J.value_object options "merge_config" J.object ≡ done merge_config
    pub sized :
        (J.contains options "transfer_size" ≡ false)
        ⊎ (J.get_size options "transfer_size" ≡ done size)
    pub rooted : J.value_path options "new_root" root ≡ done new_root
    pub kept : J.value_bool options "keep_source" false ≡ done keep_source

  set_transfer_size-Handled :
      (options : J.Value) (size : ℕ) (fileset : R.Fileset)
      → (J.contains options "transfer_size" ≡ false)
        ⊎ (J.get_size options "transfer_size" ≡ done size)
      → Handled (set_transfer_size J R options fileset)
  unfolding set_transfer_size
  set_transfer_size-Handled options size fileset (inl e) = rw e tt
  set_transfer_size-Handled options size fileset (inr e) =
      elim (Bool-cases (J.contains options "transfer_size")) [
        | inl c ↦
            rw (c, e) (handle_remi_error-Handled (size_message J R) (R.set_xfer_size fileset size))
        | inr c ↦ rw c tt
      ]

  module _ {T : Type 0} (K : Migratable T) where
    describe-Handled :
        (options : J.Value) (t : T) (root : List ℕ) (fs : R.Fileset)
        → IsReadable options (K.get_config t) root
        → Handled (describe J R K options t fs)
    unfolding describe config_to_send
    describe-Handled options t root fs r =
        let config = J.dump (J.update r.target_config r.merge_config) in
        let sent = handle_remi_error (metadata_message J R) in
        rw (r.parsed, r.merged)
          (Handled->>= (sent (R.register_metadata fs "config" config)) _
            (handle_remi_error-Handled (metadata_message J R)
              (R.register_metadata fs "config" config))
            (λ fs'.
              Handled->>= (sent (R.register_metadata fs' "type" (K.name t))) _
                (handle_remi_error-Handled (metadata_message J R)
                  (R.register_metadata fs' "type" (K.name t)))
                (λ fs''. set_transfer_size-Handled options r.size fs'' r.sized)))

    fill-Handled :
        (options : J.Value) (t : T) (h : K.Handle) (id : ℕ)
        → IsReadable options (K.get_config t) (K.get_root t h)
        → Handled (fill J R K options t h id)
    unfolding fill
    fill-Handled options t h id r =
        Handled->>= (handle_remi_error (create_message J R) (R.create (K.get_root t h))) _
          (handle_remi_error-Handled (create_message J R) (R.create (K.get_root t h)))
          (λ fs.
            Handled->>= (register_all J R (R.set_provider_id fs id) (K.get_files t h)) _
              (register_all-Handled (R.set_provider_id fs id) (K.get_files t h))
              (λ fs'.
                Handled->>= (describe J R K options t fs') _
                  (describe-Handled options t (K.get_root t h) fs' r)
                  (λ fs''. rw (r.rooted, r.kept) tt)))

  module _ {T : Type 0} (K : Migratable T) (law : IsReversible K) where
    -- How a migration that was started ends: the sender has lost its target, without an exception; or
    -- an exception is thrown, and it still has a target with the same data, which requests can use.
    pub data Settled (s : Sender T) (t : T) : Option String → Sender T → Type 0 where
      sent :
          (e : Option String) (s' : Sender T)
          → e ≡ none
          → s' ≡ record s { target = none }
          → Settled s t e s'
      kept :
          (e : Option String) (s' : Sender T) (message : String) (t' : T)
          → e ≡ some message
          → s' ≡ record s { target = some t' }
          → law.Idle t'
          → law.Same t t'
          → Settled s t e s'

    cancel_and_throw-Settled :
        (w : R.World) (s : Sender T) (t : T) (remove : Bool) (message : String)
        → law.Idle t
        → (e : Option String) × (s' : Sender T) × (cancel_and_throw J R K w s
              (law.opened t remove)
              (law.handle t remove)
              message
            ≡ done (e, s', w))
          × Settled s t e s'
    unfolding cancel_and_throw
    cancel_and_throw-Settled w s t remove message i = (
      some message,
      record s { target = some (law.restored t remove) },
      rw (law.cancel_lem t remove i) refl,
      kept (some message) _ message (law.restored t remove) refl refl (law.restored-Idle t remove i)
          (law.restored-Same t remove i),
    )

    conclude-Settled :
        (s : Sender T) (t : T) (remove : Bool) (answer : ℕ × R.World)
        → law.Idle t
        → (e : Option String) × (s' : Sender T) × (conclude J R K s
              (law.opened t remove)
              (law.handle t remove)
              answer
            ≡ done (e, s', answer.1))
          × Settled s t e s'
    unfolding conclude
    conclude-Settled s t remove (zero, w) i =
        (none, record s { target = none }, rw (law.end_lem t remove i) refl, sent none _ refl refl)
    conclude-Settled s t remove (suc code, w) i = cancel_and_throw-Settled w s t remove _ i

    issue-Settled :
        (w : R.World) (s : Sender T) (d : Destination) (id : ℕ) (t : T) (remove : Bool)
        (a : Attempt (R.Fileset × List ℕ × Bool))
        → law.Idle t
        → Handled a
        → (e : Option String) × (s' : Sender T) × (w' : R.World) × (issue J R K w s d id
              (law.opened t remove)
              (law.handle t remove)
              a
            ≡ done (e, s', w'))
          × Settled s t e s'
    unfolding issue
    issue-Settled w s d id t remove (go (fileset, new_root, keep)) i h =
        let answer = R.migrate w d.address id fileset new_root keep in
        let (e, s', r, settled) = conclude-Settled s t remove answer i in
        (e, s', answer.1, r, settled)
    issue-Settled w s d id t remove (cancelled message) i h =
        let (e, s', r, settled) = cancel_and_throw-Settled w s t remove message i in
        (e, s', w, r, settled)
    issue-Settled w s d id t remove (thrown message) i h = elim h [ ]
    issue-Settled w s d id t remove undefined i h = elim h [ ]
    issue-Settled w s d id t remove waiting i h = elim h [ ]

    pub Settled-cases :
        (s : Sender T) (t : T) (e : Option String) (s' : Sender T)
        → Settled s t e s'
        → ((e ≡ none) × (s' ≡ record s { target = none }))
          ⊎ ((message : String) × (t' : T) × (e ≡ some message)
              × (s' ≡ record s { target = some t' })
              × law.Idle t'
              × law.Same t t')
    Settled-cases s t e s' (sent _ _ h k) = inl (h, k)
    Settled-cases s t e s' (kept _ _ message t' h k i same) = inr (message, t', h, k, i, same)

    -- A migration that gets past its preparation, on a target that no request uses, ends. Provided
    -- that the options and the configuration of the target can be read as the types that the code
    -- expects, it ends in one of two ways, whatever REMI answers to any call: the sender has lost its
    -- target, and no exception is thrown; or an exception is thrown, and the sender has a target with
    -- the data of the one it had, and which requests can use.
    pub migrate_target-Settled :
        (w : R.World) (s : Sender T) (d : Destination) (t : T) (options : J.Value) (id : ℕ)
        (remove : Bool)
        → s.target ≡ some t
        → law.Idle t
        → prepare J R K w s d ≡ done (options, id, remove)
        → IsReadable options
            (K.get_config (law.opened t remove))
            (K.get_root (law.opened t remove) (law.handle t remove))
        → (e : Option String) × (s' : Sender T) × (w' : R.World) × (migrate_target J R K w s d
            ≡ done (e, s', w'))
          × Settled s t e s'
    unfolding migrate_target start
    migrate_target-Settled w s d t options id remove has i p r =
        let t' = law.opened t remove in
        let h = law.handle t remove in
        let a = fill J R K options t' h d.provider_id in
        let (e, s', w', run, settled) =
          issue-Settled w s d id t remove a i (fill-Handled K options t' h d.provider_id r) in
        (
          e,
          s',
          w',
          ap (begin J R K w s d) p
              ∙ ap (λ (o : Option T). started J R K w s d o (options, id, remove)) has
              ∙ rw (law.start_lem t remove i) run,
          settled,
        )
