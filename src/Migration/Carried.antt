-- ===== src/Migration/Carried.antt =====
-- A fileset on its way: what `migrateTarget` of src/ProviderImpl.hpp puts into it, and what the
-- callbacks of the provider that receives it find there.
use text.Mathlib.TextEquality.{eq_iff}
use mochi_warabi.Prelude.{
  ℕ, zero, suc, ◌≡◌, ◌≢◌, refl, sym, ◌∙◌, ap, String, Bool, true, false, List, [], ◌∷◌, ◌++◌, subst,
  Bool-cases, inl, inr,
}
use mathlib.Core.List.{append_assoc, append-nil}
use mochi_warabi.Run.{done}
use mochi_warabi.FilePath.{ends_in_slash}
use mochi_warabi.Result.{Result, value_or_throw}
use mochi_warabi.Json.{Json}
use mochi_warabi.Remi.{Remi}
use mochi_warabi.Factory.{TargetFactory}
use mochi_warabi.Provider.Setup.{Members}
use mochi_warabi.Migration.{
  Migratable, Attempt, go, cancelled, thrown, undefined, waiting, handle_remi_error, of_run,
}
use mochi_warabi.Migration
use mochi_warabi.Migration.Fileset.{
  register, register_message, metadata_message, size_message, create_message, register_all,
  config_to_send, set_transfer_size, describe, fill,
}
use mochi_warabi.Migration.Receive.{before_migration_callback, after_migration_callback}

>>=-eq-go {ℓ κ} :
    {A : Type ℓ} {B : Type κ} (m : Attempt A) (f : A → Attempt B) {b : B}
    → Migration.◌>>=◌ m f ≡ go b
    → (a : A) × (m ≡ go a) × (f a ≡ go b)
>>=-eq-go (go a) f h = (a, refl, h)
>>=-eq-go (cancelled e) f h = absurd (cc)
>>=-eq-go (thrown e) f h = absurd (cc)
>>=-eq-go undefined f h = absurd (cc)
>>=-eq-go waiting f h = absurd (cc)

go-injective {ℓ} : {A : Type ℓ} {a b : A} → go a ≡ go b → a ≡ b
go-injective h = cc

handle_remi_error-go {ℓ} :
    {A : Type ℓ} (message : ℕ → String) (p : ℕ × A) (a : A)
    → handle_remi_error message p ≡ go a
    → p ≡ (0, a)
handle_remi_error-go message (zero, x) a h = ap (λ y. (0, y)) (go-injective h)
handle_remi_error-go message (suc code, x) a h = absurd (cc)

-- What REMI documents of a fileset: what is registered in it is found in it, also once it has been
-- received under a new root; and a migration to the REMI provider of a process that it reports as
-- successful has called both callbacks of the class with the provider id of the fileset, which is
-- then as the second one leaves it. `members` are those of the Warabi provider with an id at an
-- address, whose REMI provider is the one that it answers.
pub record IsCarrying (J : Json) (R : Remi) (T M : Type 0) (targets : TargetFactory J T)
    : Type 1 where
  pub members : R.World → String → ℕ → Members J T M
  pub provider_of : R.Fileset → ℕ
  pub received : R.Fileset → List ℕ → R.Fileset
  pub walkthrough-create :
      (root : List ℕ) (fs : R.Fileset) → R.create root ≡ (0, fs) → R.walkthrough fs ≡ (0, [])
  pub walkthrough-set_provider_id :
      (fs : R.Fileset) (id : ℕ) → R.walkthrough (R.set_provider_id fs id) ≡ R.walkthrough fs
  pub provider_of-set_provider_id :
      (fs : R.Fileset) (id : ℕ) → provider_of (R.set_provider_id fs id) ≡ id
  pub provider_of-register_file :
      (fs fs' : R.Fileset) (f : List ℕ)
      → R.register_file fs f ≡ (0, fs')
      → provider_of fs' ≡ provider_of fs
  pub provider_of-register_metadata :
      (fs fs' : R.Fileset) (key text : String)
      → R.register_metadata fs key text ≡ (0, fs')
      → provider_of fs' ≡ provider_of fs
  pub provider_of-set_xfer_size :
      (fs fs' : R.Fileset) (size : ℕ)
      → R.set_xfer_size fs size ≡ (0, fs')
      → provider_of fs' ≡ provider_of fs
  pub walkthrough-register_file :
      (fs fs' : R.Fileset) (f : List ℕ) (files : List (List ℕ))
      → R.register_file fs f ≡ (0, fs')
      → R.walkthrough fs ≡ (0, files)
      → R.walkthrough fs' ≡ (0, files ++ f ∷ [])
  pub register_metadata_lem :
      (fs fs' : R.Fileset) (key text : String)
      → R.register_metadata fs key text ≡ (0, fs')
      → (R.get_metadata fs' key ≡ (0, text)) × (R.walkthrough fs' ≡ R.walkthrough fs)
  pub get_metadata-register_metadata :
      (fs fs' : R.Fileset) (key key' text : String)
      → R.register_metadata fs key text ≡ (0, fs')
      → key ≢ key'
      → R.get_metadata fs' key' ≡ R.get_metadata fs key'
  pub set_xfer_size_lem :
      (fs fs' : R.Fileset) (size : ℕ) (key : String)
      → R.set_xfer_size fs size ≡ (0, fs')
      → (R.get_metadata fs' key ≡ R.get_metadata fs key) × (R.walkthrough fs' ≡ R.walkthrough fs)
  pub received_lem :
      (fs : R.Fileset) (root : List ℕ) (key : String)
      → (R.get_metadata (received fs root) key ≡ R.get_metadata fs key)
        × (R.walkthrough (received fs root) ≡ R.walkthrough fs)
        × (R.get_root (received fs root) ≡ (0, root))
  pub root_size-received :
      (fs : R.Fileset) (root : List ℕ) → (n : ℕ) × (R.root_size (received fs root) ≡ (0, n))
  pub migrate_lem :
      (w w' : R.World) (address : String) (provider id : ℕ) (response : Result ℕ) (fs : R.Fileset)
      (root : List ℕ) (keep : Bool) (p : Members J T M)
      → R.remi_provider_id w address provider ≡ done response
      → value_or_throw response ≡ done id
      → provider_of fs ≡ provider
      → R.migrate w address id fs root keep ≡ (0, w')
      → before_migration_callback J R T M targets (members w address provider) (received fs root)
        ≡ done 0
      → after_migration_callback J R T M targets (members w address provider) (received fs root)
        ≡ done (0, p)
      → members w' address provider ≡ p

type-ne-config : ◌≢◌ {A = String} "type" "config"
type-ne-config e = let h : false ≡ true = (eq_iff "type" "config").1 e in cc

-- None of the names is that of a directory.
abbrev pub OnlyFiles : List (List ℕ) → Type 0
OnlyFiles [] = Unit {0}
OnlyFiles (f ∷ files) = (ends_in_slash f ≡ false) × OnlyFiles files

module _ (J : Json) (R : Remi) (T M : Type 0) (targets : TargetFactory J T)
    (law : IsCarrying J R T M targets) where
  register-register_file :
      (fs fs' : R.Fileset) (f : List ℕ)
      → ends_in_slash f ≡ false
      → register J R fs f ≡ go fs'
      → R.register_file fs f ≡ (0, fs')
  unfolding register
  register-register_file fs fs' f e h =
      handle_remi_error-go (register_message J R f "remi_fileset_register_file")
        (R.register_file fs f) fs' (rw e at h)

  register_all-walkthrough :
      (fs fs' : R.Fileset) (files registered : List (List ℕ))
      → OnlyFiles files
      → register_all J R fs files ≡ go fs'
      → R.walkthrough fs ≡ (0, registered)
      → R.walkthrough fs' ≡ (0, registered ++ files)
  unfolding register_all
  register_all-walkthrough fs fs' [] registered o h e =
      ap R.walkthrough (sym (go-injective h))
      ∙ e
      ∙ ap (λ (x : List (List ℕ)). (0, x)) (sym (append-nil registered))
  register_all-walkthrough fs fs' (f ∷ files) registered o h e =
      let (fs1, e1, h1) = >>=-eq-go (register J R fs f) (λ x. register_all J R x files) h in
      register_all-walkthrough fs1 fs' files (registered ++ f ∷ []) o.1 h1 (
        law.walkthrough-register_file fs fs1 f registered (register-register_file fs fs1 f o.0 e1)
          e)
      ∙ ap (λ (x : List (List ℕ)). (0, x)) (append_assoc registered (f ∷ []) files)

  register_all-provider_of :
      (fs fs' : R.Fileset) (files : List (List ℕ))
      → OnlyFiles files
      → register_all J R fs files ≡ go fs'
      → law.provider_of fs' ≡ law.provider_of fs
  unfolding register_all
  register_all-provider_of fs fs' [] o h = ap law.provider_of (sym (go-injective h))
  register_all-provider_of fs fs' (f ∷ files) o h =
      let (fs1, e1, h1) = >>=-eq-go (register J R fs f) (λ x. register_all J R x files) h in
      register_all-provider_of fs1 fs' files o.1 h1
      ∙ law.provider_of-register_file fs fs1 f (register-register_file fs fs1 f o.0 e1)

  set_transfer_size-provider_of :
      (options : J.Value) (fs fs' : R.Fileset)
      → set_transfer_size J R options fs ≡ go fs'
      → law.provider_of fs' ≡ law.provider_of fs
  unfolding set_transfer_size
  set_transfer_size-provider_of options fs fs' h =
      elim (Bool-cases (J.contains options "transfer_size")) [
        | inl c ↦
            let (size, e, h1) =
              >>=-eq-go (of_run (J.get_size options "transfer_size")) _ (rw c at h) in
            law.provider_of-set_xfer_size fs fs' size
              (handle_remi_error-go (size_message J R) (R.set_xfer_size fs size) fs' h1)
        | inr c ↦ ap law.provider_of (sym (go-injective (rw c at h)))
      ]

  set_transfer_size_lem :
      (options : J.Value) (fs fs' : R.Fileset) (key : String)
      → set_transfer_size J R options fs ≡ go fs'
      → (R.get_metadata fs' key ≡ R.get_metadata fs key) × (R.walkthrough fs' ≡ R.walkthrough fs)
  unfolding set_transfer_size
  set_transfer_size_lem options fs fs' key h =
      elim (Bool-cases (J.contains options "transfer_size")) [
        | inl c ↦
            let (size, e, h1) =
              >>=-eq-go (of_run (J.get_size options "transfer_size")) _ (rw c at h) in
            law.set_xfer_size_lem fs fs' size key
              (handle_remi_error-go (size_message J R) (R.set_xfer_size fs size) fs' h1)
        | inr c ↦
            let e = go-injective (rw c at h) in
            (ap (λ x. R.get_metadata x key) (sym e), ap R.walkthrough (sym e))
      ]

  module _ {S : Type 0} (K : Migratable S) where
    -- What is found in a fileset that was filled.
    pub record Carries (fs : R.Fileset) (files : List (List ℕ)) (config type : String)
        : Type 0 where
      pub files_lem : R.walkthrough fs ≡ (0, files)
      pub config_lem : R.get_metadata fs "config" ≡ (0, config)
      pub type_lem : R.get_metadata fs "type" ≡ (0, type)

    describe-provider_of :
        (options config : J.Value) (t : S) (fs fs' : R.Fileset)
        → config_to_send J R options (K.get_config t) ≡ go config
        → describe J R K options t fs ≡ go fs'
        → law.provider_of fs' ≡ law.provider_of fs
    unfolding describe
    describe-provider_of options config t fs fs' c h =
        let text = J.dump config in
        let (fs1, h1, h2) =
          >>=-eq-go
            (handle_remi_error (metadata_message J R) (R.register_metadata fs "config" text)) _
            (rw c at h) in
        let (fs2, h3, h4) =
          >>=-eq-go
            (handle_remi_error (metadata_message J R) (R.register_metadata fs1 "type" (K.name t))) _
            h2 in
        set_transfer_size-provider_of options fs2 fs' h4
        ∙ law.provider_of-register_metadata fs1 fs2 "type" (K.name t) (
            handle_remi_error-go (metadata_message J R) (R.register_metadata fs1 "type" (K.name t))
              fs2 h3)
        ∙ law.provider_of-register_metadata fs fs1 "config" text (
            handle_remi_error-go (metadata_message J R) (R.register_metadata fs "config" text) fs1
              h1)

    pub fill-provider_of :
        (options config : J.Value) (t : S) (h : K.Handle) (id : ℕ) (fs : R.Fileset) (root : List ℕ)
        (keep : Bool)
        → OnlyFiles (K.get_files t h)
        → config_to_send J R options (K.get_config t) ≡ go config
        → fill J R K options t h id ≡ go (fs, root, keep)
        → law.provider_of fs ≡ id
    unfolding fill
    fill-provider_of options config t h id fs root keep o c g =
        let (fs1, h1, g1) =
          >>=-eq-go (handle_remi_error (create_message J R) (R.create (K.get_root t h))) _ g in
        let (fs2, h2, g2) =
          >>=-eq-go (register_all J R (R.set_provider_id fs1 id) (K.get_files t h)) _ g1 in
        let (fs3, h3, g3) = >>=-eq-go (describe J R K options t fs2) _ g2 in
        let (root', h4, g4) =
          >>=-eq-go (of_run (J.value_path options "new_root" (K.get_root t h))) _ g3 in
        let (keep', h5, g5) = >>=-eq-go (of_run (J.value_bool options "keep_source" false)) _ g4 in
        ap (λ (x : R.Fileset × List ℕ × Bool). law.provider_of x.0) (sym (go-injective g5))
        ∙ describe-provider_of options config t fs2 fs3 c h3
        ∙ register_all-provider_of (R.set_provider_id fs1 id) fs2 (K.get_files t h) o h2
        ∙ law.provider_of-set_provider_id fs1 id

    describe-Carries :
        (options config : J.Value) (t : S) (fs fs' : R.Fileset) (files : List (List ℕ))
        → R.walkthrough fs ≡ (0, files)
        → config_to_send J R options (K.get_config t) ≡ go config
        → describe J R K options t fs ≡ go fs'
        → Carries fs' files (J.dump config) (K.name t)
    unfolding describe
    describe-Carries options config t fs fs' files e c h =
        let (fs1, h1, h2) =
          >>=-eq-go
            (handle_remi_error (metadata_message J R)
              (R.register_metadata fs "config" (J.dump config)))
            _ (rw c at h) in
        let (fs2, h3, h4) =
          >>=-eq-go
            (handle_remi_error (metadata_message J R) (R.register_metadata fs1 "type" (K.name t))) _
            h2 in
        let m1 =
          handle_remi_error-go (metadata_message J R)
            (R.register_metadata fs "config" (J.dump config)) fs1 h1 in
        let m2 =
          handle_remi_error-go (metadata_message J R) (R.register_metadata fs1 "type" (K.name t))
            fs2 h3 in
        let (c1, w1) = law.register_metadata_lem fs fs1 "config" (J.dump config) m1 in
        let (t2, w2) = law.register_metadata_lem fs1 fs2 "type" (K.name t) m2 in
        let (t3, w3) = set_transfer_size_lem options fs2 fs' "type" h4 in
        let (c3, _) = set_transfer_size_lem options fs2 fs' "config" h4 in
        let c2 =
          law.get_metadata-register_metadata fs1 fs2 "type" "config" (K.name t) m2 type-ne-config in
        record { files_lem = w3 ∙ w2 ∙ w1 ∙ e; config_lem = c3 ∙ c2 ∙ c1; type_lem = t3 ∙ t2 }

    pub fill-Carries :
        (options config : J.Value) (t : S) (h : K.Handle) (id : ℕ) (fs : R.Fileset) (root : List ℕ)
        (keep : Bool)
        → OnlyFiles (K.get_files t h)
        → config_to_send J R options (K.get_config t) ≡ go config
        → fill J R K options t h id ≡ go (fs, root, keep)
        → Carries fs (K.get_files t h) (J.dump config) (K.name t)
    unfolding fill
    fill-Carries options config t h id fs root keep o c g =
        let (fs1, h1, g1) =
          >>=-eq-go (handle_remi_error (create_message J R) (R.create (K.get_root t h))) _ g in
        let (fs2, h2, g2) =
          >>=-eq-go (register_all J R (R.set_provider_id fs1 id) (K.get_files t h)) _ g1 in
        let (fs3, h3, g3) = >>=-eq-go (describe J R K options t fs2) _ g2 in
        let (root', h4, g4) =
          >>=-eq-go (of_run (J.value_path options "new_root" (K.get_root t h))) _ g3 in
        let (keep', h5, g5) = >>=-eq-go (of_run (J.value_bool options "keep_source" false)) _ g4 in
        let e1 = handle_remi_error-go (create_message J R) (R.create (K.get_root t h)) fs1 h1 in
        let e2 = register_all-walkthrough (R.set_provider_id fs1 id) fs2 (K.get_files t h) [] o h2 (
          law.walkthrough-set_provider_id fs1 id
          ∙ law.walkthrough-create (K.get_root t h) fs1 e1) in
        let same = ap (λ (x : R.Fileset × List ℕ × Bool). x.0) (go-injective g5) in
        subst (λ x. Carries x (K.get_files t h) (J.dump config) (K.name t)) same
          (describe-Carries options config t fs2 fs3 (K.get_files t h) e2 c h3)
