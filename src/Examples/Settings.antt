-- ===== src/Examples/Settings.antt =====
-- A JSON library with one value, and a REMI that hands a fileset to one destination.
use text.Mathlib.TextEquality.{eq_iff}
use mochi_warabi.Prelude.{
  ℕ, zero, ◌≡◌, ◌≢◌, refl, sym, ◌∙◌, ap, String, false, List, [], ◌∷◌, ◌++◌, none, if◌then◌else◌,
  str_eq, Bool-cases, inl, inr, subst, ◌==◌, ==_iff, ◌&&◌,
}
use mochi_warabi.Run.{Run, done}
use mochi_warabi.Result.{succeed}
use mochi_warabi.Json.{Json, IsJson}
use mochi_warabi.Remi.{Remi}
use mochi_warabi.Factory.{TargetFactory}
use mochi_warabi.Provider.Setup.{Members}
use mochi_warabi.Migration.Receive.{before_migration_callback, after_migration_callback}
use mochi_warabi.Migration.Carried.{IsCarrying}

-- Every key is absent but "target" and "path".
abbrev pub plain_json : Json
plain_json = record {
  Value = Unit {0};
  object = tt;
  parse = λ text. done tt;
  dump = λ v. "{}";
  violation = λ schema v. none;
  contains = λ v key. str_eq key "target";
  value_text = λ v key default. done default;
  value_bool = λ v key default. done default;
  value_size = λ v key default. done default;
  value_object = λ v key default. done default;
  value_path = λ v key default. done default;
  get_text = λ v key. done "memory";
  get_path = λ v key. done (b'/' ∷ b'a' ∷ []);
  get_size = λ v key. done 0;
  get = λ v key. tt;
  set_path = λ v key path. tt;
  set_bool = λ v key b. tt;
  set_text = λ v key text. tt;
  set_value = λ v key u. tt;
  update = λ v u. tt;
  format = λ pattern text. pattern;
  format_path = λ pattern path text. pattern;
  format_code = λ pattern code. pattern;
}

pub plain_json-IsJson : IsJson plain_json
plain_json-IsJson = record { parse_dump = λ v. refl }

-- A fileset is what was registered in it.
pub record Box : Type 0 where
  pub root : List ℕ
  pub files : List (List ℕ)
  pub metadata : String → ℕ × String
  pub provider : ℕ

abbrev pub with_file : Box → List ℕ → Box
with_file fs f = record fs { files = fs.files ++ f ∷ [] }

abbrev pub with_metadata : Box → String → String → Box
with_metadata fs key text = record fs {
  metadata = λ k. if str_eq key k then (0, text) else fs.metadata k;
}

-- The parts of REMI that both ends use, with nobody to send to.
abbrev pub boxes : (World : Type 0) → (World → String → Box → List ℕ → ℕ × World) → Remi
boxes World deliver = record {
  Fileset = Box;
  create = λ root. (0, record { root = root; files = []; metadata = λ k. (1, ""); provider = 0 });
  set_provider_id = λ fs id. record fs { provider = id };
  register_directory = λ fs f. (1, fs);
  register_file = λ fs f. (0, with_file fs f);
  register_metadata = λ fs key text. (0, with_metadata fs key text);
  set_xfer_size = λ fs n. (0, fs);
  get_metadata = λ fs key. fs.metadata key;
  walkthrough = λ fs. (0, fs.files);
  root_size = λ fs. (0, 1);
  get_root = λ fs. (0, fs.root);
  World = World;
  identify = λ w address id. done "warabi";
  remi_provider_id = λ w address id. done (succeed id);
  handle_create = λ w address id. 0;
  migrate = λ w address id fs root keep. deliver w address fs root;
}

-- Whoever is asked to take a fileset declines.
abbrev pub declining : Remi
declining = boxes (Unit {0}) (λ w address fs root. (1, w))

abbrev pub received : Box → List ℕ → Box
received fs root = record fs { root = root }

pub metadata_added :
    (fs fs' : Box) (key text key' : String)
    → (◌≡◌ {A = ℕ × Box} (0, with_metadata fs key text) (0, fs'))
    → fs'.metadata key' ≡ (if str_eq key key' then (0, text) else fs.metadata key')
metadata_added fs fs' key text key' e = ap (λ (x : ℕ × Box). x.1.metadata key') (sym e)

pub differs : (key key' : String) → key ≢ key' → str_eq key key' ≡ false
differs key key' h = elim (Bool-cases (str_eq key key')) [
  | inl e ↦ absurd (h ((eq_iff key key').0 e))
  | inr e ↦ e
]

module _ (T M : Type 0) (targets : TargetFactory plain_json T) where
  -- The providers of all processes, by address and id.
  abbrev pub Providers : Type 0
  Providers = String → ℕ → Members plain_json T M

  -- The answer of the destination, from those of its two callbacks.
  abbrev pub answer :
      Providers → String → ℕ → Run ℕ → Run (ℕ × Members plain_json T M) → ℕ × Providers
  answer w address id (done zero) (done (code, p)) =
      (code, λ a i. if str_eq a address && i == id then p else w a i)
  answer w address id _ _ = (1, w)

  abbrev pub delivering : Remi
  delivering = boxes Providers (λ w address fs root.
      let p = w address fs.provider in
      answer w address fs.provider
        (before_migration_callback plain_json declining T M targets p (received fs root))
        (after_migration_callback plain_json declining T M targets p (received fs root)))

  agreed :
      (w : Providers) (address : String) (id : ℕ) (p : Members plain_json T M) (w' : Providers)
      (r : Run ℕ) (q : Run (ℕ × Members plain_json T M))
      → r ≡ done 0
      → q ≡ done (0, p)
      → answer w address id r q ≡ (0, w')
      → w' address id ≡ p
  agreed w address id p w' r q h k e =
      let e' = rw (h, k) at e in
      ap (λ (x : ℕ × Providers). x.1 address id) (sym e')
      ∙ rw ((eq_iff address address).1 refl) (rw ((==_iff id id).1 refl) refl)

  pub delivered :
      (w w' : Providers) (address : String) (fs : Box) (root : List ℕ) (p : Members plain_json T M)
      → answer w address fs.provider
          (before_migration_callback plain_json declining T M targets
            (w address fs.provider)
            (received fs root))
          (after_migration_callback plain_json declining T M targets
            (w address fs.provider)
            (received fs root))
        ≡ (0, w')
      → before_migration_callback plain_json declining T M targets
          (w address fs.provider)
          (received fs root)
        ≡ done 0
      → after_migration_callback plain_json declining T M targets
          (w address fs.provider)
          (received fs root)
        ≡ done (0, p)
      → w' address fs.provider ≡ p
  delivered w w' address fs root p e h k = agreed w address fs.provider p w' _ _ h k e

  unfoldable pub delivering-IsCarrying : IsCarrying plain_json delivering T M targets
  unfolding before_migration_callback after_migration_callback
  delivering-IsCarrying = record {
    members = λ w. w;
    provider_of = λ fs. fs.provider;
    received = received;
    walkthrough-create = λ root fs e. ap (λ (x : ℕ × Box). (0, x.1.files)) (sym e);
    walkthrough-set_provider_id = λ fs id. refl;
    provider_of-set_provider_id = λ fs id. refl;
    provider_of-register_file = λ fs fs' f e. ap (λ (x : ℕ × Box). x.1.provider) (sym e);
    provider_of-register_metadata = λ fs fs' key text e. ap (λ (x : ℕ × Box). x.1.provider) (sym e);
    provider_of-set_xfer_size = λ fs fs' size e. ap (λ (x : ℕ × Box). x.1.provider) (sym e);
    walkthrough-register_file = λ fs fs' f files e h.
        ap (λ (x : ℕ × Box). (0, x.1.files)) (sym e)
        ∙ ap (λ (x : ℕ × List (List ℕ)). (0, x.1 ++ f ∷ [])) h;
    register_metadata_lem = λ fs fs' key text e. (
      metadata_added fs fs' key text key e ∙ rw ((eq_iff key key).1 refl) refl,
      ap (λ (x : ℕ × Box). (0, x.1.files)) (sym e),
    );
    get_metadata-register_metadata = λ fs fs' key key' text e h.
        metadata_added fs fs' key text key' e ∙ rw (differs key key' h) refl;
    set_xfer_size_lem = λ fs fs' size key e. (
      ap (λ (x : ℕ × Box). x.1.metadata key) (sym e),
      ap (λ (x : ℕ × Box). (0, x.1.files)) (sym e),
    );
    received_lem = λ fs root key. (refl, refl, refl);
    root_size-received = λ fs root. (1, refl);
    migrate_lem = λ w w' address provider id response fs root keep p answered chosen same sent h k.
        subst
          (λ i.
            before_migration_callback plain_json delivering T M targets (w address i)
                (received fs root)
              ≡ done 0
            → after_migration_callback plain_json delivering T M targets (w address i)
                (received fs root)
              ≡ done (0, p)
            → w' address i ≡ p)
          same (λ h k. delivered w w' address fs root p sent h k) h k;
  }
