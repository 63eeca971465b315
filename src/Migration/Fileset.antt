-- ===== src/Migration/Fileset.antt =====
-- `migrateTarget` of src/ProviderImpl.hpp, from the fileset on: what is registered in it, and what
-- is read from the options.
use mochi_warabi.Prelude.{ℕ, String, Bool, false, List, [], ◌∷◌, if◌then◌else◌}
use mochi_warabi.FilePath.{ends_in_slash}
use mochi_warabi.Json.{Json}
use mochi_warabi.Remi.{Remi}
use mochi_warabi.Migration.{Migratable, Attempt, go, ◌>>=◌, of_run, handle_remi_error}

module _ (J : Json) (R : Remi) where
  open R use {Fileset}

  abbrev pub register_message : List ℕ → String → ℕ → String
  register_message file function code =
      J.format_code
        (J.format_path "Failed to register {} {} in REMI fileset ({} returned {})" file function)
        code

  -- A name that ends in a slash is that of a directory.
  unfoldable pub register : Fileset → List ℕ → Attempt Fileset
  register fileset file =
      if ends_in_slash file
      then handle_remi_error (register_message file "remi_fileset_register_directory")
          (R.register_directory fileset file)
      else handle_remi_error (register_message file "remi_fileset_register_file")
          (R.register_file fileset file)

  unfoldable pub register_all : Fileset → List (List ℕ) → Attempt Fileset
  unfolding register
  register_all fileset [] = go fileset
  register_all fileset (file ∷ files) =
      register fileset file >>= λ fileset'. register_all fileset' files

  -- The configuration to send: that of the target, updated by `merge_config`.
  unfoldable pub config_to_send : J.Value → String → Attempt J.Value
  config_to_send options config = do
    target_config ← of_run (J.parse config)
    merge_config ← of_run (J.value_object options "merge_config" J.object)
    go (J.update target_config merge_config)

  abbrev pub size_message : ℕ → String
  size_message =
      J.format_code
        "Failed to set transfer size for REMI fileset (remi_fileset_set_xfer_size returned {})"

  unfoldable pub set_transfer_size : J.Value → Fileset → Attempt Fileset
  set_transfer_size options fileset =
      if J.contains options "transfer_size"
      then (do
        size ← of_run (J.get_size options "transfer_size")
        handle_remi_error size_message (R.set_xfer_size fileset size))
      else go fileset

  abbrev pub metadata_message : ℕ → String
  metadata_message =
      J.format_code
        "Failed to register metadata in REMI fileset (remi_fileset_register_metadata returned {})"

  abbrev pub create_message : ℕ → String
  create_message = J.format_code "Failed to create REMI fileset (remi_fileset_create returned {})"

  module _ {T : Type 0} (K : Migratable T) where
    -- The metadata of the fileset, and the size of a transfer.
    unfoldable pub describe : J.Value → T → Fileset → Attempt Fileset
    unfolding config_to_send set_transfer_size
    describe options t fileset = do
      config ← config_to_send options (K.get_config t)
      fileset ←
          handle_remi_error metadata_message (R.register_metadata fileset "config" (J.dump config))
      fileset ← handle_remi_error metadata_message (R.register_metadata fileset "type" (K.name t))
      set_transfer_size options fileset

    -- The fileset, the root that the files get, and whether `keep_source` was asked for.
    unfoldable pub fill : J.Value → T → K.Handle → ℕ → Attempt (Fileset × List ℕ × Bool)
    unfolding register_all describe
    fill options t h dest_provider_id = do
      fileset ← handle_remi_error create_message (R.create (K.get_root t h))
      fileset ← register_all (R.set_provider_id fileset dest_provider_id) (K.get_files t h)
      fileset ← describe options t fileset
      new_root ← of_run (J.value_path options "new_root" (K.get_root t h))
      keep_source ← of_run (J.value_bool options "keep_source" false)
      go (fileset, new_root, keep_source)
