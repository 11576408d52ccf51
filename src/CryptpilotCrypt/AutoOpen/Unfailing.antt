-- ===== src/CryptpilotCrypt/AutoOpen/Unfailing.antt =====
-- The boot step of cryptpilot-crypt/src/cmd/boot_service/auto_open.rs does not fail for a volume.
use Prim.Native.String.{String}
use cryptpilot.Prelude.{Bool, true, false, Option, some, List, [], ◌∷◌, is_empty, ◌≡◌, sym, subst}
use cryptpilot.CryptpilotCore.Types.{VolumeType, temporary, persistent}
use cryptpilot.CryptpilotCore.Program.{attempt}
use cryptpilot.CryptpilotCore.Program.Faults.{
  NeverFails, >>=-NeverFails, attempt-NeverFails, if-NeverFails,
}
use cryptpilot.CryptpilotCore.Mkfs.{TraceApi}
use cryptpilot.CryptpilotCore.Luks2.{is_active, get_init_state}
use cryptpilot.CryptpilotCore.Provider.{volume_type}
use cryptpilot.CryptpilotCrypt.Config.{ExtraConfig, VolumeConfig, is_set, get_volume_configs}
use cryptpilot.CryptpilotCrypt.Show.{
  persistent_status, status_by_type, status_if_closed, determine_status, Serializers, no_options,
  serialized, options_cell, print_as_table,
}
use cryptpilot.CryptpilotCrypt.Open.{open_for_specific_volume}
use cryptpilot.CryptpilotCrypt.AutoOpen.{
  auto_open_volume, auto_open_volumes, open_and_show, setup_user_provided_volumes,
}

by_type-NeverFails :
    (config : VolumeConfig) (kind : VolumeType) → NeverFails (status_by_type config kind)
unfolding persistent_status
by_type-NeverFails config temporary = tt
by_type-NeverFails config persistent =
    >>=-NeverFails (attempt (get_init_state config.dev)) _
      (attempt-NeverFails (get_init_state config.dev)) (λ state. tt)

if_closed-NeverFails :
    (config : VolumeConfig) (exists : Bool) → NeverFails (status_if_closed config exists)
unfolding status_if_closed
if_closed-NeverFails config true = by_type-NeverFails config (volume_type config.key_provider)
if_closed-NeverFails config false = tt

determine_status-NeverFails : (config : VolumeConfig) → NeverFails (determine_status config)
unfolding determine_status is_active
determine_status-NeverFails config =
    λ active. if-NeverFails active _ _ tt (λ exists. if_closed-NeverFails config exists)

-- The extra options of each volume can be written as TOML.
abbrev pub AllWritten : Serializers → List VolumeConfig → Type 0
AllWritten serde [] = Unit
AllWritten serde (config ∷ configs) =
    ((text : String) × (serde.to_toml config.extra_config ≡ some text)) × AllWritten serde configs

module _ (serde : Serializers) where
  cell-NeverFails :
      (extra : ExtraConfig) (text : String)
      → serde.to_toml extra ≡ some text
      → NeverFails (options_cell serde extra)
  cell-NeverFails extra text written =
      if-NeverFails (no_options serde extra) _ _ tt
        (subst (λ o. NeverFails (serialized o)) (sym written) tt)

  table-NeverFails :
      (configs : List VolumeConfig)
      → AllWritten serde configs
      → NeverFails (print_as_table serde configs)
  unfolding print_as_table
  table-NeverFails [] h = tt
  table-NeverFails (config ∷ configs) ((text, written), rest) =
      >>=-NeverFails (determine_status config) _ (determine_status-NeverFails config) (λ kind.
        >>=-NeverFails (options_cell serde config.extra_config) _
          (cell-NeverFails config.extra_config text written)
          (λ u.
            >>=-NeverFails (print_as_table serde configs) _ (table-NeverFails configs rest)
              (λ kinds. tt)))

module _ (api : TraceApi) where
  auto_open_volume-NeverFails : (config : VolumeConfig) → NeverFails (auto_open_volume api config)
  unfolding auto_open_volume
  auto_open_volume-NeverFails config =
      if-NeverFails (is_set config.extra_config.auto_open) _ _
        (>>=-NeverFails (attempt (open_for_specific_volume api config false)) _
          (attempt-NeverFails (open_for_specific_volume api config false)) (λ res. tt))
        tt

  auto_open_volumes-NeverFails :
      (configs : List VolumeConfig) → NeverFails (auto_open_volumes api configs)
  unfolding auto_open_volumes
  auto_open_volumes-NeverFails [] = tt
  auto_open_volumes-NeverFails (config ∷ configs) =
      >>=-NeverFails (auto_open_volume api config) _ (auto_open_volume-NeverFails config)
        (λ u. auto_open_volumes-NeverFails configs)

  open_and_show-NeverFails :
      (serde : Serializers) (configs : List VolumeConfig)
      → AllWritten serde configs
      → NeverFails (open_and_show api serde configs)
  unfolding open_and_show
  open_and_show-NeverFails serde configs h =
      let table = table-NeverFails serde configs h in
      >>=-NeverFails (print_as_table serde configs) _ table (λ shown.
        >>=-NeverFails (auto_open_volumes api configs) _ (auto_open_volumes-NeverFails configs)
          (λ u. >>=-NeverFails (print_as_table serde configs) _ table (λ again. tt)))

  -- Once the configuration is loaded, and if the extra options of each volume can be written as TOML
  -- for the table, no run of the boot step ends with an error, whatever goes wrong with the volumes.
  pub setup_user_provided_volumes-NeverFails :
      (serde : Serializers) (parse : String → Option VolumeConfig) (config_dir : String)
      (configs : List VolumeConfig)
      → AllWritten serde configs
      → NeverFails (setup_user_provided_volumes api serde parse config_dir (some configs))
  unfolding setup_user_provided_volumes get_volume_configs
  setup_user_provided_volumes-NeverFails serde parse config_dir configs h =
      if-NeverFails (is_empty configs) _ _ tt (open_and_show-NeverFails serde configs h)
