-- ===== src/CryptpilotCrypt/AutoOpen.antt =====
-- cryptpilot-crypt/src/cmd/boot_service/auto_open.rs: the volumes that are opened during the boot.
pub mod Unfailing
pub mod Each
use Prim.Native.String.{String}
use cryptpilot.Prelude.{false, Option, List, [], ◌∷◌, if◌then◌else◌, is_empty}
use cryptpilot.CryptpilotCore.Program.{Program, ret, ◌>>=◌, ◌>>◌, attempt}
use cryptpilot.CryptpilotCore.Mkfs.{TraceApi}
use cryptpilot.CryptpilotCrypt.Config.{VolumeConfig, is_set, Cache, get_volume_configs}
use cryptpilot.CryptpilotCrypt.Show.{Serializers, print_as_table}
use cryptpilot.CryptpilotCrypt.Open.{open_for_specific_volume}

module _ (api : TraceApi) where
  -- One round: an error is logged.
  unfoldable pub auto_open_volume : VolumeConfig → Program (Unit {0})
  auto_open_volume config =
      if is_set config.extra_config.auto_open
      then attempt (open_for_specific_volume api config false) >>= (λ res. ret tt)
      else ret tt

  unfoldable pub auto_open_volumes : List VolumeConfig → Program (Unit {0})
  auto_open_volumes [] = ret tt
  auto_open_volumes (config ∷ configs) = auto_open_volume config >> auto_open_volumes configs

  -- The table is printed before and after.
  unfoldable pub open_and_show : Serializers → List VolumeConfig → Program (Unit {0})
  open_and_show serde configs = do
    shown ← print_as_table serde configs
    auto_open_volumes configs
    again ← print_as_table serde configs
    ret tt

  unfoldable pub setup_user_provided_volumes :
      Serializers → (String → Option VolumeConfig) → String → Cache → Program (Unit {0})
  setup_user_provided_volumes serde parse config_dir cache = do
    found ← get_volume_configs parse config_dir cache
    if is_empty found.0 then ret tt else open_and_show serde found.0
