-- ===== src/CryptpilotCrypt/Init.antt =====
-- cryptpilot-crypt/src/cmd/init.rs: the initialization of a persistent volume.
pub mod Order
pub mod Closed
use Prim.Native.String.{String}
use cryptpilot.Prelude.{Bool, true, false, Option, none, some, List, [], ◌∷◌, if◌then◌else◌, not}
use cryptpilot.CryptpilotCore.Types.{
  Passphrase, IntegrityType, no_integrity, journal, MakeFsType, VolumeType, temporary, persistent,
}
use cryptpilot.CryptpilotCore.System.{Op}
use cryptpilot.CryptpilotCore.Program.{
  Problem, Program, ret, fail, call, ◌>>=◌, ◌>>◌, from_attempt, ensure,
}
use cryptpilot.CryptpilotCore.Provider.{volume_type, get_key}
use cryptpilot.CryptpilotCore.Luks2.{
  is_dev_in_use, format, with_temp_luks_volume, mark_volume_as_initialized,
}
use cryptpilot.CryptpilotCore.Mkfs.{TraceApi, force_mkfs}
use cryptpilot.CryptpilotCrypt.Config.{VolumeConfig, Cache, get_volume_config}
use cryptpilot.CryptpilotCrypt.Show.{
  VolumeStatusKind, device_not_found, check_failed, requires_init, initializing, ready_to_open,
  opened, determine_status,
}

pub record InitOptions : Type 0 where
  pub volume : List String
  pub force_reinit : Bool
  pub assume_yes : Bool

-- The `match` on the status.
abbrev pub check_status : InitOptions → VolumeStatusKind → Program (Unit {0})
check_status options device_not_found = fail Problem.status_incorrect
check_status options check_failed = fail Problem.status_incorrect
check_status options opened = fail Problem.status_incorrect
check_status options requires_init = ret tt
check_status options initializing = ret tt
check_status options ready_to_open = ensure options.force_reinit Problem.already_initialized

-- The question to the user.
unfoldable pub ask_user : Program (Unit {0})
ask_user = do
  is_term ← call Op.is_term ret
  ensure is_term Problem.not_a_terminal
  agreed ← call Op.confirm from_attempt
  ensure agreed Problem.canceled

-- The part under `!init_options.yes`.
abbrev pub ask : Bool → Program (Unit {0})
ask true = ret tt
ask false = ask_user

abbrev pub init_integrity : Option Bool → IntegrityType
init_integrity (some true) = journal
init_integrity (some false) = no_integrity
init_integrity none = no_integrity

module _ (api : TraceApi) where
  -- The file system on a temporary volume, if one is wanted.
  unfoldable pub init_filesystem :
      VolumeConfig → Passphrase → Option MakeFsType → Program (Unit {0})
  init_filesystem config passphrase none = ret tt
  init_filesystem config passphrase (some makefs) =
      let integrity = init_integrity config.extra_config.integrity in
      with_temp_luks_volume config.dev passphrase integrity
        (λ path. force_mkfs api path makefs integrity)

  -- What follows once the key is there.
  unfoldable pub write_volume : VolumeConfig → Passphrase → Program (Unit {0})
  write_volume config passphrase = do
    format config.dev passphrase (init_integrity config.extra_config.integrity)
    init_filesystem config passphrase config.extra_config.makefs
    mark_volume_as_initialized config.dev

  unfoldable pub persistent_disk_init : InitOptions → VolumeConfig → Program (Unit {0})
  persistent_disk_init options config = do
    status ← determine_status config
    check_status options status
    ask options.assume_yes
    in_use ← is_dev_in_use config.dev
    ensure (not in_use) Problem.device_in_use
    passphrase ← get_key config.key_provider
    write_volume config passphrase

  abbrev pub init_by_type : InitOptions → VolumeConfig → VolumeType → Program (Unit {0})
  init_by_type options config temporary = ret tt
  init_by_type options config persistent = persistent_disk_init options config

  -- One round of `InitCommand::run`.
  unfoldable pub init_volume : InitOptions → VolumeConfig → Program (Unit {0})
  init_volume options config = init_by_type options config (volume_type config.key_provider)

  unfoldable pub init_volumes :
      (String → Option VolumeConfig) → String → InitOptions → List String → Cache → Program Cache
  init_volumes parse config_dir options [] cache = ret cache
  init_volumes parse config_dir options (name ∷ names) cache = do
    found ← get_volume_config parse config_dir name cache
    init_volume options found.0
    init_volumes parse config_dir options names found.1
