-- ===== src/CryptpilotCrypt/Open.antt =====
-- cryptpilot-crypt/src/cmd/open.rs: the mapping of a volume is set up.
pub mod Keeps
use Prim.Native.String.{String}
use cryptpilot.Prelude.{
  Bool, true, false, ◌&&◌, Option, none, some, List, [], ◌∷◌, if◌then◌else◌, not,
}
use cryptpilot.Prelude.Dict.{is_some}
use cryptpilot.CryptpilotCore.Types.{
  Passphrase, IntegrityType, no_integrity, no_journal, MakeFsType, VolumeType, temporary,
  persistent,
}
use cryptpilot.CryptpilotCore.Program.{
  Problem, End, ok, err, crashed, Program, ret, fail, crash, ◌>>=◌, ◌>>◌, attempt, ensure,
}
use cryptpilot.CryptpilotCore.Provider.{volume_type, get_key}
use cryptpilot.CryptpilotCore.Luks2.{
  is_active, is_dev_in_use, is_initialized, format, open_with_check_passphrase, close,
  mark_volume_as_initialized,
}
use cryptpilot.CryptpilotCore.Mkfs.{TraceApi, force_mkfs, has_valuable_data}
use cryptpilot.CryptpilotCrypt.Config.{VolumeConfig, volume_path, Cache, get_volume_config}

abbrev pub open_integrity : Option Bool → IntegrityType
open_integrity (some true) = no_journal
open_integrity (some false) = no_integrity
open_integrity none = no_integrity

unfoldable pub persistent_disk_open : VolumeConfig → Program (Unit {0})
persistent_disk_open config = do
  initialized ← is_initialized config.dev
  ensure initialized Problem.not_initialized
  passphrase ← get_key config.key_provider
  open_with_check_passphrase config.volume config.dev passphrase
      (open_integrity config.extra_config.integrity)

-- The volume is closed, and the error of mkfs passed on.
abbrev pub close_on_error : VolumeConfig → End (Unit {0}) → Program (Unit {0})
close_on_error config (ok u) = ret tt
close_on_error config (err e) = close config.volume >> fail e
close_on_error config crashed = crash

-- The check of `--check-fs`, once `has_valuable_data` was asked.
unfoldable pub after_check : VolumeConfig → Bool → Program (Unit {0})
after_check config true = ret tt
after_check config false = do
  res ← attempt (close config.volume)
  fail Problem.filesystem_not_initialized

unfoldable pub check_filesystem : VolumeConfig → Bool → Program (Unit {0})
check_filesystem config check_fs =
    if check_fs && is_some config.extra_config.makefs
    then has_valuable_data (volume_path config) config.extra_config.makefs >>= after_check config
    else ret tt

module _ (api : TraceApi) where
  unfoldable pub temporary_filesystem : VolumeConfig → Option MakeFsType → Program (Unit {0})
  temporary_filesystem config none = ret tt
  temporary_filesystem config (some makefs) =
      attempt
        (force_mkfs api (volume_path config) makefs (open_integrity config.extra_config.integrity))
      >>= close_on_error config

  unfoldable pub temporary_disk_open : VolumeConfig → Program (Unit {0})
  temporary_disk_open config = do
    passphrase ← get_key config.key_provider
    format config.dev passphrase (open_integrity config.extra_config.integrity)
    open_with_check_passphrase config.volume config.dev passphrase
        (open_integrity config.extra_config.integrity)
    temporary_filesystem config config.extra_config.makefs
    mark_volume_as_initialized config.dev

  unfoldable pub open_by_type : VolumeConfig → VolumeType → Program (Unit {0})
  open_by_type config temporary = temporary_disk_open config
  open_by_type config persistent = persistent_disk_open config

  -- What follows when there is no mapping yet.
  unfoldable pub open_closed : VolumeConfig → Bool → Program (Unit {0})
  open_closed config check_fs = do
    in_use ← is_dev_in_use config.dev
    ensure (not in_use) Problem.device_in_use
    open_by_type config (volume_type config.key_provider)
    check_filesystem config check_fs

  unfoldable pub open_for_specific_volume : VolumeConfig → Bool → Program (Unit {0})
  open_for_specific_volume config check_fs = do
    active ← is_active config.volume
    if active then ret tt else open_closed config check_fs

  -- `OpenCommand::run`.
  unfoldable pub open_volumes :
      (String → Option VolumeConfig) → String → Bool → List String → Cache → Program Cache
  open_volumes parse config_dir check_fs [] cache = ret cache
  open_volumes parse config_dir check_fs (name ∷ names) cache = do
    found ← get_volume_config parse config_dir name cache
    open_for_specific_volume found.0 check_fs
    open_volumes parse config_dir check_fs names found.1
