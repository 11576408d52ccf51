-- ===== src/CryptpilotCrypt/Check.antt =====
-- cryptpilot-crypt/src/cmd/config/check.rs: the check of the configuration.
pub mod Agree
pub mod Flags
pub mod Keeping
use Prim.Native.String.{String}
use cryptpilot.Prelude.{Bool, true, false, ◌&&◌, not, Option, List, [], ◌∷◌, if◌then◌else◌}
use cryptpilot.CryptpilotCore.Types.{Passphrase}
use cryptpilot.CryptpilotCore.System.{Op}
use cryptpilot.CryptpilotCore.Program.{
  Problem, End, ok, err, crashed, Program, ret, fail, crash, call, ◌>>=◌, attempt, ensure,
}
use cryptpilot.CryptpilotCore.Provider.{get_key}
use cryptpilot.CryptpilotCore.Luks2.{is_initialized, check_passphrase}
use cryptpilot.CryptpilotCrypt.Config.{VolumeConfig, is_set, Cache, get_volume_configs}

pub record ConfigCheckOptions : Type 0 where
  pub keep_checking : Bool
  pub skip_check_passphrase : Bool

-- `continue_or_throw!`: the flag `is_error` from here on.
abbrev pub continue_or_throw : ConfigCheckOptions → Problem → Program Bool
continue_or_throw options p = if options.keep_checking then ret true else fail p

-- The arms for `is_initialized`: whether the device is initialized, and `is_error`.
unfoldable pub judge_device :
    ConfigCheckOptions → VolumeConfig → Bool → End Bool → Program (Bool × Bool)
judge_device options config is_error (ok initialized) =
    if is_set config.extra_config.auto_open && not initialized
    then continue_or_throw options Problem.auto_open_not_initialized >>= (λ e. ret (initialized, e))
    else ret (initialized, is_error)
judge_device options config is_error (err p) = continue_or_throw options p >>= λ e. ret (false, e)
judge_device options config is_error crashed = crash

unfoldable pub check_device : ConfigCheckOptions → VolumeConfig → Bool → Program (Bool × Bool)
check_device options config is_error = call (Op.path_exists config.dev) λ exists.
    if exists
    then attempt (is_initialized config.dev) >>= judge_device options config is_error
    else continue_or_throw options Problem.device_not_found >>= λ e. ret (false, e)

unfoldable pub judge_passphrase : ConfigCheckOptions → Bool → End (Unit {0}) → Program Bool
judge_passphrase options is_error (ok u) = ret is_error
judge_passphrase options is_error (err p) = continue_or_throw options p
judge_passphrase options is_error crashed = crash

unfoldable pub judge_key :
    ConfigCheckOptions → VolumeConfig → Bool → Bool → End Passphrase → Program Bool
judge_key options config initialized is_error (ok passphrase) =
    if initialized
    then attempt (check_passphrase config.dev passphrase) >>= judge_passphrase options is_error
    else ret is_error
judge_key options config initialized is_error (err p) = continue_or_throw options p
judge_key options config initialized is_error crashed = crash

unfoldable pub check_key : ConfigCheckOptions → VolumeConfig → Bool → Bool → Program Bool
check_key options config initialized is_error =
    if options.skip_check_passphrase
    then ret is_error
    else attempt (get_key config.key_provider) >>= judge_key options config initialized is_error

unfoldable pub check_volume : ConfigCheckOptions → VolumeConfig → Bool → Program Bool
check_volume options config is_error =
    check_device options config is_error >>= λ device. check_key options config device.0 device.1

unfoldable pub check_volumes : ConfigCheckOptions → List VolumeConfig → Bool → Program Bool
check_volumes options [] is_error = ret is_error
check_volumes options (config ∷ configs) is_error =
    check_volume options config is_error >>= check_volumes options configs

-- `ConfigCheckCommand::run`.
unfoldable pub check_config :
    (String → Option VolumeConfig) → String → ConfigCheckOptions → Cache → Program (Unit {0})
check_config parse config_dir options cache = do
  found ← get_volume_configs parse config_dir cache
  is_error ← check_volumes options found.0 false
  ensure (not is_error) Problem.check_failed
