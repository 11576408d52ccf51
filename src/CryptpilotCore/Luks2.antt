-- ===== src/CryptpilotCore/Luks2.antt =====
-- cryptpilot-core/src/fs/luks2.rs: LUKS2 volumes through libcryptsetup. The level of its debug output
-- is left out.
pub mod Header
pub mod Answers
use Prim.Native.String.{String, ◌++◌ as ◌<>◌}
use cryptpilot.Prelude.{
  ℕ, ◌/◌, Bool, true, false, Option, none, some, List, [], ◌==◌, if◌then◌else◌, bytes_eq,
}
use cryptpilot.Prelude.Text.{codes}
use cryptpilot.CryptpilotCore.Types.{Passphrase, IntegrityType, no_integrity, journal, no_journal}
use cryptpilot.CryptpilotCore.System.{Op, Attempt, good, bad, FormatParams}
use cryptpilot.CryptpilotCore.Program.{
  Problem, End, ok, err, crashed, Program, ret, fail, crash, call, ◌>>=◌, ◌>>◌, from_attempt,
  attempt, with_drop,
}
use cryptpilot.CryptpilotCore.Cmd.{ensure_module_loaded}
use cryptpilot.CryptpilotCore.Luks2.Header.{header_size, subsystem_of}

abbrev pub luks2_subsystem_name : String
luks2_subsystem_name = "cryptpilot"

abbrev pub luks2_subsystem_initializing : String
luks2_subsystem_initializing = "cryptpilot-initializing"

abbrev pub luks2_sector_size : ℕ
luks2_sector_size = 4096

pub data VolumeInitState : Type 0 where
  no_marker initializing ready : VolumeInitState

-- `get_luks2_subsystem`: the text of the field as bytes, if the header is valid.
unfoldable pub get_luks2_subsystem : String → Program (Option (List ℕ))
get_luks2_subsystem dev = call (Op.read_first dev header_size) λ r. from_attempt r >>= λ buf.
    elim (subsystem_of buf) [
      | none ↦ fail Problem.invalid_luks2_header
      | some subsystem ↦ ret subsystem
    ]

-- The comparisons of `get_init_state`.
unfoldable pub classify : End (Option (List ℕ)) → VolumeInitState
classify (ok (some s)) =
    if bytes_eq s (codes luks2_subsystem_name)
    then ready
    else if bytes_eq s (codes luks2_subsystem_initializing)
    then initializing
    else no_marker
classify (ok none) = no_marker
classify (err p) = no_marker
classify crashed = no_marker

unfoldable pub get_init_state : String → Program VolumeInitState
get_init_state dev = attempt (get_luks2_subsystem dev) >>= λ res. ret (classify res)

abbrev pub is_ready : VolumeInitState → Bool
is_ready ready = true
is_ready other = false

-- `is_initialized`.
unfoldable pub is_initialized : String → Program Bool
is_initialized dev = get_init_state dev >>= λ state. ret (is_ready state)

abbrev pub integrity_param : IntegrityType → Option String
integrity_param no_integrity = none
integrity_param journal = some "hmac(sha256)"
integrity_param no_journal = some "hmac(sha256)"

-- In bytes.
abbrev pub volume_key_size : IntegrityType → ℕ
volume_key_size no_integrity = 512 / 8
volume_key_size journal = 768 / 8
volume_key_size no_journal = 768 / 8

abbrev pub format_params : String → IntegrityType → FormatParams
format_params dev integrity = record {
  device = dev;
  integrity = integrity_param integrity;
  sector_size = luks2_sector_size;
  subsystem = luks2_subsystem_initializing;
  key_size = volume_key_size integrity;
}

unfoldable pub format : String → Passphrase → IntegrityType → Program (Unit {0})
format dev passphrase integrity = do
  call (Op.crypt_init dev) from_attempt
  call (Op.crypt_format (format_params dev integrity)) from_attempt
  call (Op.crypt_add_key dev (volume_key_size integrity) passphrase) from_attempt

unfoldable pub mark_volume_as_initialized : String → Program (Unit {0})
mark_volume_as_initialized dev = do
  call (Op.crypt_init dev) from_attempt
  call (Op.crypt_load dev) from_attempt
  call (Op.crypt_set_label dev luks2_subsystem_name) from_attempt

unfoldable pub check_passphrase : String → Passphrase → Program (Unit {0})
check_passphrase dev passphrase = do
  call (Op.crypt_init dev) from_attempt
  call (Op.crypt_load dev) from_attempt
  call (Op.crypt_activate none dev passphrase false) from_attempt

-- `CryptActivate::NO_JOURNAL`.
abbrev pub without_journal : IntegrityType → Bool
without_journal no_integrity = false
without_journal journal = false
without_journal no_journal = true

abbrev pub ensure_integrity_module : IntegrityType → Program (Unit {0})
ensure_integrity_module no_integrity = ret tt
ensure_integrity_module journal = ensure_module_loaded "dm-integrity" []
ensure_integrity_module no_journal = ensure_module_loaded "dm-integrity" []

unfoldable pub open_with_check_passphrase :
    String → String → Passphrase → IntegrityType → Program (Unit {0})
open_with_check_passphrase volume dev passphrase integrity = do
  ensure_module_loaded "dm_crypt" []
  ensure_integrity_module integrity
  check_passphrase dev passphrase
  call (Op.crypt_init dev) from_attempt
  call (Op.crypt_load dev) from_attempt
  call (Op.crypt_activate (some volume) dev passphrase (without_journal integrity)) from_attempt

unfoldable pub is_active : String → Program Bool
is_active volume = call (Op.path_exists ("/dev/mapper/" <> volume)) ret

abbrev pub ebusy : ℕ
ebusy = 16

-- The answer of an open with `O_EXCL`.
abbrev pub busy : Attempt (Unit {0}) → Program Bool
busy (good u) = ret false
busy (bad none) = fail (Problem.outside none)
busy (bad (some e)) = if e == ebusy then ret true else fail (Problem.outside (some e))

unfoldable pub is_dev_in_use : String → Program Bool
is_dev_in_use dev = call (Op.open_exclusive dev) busy

unfoldable pub close : String → Program (Unit {0})
close volume = do
  call (Op.crypt_init_by_name volume) from_attempt
  call (Op.crypt_deactivate volume) from_attempt

-- `TempLuksVolume`: opened under a new name, and closed at the end of its scope whatever happens. The
-- body gets its path below /dev/mapper.
unfoldable pub with_temp_luks_volume :
    {A : Type 0} → String → Passphrase → IntegrityType → (String → Program A) → Program A
with_temp_luks_volume dev passphrase integrity body = call (Op.random_name 20) λ letters.
    let name = ".cryptpilot-" <> letters in
    open_with_check_passphrase name dev passphrase integrity
    >> with_drop (body ("/dev/mapper/" <> name)) (close name)
