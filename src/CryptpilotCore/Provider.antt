-- ===== src/CryptpilotCore/Provider.antt =====
-- cryptpilot-core/src/provider: the kind of a key provider and its key. The providers that ask a
-- service (kms.rs, kbs/mod.rs, oidc.rs) answer as they like.
use cryptpilot.Prelude.{◌/◌}
use cryptpilot.CryptpilotCore.Types.{
  Passphrase, generated_passphrase_len, hex_encode, VolumeType, temporary, persistent,
  KeyProviderConfig, otp, tpm2, kms, kbs, oidc, exec,
}
use cryptpilot.CryptpilotCore.System.{Op}
use cryptpilot.CryptpilotCore.Program.{Program, ret, crash, call, from_attempt}
use cryptpilot.CryptpilotCore.Cmd.{run_command}

abbrev pub volume_type : KeyProviderConfig → VolumeType
volume_type otp = temporary
volume_type tpm2 = persistent
volume_type (kms options) = persistent
volume_type (kbs options) = persistent
volume_type (oidc options) = persistent
volume_type (exec program args) = persistent

-- `Passphrase::random`.
unfoldable pub random_passphrase : Program Passphrase
random_passphrase =
    call (Op.random_bytes (generated_passphrase_len / 2)) λ bytes. ret (hex_encode bytes)

-- `get_key`. The provider for the TPM is not written yet: it panics.
unfoldable pub get_key : KeyProviderConfig → Program Passphrase
get_key otp = random_passphrase
get_key tpm2 = crash
get_key (kms options) = call (Op.fetch_key (kms options)) from_attempt
get_key (kbs options) = call (Op.fetch_key (kbs options)) from_attempt
get_key (oidc options) = call (Op.fetch_key (oidc options)) from_attempt
get_key (exec program args) = run_command program args
