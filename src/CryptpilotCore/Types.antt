-- ===== src/CryptpilotCore/Types.antt =====
-- cryptpilot-core/src/types.rs, and the configuration of a key provider (config/encrypt.rs).
use Prim.Native.String.{String}
use cryptpilot.Prelude.{ℕ, ◌/◌, ◌%◌, ◌+◌, List, [], ◌∷◌, if◌then◌else◌, ltb}

-- The bytes of a passphrase.
abbrev pub Passphrase : Type 0
Passphrase = List ℕ

pub data IntegrityType : Type 0 where
  no_integrity journal no_journal : IntegrityType

pub data MakeFsType : Type 0 where
  swap ext4 xfs vfat : MakeFsType

abbrev pub generated_passphrase_len : ℕ
generated_passphrase_len = 64

-- `hex::encode`: two lower-case digits for a byte.
abbrev pub hex_digit : ℕ → ℕ
hex_digit n = if ltb n 10 then b'0' + n else b'a' + n % 10

abbrev pub hex_encode : List ℕ → List ℕ
hex_encode [] = []
hex_encode (b ∷ bs) = hex_digit (b / 16) ∷ hex_digit (b % 16) ∷ hex_encode bs

-- `VolumeType` of provider/mod.rs.
pub data VolumeType : Type 0 where
  temporary persistent : VolumeType

-- The settings of a provider that asks a service, as text.
pub data KeyProviderConfig : Type 0 where
  otp tpm2 : KeyProviderConfig
  kms kbs oidc : String → KeyProviderConfig
  exec : String → List String → KeyProviderConfig
