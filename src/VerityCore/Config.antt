-- ===== src/VerityCore/Config.antt =====
-- The constants and the algorithm numbers of verity-core/src/config.rs.
use Prim.Native.Nat.{ℕ}
use cryptpilot.Prelude.{Option, none, some, ◌==◌, if◌then◌else◌}

abbrev pub max_digest_size : ℕ
max_digest_size = 64

abbrev pub max_salt_size : ℕ
max_salt_size = 32

abbrev pub max_levels : ℕ
max_levels = 8

abbrev pub default_block_size : ℕ
default_block_size = 4096

-- `usize` and `u64` are 64 bits wide.
abbrev pub u64_mod : ℕ
u64_mod = 18_446_744_073_709_551_616

pub data InnerHashAlgorithm : Type 0 where
  sha256 sha512 : InnerHashAlgorithm

-- `as u8`.
unfoldable pub algorithm_to_u8 : InnerHashAlgorithm → ℕ
algorithm_to_u8 InnerHashAlgorithm.sha256 = 1
algorithm_to_u8 InnerHashAlgorithm.sha512 = 2

-- `TryFromPrimitive`.
unfoldable pub algorithm_of_u8 : ℕ → Option InnerHashAlgorithm
algorithm_of_u8 n =
    if n == 1
    then some InnerHashAlgorithm.sha256
    else if n == 2
    then some InnerHashAlgorithm.sha512
    else none

-- `Default`.
abbrev pub default_algorithm : InnerHashAlgorithm
default_algorithm = InnerHashAlgorithm.sha256
