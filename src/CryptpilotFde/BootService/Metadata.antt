-- ===== src/CryptpilotFde/BootService/Metadata.antt =====
-- cryptpilot-fde/src/cmd/boot_service/metadata.rs. TOML and the text of bytes in hex are parameters.
use Prim.Native.String.{String}
use cryptpilot.Prelude.{ℕ, Option, none, some, List}
use cryptpilot.CryptpilotCore.System.{Op}
use cryptpilot.CryptpilotCore.Program.{Problem, Program, ret, fail, call, ◌>>=◌, from_attempt}

pub record Metadata : Type 0 where
  pub version : ℕ
  pub root_hash : String

pub record Formats : Type 0 where
  pub parse_metadata : String → Option Metadata
  pub hex_decode : String → Option (List ℕ)
  pub hex_encode : List ℕ → String

abbrev pub or_fail : {A : Type 0} → Option A → Problem → Program A
or_fail none p = fail p
or_fail (some a) p = ret a

abbrev pub metadata_path_in_initrd : String
metadata_path_in_initrd = "/etc/cryptpilot/metadata.toml"

unfoldable pub load_metadata_from_file : Formats → String → Program Metadata
load_metadata_from_file t path = do
  content ← call (Op.read_to_string path) from_attempt
  metadata ← or_fail (t.parse_metadata content) Problem.parse_failed
  root_hash_bin ← or_fail (t.hex_decode metadata.root_hash) Problem.bad_root_hash
  ret (record metadata { root_hash = t.hex_encode root_hash_bin })
