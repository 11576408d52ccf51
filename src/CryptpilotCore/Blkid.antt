-- ===== src/CryptpilotCore/Blkid.antt =====
-- cryptpilot-core/src/fs/blkid.rs: what `blkid -p` finds on a device.
pub mod Fields
use Prim.Native.String.{String}
use cryptpilot.Prelude.{
  ℕ, Bool, true, false, Option, none, some, List, [], ◌∷◌, ◌++◌, ◌==◌, if◌then◌else◌, bytes_eq,
}
use cryptpilot.Prelude.Dict.{is_some}
use cryptpilot.Prelude.Text.{codes, after, before, trim}
use cryptpilot.CryptpilotCore.System.{Output}
use cryptpilot.CryptpilotCore.Program.{Problem, Program, ret, fail}
use cryptpilot.CryptpilotCore.Cmd.{run_with_status_checker}

pub data BlkidProbeResult : Type 0 where
  no_signatures : BlkidProbeResult
  known_signature : Option (List ℕ) → Option (List ℕ) → Option (List ℕ) → BlkidProbeResult

abbrev pub is_clean : BlkidProbeResult → Bool
is_clean no_signatures = true
is_clean (known_signature fs_type pt_type subsystem) = false

-- `is_dm_snapshot_cow`.
abbrev pub is_dm_snapshot_cow : BlkidProbeResult → Bool
is_dm_snapshot_cow no_signatures = false
is_dm_snapshot_cow (known_signature none pt_type subsystem) = false
is_dm_snapshot_cow (known_signature (some fs_type) pt_type subsystem) =
    is_some (after (codes "DM_snapshot_cow") fs_type)

-- `parse_blkid_field`: what stands between KEY=" and the next quote.
unfoldable pub parse_blkid_field : List ℕ → List ℕ → Option (List ℕ)
parse_blkid_field output key = elim (after (key ++ b'=' ∷ b'"' ∷ []) output) [
  | none ↦ none
  | some rest ↦ before b'"' rest
]

abbrev pub is_atari : Option (List ℕ) → Bool
is_atari none = false
is_atari (some pt_type) = bytes_eq pt_type (codes "atari")

-- The result from the fields: an `atari` table and no type counts as nothing.
abbrev pub signature : Option (List ℕ) → Option (List ℕ) → Option (List ℕ) → BlkidProbeResult
signature none pt_type subsystem =
    if is_atari pt_type then no_signatures else known_signature none pt_type subsystem
signature (some fs_type) pt_type subsystem = known_signature (some fs_type) pt_type subsystem

-- The branch of the exit code 0.
unfoldable pub parse_probe : List ℕ → BlkidProbeResult
parse_probe output =
    let trimmed = trim output in
    signature (parse_blkid_field trimmed (codes "TYPE"))
      (parse_blkid_field trimmed (codes "PTTYPE")) (parse_blkid_field trimmed (codes "SUBSYSTEM"))

abbrev pub check_probe : ℕ → Output → Program BlkidProbeResult
check_probe code out =
    if code == 0
    then ret (parse_probe out.text)
    else if code == 2
    then ret no_signatures
    else fail Problem.blkid_failed

unfoldable pub probe_device : String → Program BlkidProbeResult
probe_device path = run_with_status_checker "blkid" ("-p" ∷ path ∷ []) check_probe
