-- ===== src/CryptpilotFde/BootService/Snapshot.antt =====
-- The device chain for the back end dm-snapshot, and the zram device, of
-- cryptpilot-fde/src/cmd/boot_service/stage/before_sysroot.rs.
use Prim.Native.String.{String, ◌++◌ as ◌<>◌}
use cryptpilot.Prelude.{
  ℕ, ◌+◌, ◌*◌, ◌/◌, ◌-◌, Bool, true, false, ◌&&◌, Option, none, some, List, [], ◌∷◌, replicate, leb,
  is_empty, if◌then◌else◌,
}
use cryptpilot.Prelude.Dict.{is_some}
use cryptpilot.Prelude.Text.{codes, strip_prefix, trim_start, is_whitespace, lines, decimal}
use cryptpilot.CryptpilotCore.System.{Op}
use cryptpilot.CryptpilotCore.Program.{Problem, Program, ret, fail, call, ◌>>=◌, ◌>>◌, from_attempt}
use cryptpilot.CryptpilotCore.Cmd.{run_command, ensure_module_loaded}
use cryptpilot.CryptpilotCore.Blkid.{
  BlkidProbeResult, no_signatures, known_signature, is_dm_snapshot_cow, probe_device,
}
use cryptpilot.CryptpilotFde.BootService.Metadata.{or_fail}

abbrev pub rootfs_name : String
rootfs_name = "rootfs"

abbrev pub rootfs_extended_name : String
rootfs_extended_name = "rootfs_extended"

abbrev pub rootfs_extended_device : String
rootfs_extended_device = "/dev/mapper/rootfs_extended"

abbrev pub zeros : List ℕ
zeros = replicate 4096 0

-- `wipe_cow_device_header_async`.
unfoldable pub wipe_cow_device_header : String → Program (Unit {0})
wipe_cow_device_header dev = do
  call (Op.open_device dev) from_attempt
  call (Op.write_page dev 0 zeros) from_attempt
  call (Op.flush dev) from_attempt

unfoldable pub get_device_size_bytes : String → Program ℕ
get_device_size_bytes dev = do
  call (Op.open_device dev) from_attempt
  call (Op.device_size dev) from_attempt

-- The `match` on the probe of the device in persistent mode.
unfoldable pub prepare_probed : String → BlkidProbeResult → Program (Unit {0})
prepare_probed cow no_signatures = wipe_cow_device_header cow
prepare_probed cow (known_signature fs_type pt_type subsystem) =
    if is_dm_snapshot_cow (known_signature fs_type pt_type subsystem)
    then ret tt
    else fail Problem.valuable_data

unfoldable pub prepare_cow : String → Bool → Program (Unit {0})
prepare_cow cow true = probe_device cow >>= prepare_probed cow
prepare_cow cow false = wipe_cow_device_header cow

-- The table of the device that joins the rootfs and as many zeros as the other device is long.
abbrev pub linear_table : String → ℕ → ℕ → String
linear_table rootfs verity_size cow_size =
    "0 "
    <> decimal verity_size
    <> " linear "
    <> rootfs
    <> " 0\n"
    <> decimal verity_size
    <> " "
    <> decimal cow_size
    <> " zero"

abbrev pub snapshot_mode : Bool → String
snapshot_mode true = "PO"
snapshot_mode false = "N"

abbrev pub snapshot_table : ℕ → String → Bool → String
snapshot_table linear_size cow persistent =
    "0 "
    <> decimal linear_size
    <> " snapshot "
    <> rootfs_extended_device
    <> " "
    <> cow
    <> " "
    <> snapshot_mode persistent
    <> " 16"

abbrev pub dmsetup_create : String → String → Program (List ℕ)
dmsetup_create name table = run_command "dmsetup" ("create" ∷ name ∷ "--table" ∷ table ∷ [])

unfoldable pub setup_dm_snapshot_device_chain : String → String → Bool → Program (Unit {0})
setup_dm_snapshot_device_chain rootfs cow persistent = do
  ensure_module_loaded "dm-snapshot" []
  ensure_module_loaded "dm-zero" []
  verity_bytes ← get_device_size_bytes rootfs
  cow_bytes ← get_device_size_bytes cow
  let verity_size = verity_bytes / 512
  let cow_size = cow_bytes / 512
  extended ← dmsetup_create rootfs_extended_name (linear_table rootfs verity_size cow_size)
  prepare_cow cow persistent
  snapshot ← dmsetup_create rootfs_name (snapshot_table (verity_size + cow_size) cow persistent)
  ret tt

-- `parse::<u64>()`: an optional plus sign, then digits, and no overflow.
abbrev is_digit : ℕ → Bool
is_digit c = leb b'0' c && leb c b'9'

abbrev pub digits_from : ℕ → List ℕ → Option ℕ
digits_from n [] = if leb n 0xffffffffffffffff then some n else none
digits_from n (c ∷ s) =
    let rest = digits_from (n * 10 + (c - b'0')) s in if is_digit c then rest else none

abbrev pub unsigned : List ℕ → Option ℕ
unsigned [] = none
unsigned (c ∷ s) = digits_from 0 (c ∷ s)

abbrev pub parse_u64 : List ℕ → Option ℕ
parse_u64 s = elim (strip_prefix (codes "+") s) [ none ↦ unsigned s | some rest ↦ unsigned rest ]

-- The first word, and what is left after it.
abbrev pub skip_word : List ℕ → List ℕ
skip_word [] = []
skip_word (c ∷ s) = if is_whitespace c then c ∷ s else skip_word s

abbrev pub first_word : List ℕ → List ℕ
first_word [] = []
first_word (c ∷ s) = if is_whitespace c then [] else c ∷ first_word s

-- `split_whitespace().nth(1)`.
abbrev pub second_word : List ℕ → Option (List ℕ)
second_word s =
    let word = first_word (trim_start (skip_word (trim_start s))) in
    if is_empty word then none else some word

-- The first line that starts with "MemTotal:".
abbrev pub mem_total_line : List (List ℕ) → Option (List ℕ)
mem_total_line [] = none
mem_total_line (line ∷ rest) =
    let later = mem_total_line rest in
    if is_some (strip_prefix (codes "MemTotal:") line) then some line else later

abbrev pub mem_total : List ℕ → Option ℕ
mem_total info = elim (mem_total_line (lines info)) [
  | none ↦ none
  | some line ↦ elim (second_word line) [ none ↦ none | some word ↦ parse_u64 word ]
]

abbrev pub trim_end : List ℕ → List ℕ
trim_end [] = []
trim_end (c ∷ s) =
    let rest = trim_end s in if is_whitespace c && is_empty rest then [] else c ∷ rest

unfoldable pub create_zram_cow_device : Program String
create_zram_cow_device = do
  ensure_module_loaded "zram" []
  info ← call (Op.read_to_string "/proc/meminfo") from_attempt
  mem_total_kb ← or_fail (mem_total (codes info)) Problem.no_mem_total
  added ← call (Op.read_to_string "/sys/class/zram-control/hot_add") from_attempt
  zram_id ← or_fail (parse_u64 (trim_end (codes added))) Problem.bad_zram_number
  call
      (Op.write_text ("/sys/block/zram" <> decimal zram_id <> "/disksize")
        (decimal mem_total_kb <> "K"))
      from_attempt
  ret ("/dev/zram" <> decimal zram_id)
