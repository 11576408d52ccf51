-- ===== src/CryptpilotCore/Mkfs.antt =====
-- cryptpilot-core/src/fs/mkfs.rs, with the flags of an event of fs/block/blktrace/mod.rs and the dummy
-- device of fs/block/dummy.rs: file systems on plain volumes and on volumes with integrity. Positions
-- are below 2^64, as are those of a device.
pub mod Pages
pub mod Calls
use Prim.Native.Nat.{bit_and}
use Prim.Native.String.{String}
use cryptpilot.Prelude.{
  div_ceil, ℕ, zero, suc, ◌+◌, ◌-◌, ◌*◌, ◌/◌, ◌^◌, Bool, true, false, not, ◌&&◌, ◌||◌, Option, none,
  some, List, [], ◌∷◌, ◌++◌, ◌==◌, if◌then◌else◌, bytes_eq,
}
use cryptpilot.Prelude.Text.{codes}
use cryptpilot.CryptpilotCore.Types.{
  IntegrityType, no_integrity, journal, no_journal, MakeFsType, swap, ext4, xfs, vfat,
}
use cryptpilot.CryptpilotCore.System.{Op, Attempt, good, bad, BlkTraceEvent}
use cryptpilot.CryptpilotCore.Program.{
  Problem, Program, ret, fail, call, ◌>>=◌, ◌>>◌, from_attempt, with_drop,
}
use cryptpilot.CryptpilotCore.Cmd.{run_command, ensure_module_loaded}
use cryptpilot.CryptpilotCore.Blkid.{BlkidProbeResult, no_signatures, known_signature, probe_device}

-- The constants of the kernel's header linux/blktrace_api.h.
pub record TraceApi : Type 0 where
  pub tc_shift : ℕ
  pub tc_read : ℕ
  pub tc_write : ℕ
  pub tc_discard : ℕ

abbrev pub mkfs_command : MakeFsType → String
mkfs_command swap = "mkswap"
mkfs_command ext4 = "mkfs.ext4"
mkfs_command xfs = "mkfs.xfs"
mkfs_command vfat = "mkfs.vfat"

abbrev pub mkfs_args : MakeFsType → String → List String
mkfs_args swap dev = "-f" ∷ dev ∷ []
mkfs_args ext4 dev = "-F" ∷ "-E" ∷ "lazy_itable_init=0,lazy_journal_init=0" ∷ dev ∷ []
mkfs_args xfs dev = "-f" ∷ dev ∷ []
mkfs_args vfat dev = "-I" ∷ dev ∷ []

-- `NormalMakeFs::force_mkfs`.
unfoldable pub normal_mkfs : String → MakeFsType → Program (Unit {0})
normal_mkfs dev fs_type =
    run_command (mkfs_command fs_type) (mkfs_args fs_type dev) >>= λ stdout. ret tt

-- The set of pages in the order of insertion.
abbrev pub contains : ℕ → List ℕ → Bool
contains x [] = false
contains x (y ∷ set) = x == y || contains x set

unfoldable pub insert : ℕ → List ℕ → List ℕ
insert x set = if contains x set then set else set ++ x ∷ []

unfoldable pub insert_range : ℕ → ℕ → List ℕ → List ℕ
insert_range zero start set = set
insert_range (suc n) start set = insert_range n (start + 1) (insert start set)

-- `setup_on_tmpfs_with_block_size`.
unfoldable pub setup_on_tmpfs_with_block_size : ℕ → ℕ → Program String
setup_on_tmpfs_with_block_size device_size block_size =
    ensure_module_loaded "loop" [] >> call (Op.setup_dummy device_size block_size) from_attempt

-- One round of the loop that migrates the pages.
unfoldable pub migrate_page : String → String → ℕ → ℕ → Program (Unit {0})
migrate_page dummy real page_size i =
    let offset = i * page_size in
    call (Op.read_page dummy offset page_size)
      λ r. from_attempt r >>= λ buf. call (Op.write_page real offset buf) from_attempt

unfoldable pub migrate_pages : String → String → ℕ → List ℕ → Program (Unit {0})
migrate_pages dummy real page_size [] = ret tt
migrate_pages dummy real page_size (i ∷ rest) =
    migrate_page dummy real page_size i >> migrate_pages dummy real page_size rest

unfoldable pub migrate : String → String → ℕ → List ℕ → Program (Unit {0})
migrate dummy real page_size pages = do
  call (Op.open_device dummy) from_attempt
  call (Op.open_device real) from_attempt
  migrate_pages dummy real page_size pages
  call (Op.flush real) from_attempt

module _ (api : TraceApi) where
  abbrev has_flag : ℕ → BlkTraceEvent → Bool
  has_flag flag event = bit_and (event.action / 2 ^ api.tc_shift) flag == flag

  abbrev pub is_read : BlkTraceEvent → Bool
  is_read = has_flag api.tc_read

  abbrev pub is_write : BlkTraceEvent → Bool
  is_write = has_flag api.tc_write

  abbrev pub is_discard : BlkTraceEvent → Bool
  is_discard = has_flag api.tc_discard

  -- The test of the loop over the events.
  abbrev pub counts : BlkTraceEvent → Bool
  counts event = not (is_discard event) && (is_read event || is_write event)

  -- The pages of [bytes_start, bytes_end).
  unfoldable pub insert_event : ℕ → BlkTraceEvent → List ℕ → List ℕ
  insert_event page_size event set =
      let bytes_start = event.sector * 512 in
      let bytes_end = bytes_start + event.bytes in
      let start = bytes_start / page_size in
      if counts event then insert_range (div_ceil bytes_end page_size - start) start set else set

  unfoldable pub touched_from : ℕ → List BlkTraceEvent → List ℕ → List ℕ
  touched_from page_size [] set = set
  touched_from page_size (event ∷ events) set =
      touched_from page_size events (insert_event page_size event set)

  -- `rw_positions`.
  unfoldable pub rw_positions : ℕ → List BlkTraceEvent → List ℕ
  rw_positions page_size events = touched_from page_size events []

  -- What mkfs and blkid do to the dummy device, recorded; the tracer is dropped by `shutdown`.
  unfoldable pub record_mkfs : String → MakeFsType → Program (List BlkTraceEvent)
  record_mkfs dummy fs_type = do
    call (Op.trace_start dummy) from_attempt
    with_drop
        (do
          normal_mkfs dummy fs_type
          stdout ← run_command "blkid" ("-p" ∷ dummy ∷ [])
          call (Op.trace_finish dummy) from_attempt)
        (call (Op.trace_stop dummy) from_attempt)

  -- `IntegrityNoWipeMakeFs::force_mkfs`, once the dummy device is there.
  unfoldable pub replay_mkfs : String → String → MakeFsType → Program (Unit {0})
  replay_mkfs dummy dev fs_type = do
    events ← record_mkfs dummy fs_type
    page_size ← call Op.page_size from_attempt
    migrate dummy dev page_size (rw_positions page_size events)

  unfoldable pub integrity_mkfs : String → MakeFsType → Program (Unit {0})
  integrity_mkfs dev fs_type = do
    call (Op.open_device dev) from_attempt
    size ← call (Op.device_size dev) from_attempt
    block_size ← call (Op.device_block_size dev) from_attempt
    dummy ← setup_on_tmpfs_with_block_size size block_size
    with_drop (replay_mkfs dummy dev fs_type) (call (Op.detach_dummy dummy) from_attempt)

  unfoldable pub force_mkfs : String → MakeFsType → IntegrityType → Program (Unit {0})
  force_mkfs dev fs_type no_integrity = normal_mkfs dev fs_type
  force_mkfs dev fs_type journal = integrity_mkfs dev fs_type
  force_mkfs dev fs_type no_journal = integrity_mkfs dev fs_type

abbrev pub expected_str : MakeFsType → String
expected_str swap = "swap"
expected_str ext4 = "ext4"
expected_str xfs = "xfs"
expected_str vfat = "vfat"

-- The `match` of `has_valuable_data`.
abbrev pub judge : BlkidProbeResult → Option MakeFsType → Program Bool
judge no_signatures hint = ret false
judge (known_signature fs_type pt_type subsystem) none = ret true
judge (known_signature none pt_type subsystem) (some expected) = fail Problem.other_signature
judge (known_signature (some fs_type) pt_type subsystem) (some expected) =
    if bytes_eq fs_type (codes (expected_str expected))
    then ret true
    else fail Problem.other_signature

unfoldable pub has_valuable_data : String → Option MakeFsType → Program Bool
has_valuable_data dev hint = probe_device dev >>= λ probe. judge probe hint
