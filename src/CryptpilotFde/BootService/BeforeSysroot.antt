-- ===== src/CryptpilotFde/BootService/BeforeSysroot.antt =====
-- cryptpilot-fde/src/cmd/boot_service/stage/before_sysroot.rs: the volumes that the root file system
-- needs. The configuration is an argument, as is the script that expands the partition; the environment
-- variables of commands are left out.
pub mod Guard
pub mod Calls
pub mod Verified
pub mod Delta
pub mod Whole
use Prim.Native.String.{String}
use cryptpilot.Prelude.{
  ℕ, Bool, true, false, ◌||◌, not, Option, none, some, List, [], ◌∷◌, ◌==◌, if◌then◌else◌,
}
use cryptpilot.CryptpilotCore.Types.{
  Passphrase, IntegrityType, no_integrity, journal, ext4, VolumeType, temporary, persistent,
  KeyProviderConfig,
}
use cryptpilot.CryptpilotCore.System.{Op, Output}
use cryptpilot.CryptpilotCore.Program.{
  Problem, End, Program, ret, fail, call, ◌>>=◌, ◌>>◌, from_attempt, attempt, ensure,
}
use cryptpilot.CryptpilotCore.Cmd.{run_with_status_checker, run_command, ensure_module_loaded}
use cryptpilot.CryptpilotCore.Provider.{volume_type, get_key}
use cryptpilot.CryptpilotCore.Luks2.{
  is_initialized, format, open_with_check_passphrase, mark_volume_as_initialized,
}
use cryptpilot.CryptpilotCore.Mkfs.{TraceApi, force_mkfs}
use cryptpilot.CryptpilotFde.Config.{
  DeltaLocation, disk, disk_persist, ram, DeltaBackend, overlayfs, dm_snapshot, RootFsConfig,
  DeltaConfig, FdeConfig, location_of, backend_of,
}
use cryptpilot.CryptpilotFde.BootService.Metadata.{
  Metadata, Formats, metadata_path_in_initrd, load_metadata_from_file,
}
use cryptpilot.CryptpilotFde.BootService.Snapshot.{
  rootfs_name, zeros, setup_dm_snapshot_device_chain, create_zram_cow_device,
}

abbrev pub volume_group_name : String
volume_group_name = "cryptpilot"

abbrev pub rootfs_logical_volume : String
rootfs_logical_volume = "/dev/mapper/cryptpilot-rootfs"

abbrev pub rootfs_hash_logical_volume : String
rootfs_hash_logical_volume = "/dev/mapper/cryptpilot-rootfs_hash"

abbrev pub delta_logical_volume : String
delta_logical_volume = "/dev/mapper/cryptpilot-delta"

abbrev pub rootfs_device : String
rootfs_device = "/dev/mapper/rootfs"

abbrev pub rootfs_decrypted_name : String
rootfs_decrypted_name = "rootfs_decrypted"

abbrev pub rootfs_decrypted_layer_device : String
rootfs_decrypted_layer_device = "/dev/mapper/rootfs_decrypted"

abbrev pub delta_name : String
delta_name = "delta"

abbrev pub delta_device : String
delta_device = "/dev/mapper/delta"

-- The output of dm-verity, by the back end: its name and its device.
abbrev pub verity_output : DeltaBackend → String × String
verity_output overlayfs = ("rootfs", "/dev/mapper/rootfs")
verity_output dm_snapshot = ("rootfs_verity", "/dev/mapper/rootfs_verity")

abbrev pub lower_device : Option KeyProviderConfig → String
lower_device none = rootfs_logical_volume
lower_device (some provider) = rootfs_decrypted_layer_device

unfoldable pub setup_rootfs_dm_verity : String → String → String → Program (Unit {0})
setup_rootfs_dm_verity name root_hash lower = do
  ensure_module_loaded "dm-verity" []
  stdout ←
      run_command "veritysetup"
        ("open" ∷ lower ∷ name ∷ rootfs_hash_logical_volume ∷ root_hash ∷ [])
  ret tt

abbrev pub not_temporary : VolumeType → Program (Unit {0})
not_temporary temporary = fail Problem.temporary_rootfs
not_temporary persistent = ret tt

-- The third step: the dm-crypt below the rootfs, if it is encrypted.
unfoldable pub setup_rootfs_crypt : Option KeyProviderConfig → Program (Unit {0})
setup_rootfs_crypt none = ret tt
setup_rootfs_crypt (some provider) = do
  not_temporary (volume_type provider)
  passphrase ← get_key provider
  open_with_check_passphrase rootfs_decrypted_name rootfs_logical_volume passphrase no_integrity

-- `lvextend`: 5 says that there is nothing to extend.
unfoldable pub expand_system_delta_lv : Program (Unit {0})
expand_system_delta_lv =
    run_with_status_checker "lvextend" ("-l" ∷ "+100%FREE" ∷ delta_logical_volume ∷ [])
      (λ code out. ensure (code == 0 || code == 5) Problem.bad_exit_code)

unfoldable pub create_delta_lv : Program (Unit {0})
create_delta_lv = do
  stdout ←
      run_command "lvcreate"
        ("-n" ∷ delta_name ∷ "--zero" ∷ "n" ∷ "-l" ∷ "100%FREE" ∷ "cryptpilot" ∷ [])
  call (Op.open_device delta_logical_volume) from_attempt
  call (Op.write_page delta_logical_volume 0 zeros) from_attempt

unfoldable pub delta_volume_by : Bool → Program (Unit {0})
delta_volume_by true = attempt expand_system_delta_lv >>= λ res. ret tt
delta_volume_by false = create_delta_lv

unfoldable pub ensure_delta_volume_exist_and_expanded : Program (Unit {0})
ensure_delta_volume_exist_and_expanded = call (Op.path_exists delta_logical_volume) delta_volume_by

abbrev pub delta_integrity : Bool → IntegrityType
delta_integrity true = journal
delta_integrity false = no_integrity

abbrev pub is_disk : DeltaLocation → Bool
is_disk disk = true
is_disk disk_persist = false
is_disk ram = false

abbrev pub is_persist : DeltaLocation → Bool
is_persist disk = false
is_persist disk_persist = true
is_persist ram = false

-- Whether the content of the delta volume is created anew.
unfoldable pub decide_recreate : VolumeType → DeltaLocation → Program Bool
decide_recreate temporary location = ret true
decide_recreate persistent location =
    is_initialized delta_logical_volume >>= λ initialized. ret (not initialized || is_disk location)

unfoldable pub format_if : Bool → Passphrase → IntegrityType → Program (Unit {0})
format_if true passphrase kind = format delta_logical_volume passphrase kind
format_if false passphrase kind = ret tt

unfoldable pub setup_delta_volume_luks2 :
    DeltaConfig → DeltaLocation → Program (Bool × IntegrityType)
setup_delta_volume_luks2 config location = do
  passphrase ← get_key config.encrypt
  let integrity = delta_integrity config.integrity
  recreate ← decide_recreate (volume_type config.encrypt) location
  format_if recreate passphrase integrity
  open_with_check_passphrase delta_name delta_logical_volume passphrase integrity
  ret (recreate, integrity)

unfoldable pub resize_ext4_filesystem : String → Program (Unit {0})
resize_ext4_filesystem dev = do
  cleared ← run_command "tune2fs" ("-O" ∷ "^read-only" ∷ dev ∷ [])
  resized ← run_command "resize2fs" (dev ∷ [])
  ret tt

unfoldable pub mark_if : Bool → Program (Unit {0})
mark_if true = mark_volume_as_initialized delta_logical_volume
mark_if false = ret tt

module _ (api : TraceApi) (expand_script : String) where
  -- A failure is logged.
  unfoldable pub expand_system_pv_partition : Program (Unit {0})
  expand_system_pv_partition =
      attempt (run_command "bash" ("-c" ∷ expand_script ∷ [])) >>= λ res. ret tt

  unfoldable pub setup_delta_content :
      DeltaBackend → String → DeltaLocation → Bool → IntegrityType → Program (Unit {0})
  setup_delta_content overlayfs verity location true kind = force_mkfs api delta_device ext4 kind
  setup_delta_content overlayfs verity location false kind = resize_ext4_filesystem delta_device
  setup_delta_content dm_snapshot verity location recreate kind = do
    setup_dm_snapshot_device_chain verity delta_device (is_persist location)
    resize_ext4_filesystem rootfs_device

  -- The fourth step for a delta volume on the disk.
  unfoldable pub setup_disk_delta : DeltaConfig → DeltaBackend → DeltaLocation → Program (Unit {0})
  setup_disk_delta config backend location = do
    expand_system_pv_partition
    ensure_delta_volume_exist_and_expanded
    made ← setup_delta_volume_luks2 config location
    setup_delta_content backend (verity_output backend).1 location made.0 made.1
    mark_if made.0

  -- The fourth step for a delta in memory.
  unfoldable pub setup_ram_delta : DeltaBackend → Program (Unit {0})
  setup_ram_delta overlayfs = ret tt
  setup_ram_delta dm_snapshot = do
    cow ← create_zram_cow_device
    setup_dm_snapshot_device_chain (verity_output dm_snapshot).1 cow false
    resize_ext4_filesystem rootfs_device

  unfoldable pub setup_delta : DeltaConfig → DeltaBackend → DeltaLocation → Program (Unit {0})
  setup_delta config backend disk = setup_disk_delta config backend disk
  setup_delta config backend disk_persist = setup_disk_delta config backend disk_persist
  setup_delta config backend ram = setup_ram_delta backend

  -- The steps for a system that is configured.
  unfoldable pub setup_configured : Formats → FdeConfig → Program (Unit {0})
  setup_configured t config = do
    ensure_module_loaded "dm_mod" []
    stdout ← run_command "vgchange" ("-a" ∷ "y" ∷ volume_group_name ∷ [])
    metadata ← load_metadata_from_file t metadata_path_in_initrd
    ensure (metadata.version == 1) Problem.unsupported_metadata
    setup_rootfs_crypt config.rootfs.encrypt
    setup_rootfs_dm_verity (verity_output (backend_of config.rootfs.delta_backend)).0
        metadata.root_hash (lower_device config.rootfs.encrypt)
    setup_delta config.delta (backend_of config.rootfs.delta_backend)
        (location_of config.rootfs.delta_location)

  unfoldable pub setup_volumes_required_by_fde : Formats → Option FdeConfig → Program (Unit {0})
  setup_volumes_required_by_fde t none = ret tt
  setup_volumes_required_by_fde t (some config) = setup_configured t config
