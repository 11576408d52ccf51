-- ===== src/CryptpilotFde/BootService/BeforeSysroot/Calls.antt =====
-- The calls of the stage before the mount of /sysroot that touch no header of LUKS2
-- (cryptpilot-fde/src/cmd/boot_service/stage/before_sysroot.rs).
use Prim.Native.String.{String}
use cryptpilot.Prelude.{ℕ, Bool, true, false, ◌||◌, Option, none, some, List, [], ◌∷◌, ◌==◌}
use cryptpilot.Prelude.Text.{codes}
use cryptpilot.CryptpilotCore.Types.{IntegrityType, ext4}
use cryptpilot.CryptpilotCore.Program.{Problem, Program, ret, fail, ◌>>=◌, attempt}
use cryptpilot.CryptpilotCore.Program.Uses.{
  Uses, >>=-Uses, attempt-Uses, from_attempt-Uses, if-Uses, ensure-Uses,
}
use cryptpilot.CryptpilotCore.Cmd.{run_command, ensure_module_loaded}
use cryptpilot.CryptpilotCore.Calls.{
  run_with_status_checker-Uses, run_command-Uses, ensure_module_loaded-Uses, probe_device-Uses,
  tried-Uses,
}
use cryptpilot.CryptpilotCore.Blkid.{
  BlkidProbeResult, no_signatures, known_signature, is_dm_snapshot_cow, probe_device,
}
use cryptpilot.CryptpilotCore.Mkfs.{TraceApi}
use cryptpilot.CryptpilotCore.Mkfs.Calls.{Unmarked, asked-Uses, force_mkfs-Uses}
use cryptpilot.CryptpilotFde.Config.{DeltaLocation, DeltaBackend, overlayfs, dm_snapshot}
use cryptpilot.CryptpilotFde.BootService.Metadata.{or_fail}
use cryptpilot.CryptpilotFde.BootService.Snapshot.{
  wipe_cow_device_header, get_device_size_bytes, prepare_probed, prepare_cow,
  setup_dm_snapshot_device_chain, mem_total, trim_end, parse_u64, create_zram_cow_device,
}
use cryptpilot.CryptpilotFde.BootService.BeforeSysroot.{
  delta_logical_volume, delta_device, rootfs_device, expand_system_delta_lv, create_delta_lv,
  delta_volume_by, ensure_delta_volume_exist_and_expanded, expand_system_pv_partition,
  resize_ext4_filesystem, setup_delta_content, is_persist, setup_ram_delta,
}

-- A program whose output is not read.
run-Uses :
    {A : Type 0} (program : String) (args : List String) (k : List ℕ → Program A)
    → ((stdout : List ℕ) → Uses Unmarked (k stdout))
    → Uses Unmarked (run_command program args >>= k)
run-Uses program args k =
    >>=-Uses Unmarked (run_command program args) k (run_command-Uses Unmarked program args tt)

module-Uses :
    {A : Type 0} (name : String) (k : Unit {0} → Program A)
    → Uses Unmarked (k tt)
    → Uses Unmarked (ensure_module_loaded name [] >>= k)
module-Uses name k h =
    >>=-Uses Unmarked (ensure_module_loaded name []) k
      (ensure_module_loaded-Uses Unmarked (λ path. tt) (λ args. tt) name []) (λ u. h)

wipe-Uses : (dev : String) → Uses Unmarked (wipe_cow_device_header dev)
unfolding wipe_cow_device_header
wipe-Uses dev = (
  tt,
  λ r. tried-Uses Unmarked r _ (tt, λ q. tried-Uses Unmarked q _ (tt, from_attempt-Uses Unmarked)),
)

size-Uses : (dev : String) → Uses Unmarked (get_device_size_bytes dev)
unfolding get_device_size_bytes
size-Uses dev = (tt, λ r. tried-Uses Unmarked r _ (tt, from_attempt-Uses Unmarked))

prepare_probed-Uses :
    (cow : String) (probe : BlkidProbeResult) → Uses Unmarked (prepare_probed cow probe)
unfolding prepare_probed
prepare_probed-Uses cow no_signatures = wipe-Uses cow
prepare_probed-Uses cow (known_signature fs_type pt_type subsystem) =
    if-Uses Unmarked (is_dm_snapshot_cow (known_signature fs_type pt_type subsystem)) (ret tt)
      (fail Problem.valuable_data) tt tt

prepare_cow-Uses : (cow : String) (persistent : Bool) → Uses Unmarked (prepare_cow cow persistent)
unfolding prepare_cow
prepare_cow-Uses cow true =
    >>=-Uses Unmarked (probe_device cow) (prepare_probed cow) (probe_device-Uses Unmarked cow tt)
      (prepare_probed-Uses cow)
prepare_cow-Uses cow false = wipe-Uses cow

chain-Uses :
    (rootfs cow : String) (persistent : Bool)
    → Uses Unmarked (setup_dm_snapshot_device_chain rootfs cow persistent)
unfolding setup_dm_snapshot_device_chain
chain-Uses rootfs cow persistent = module-Uses "dm-snapshot" _ (
    module-Uses "dm-zero" _ (
      >>=-Uses Unmarked (get_device_size_bytes rootfs) _ (size-Uses rootfs) (λ verity_bytes.
        >>=-Uses Unmarked (get_device_size_bytes cow) _ (size-Uses cow) (λ cow_bytes.
          run-Uses "dmsetup" _ _ (λ extended.
            >>=-Uses Unmarked (prepare_cow cow persistent) _ (prepare_cow-Uses cow persistent)
              (λ u. run-Uses "dmsetup" _ _ (λ snapshot. tt)))))))

or_fail-Uses :
    {A B : Type 0} (o : Option A) (p : Problem) (k : A → Program B)
    → ((a : A) → Uses Unmarked (k a))
    → Uses Unmarked (or_fail o p >>= k)
or_fail-Uses none p k h = tt
or_fail-Uses (some a) p k h = h a

resize-Uses : (dev : String) → Uses Unmarked (resize_ext4_filesystem dev)
unfolding resize_ext4_filesystem
resize-Uses dev = run-Uses "tune2fs" _ _ (λ cleared. run-Uses "resize2fs" _ _ (λ resized. tt))

zram-Uses : Uses Unmarked create_zram_cow_device
unfolding create_zram_cow_device
zram-Uses = module-Uses "zram" _ (
  tt,
  λ r. asked-Uses r _ (λ info.
      or_fail-Uses (mem_total (codes info)) Problem.no_mem_total _ (λ mem_total_kb. (
        tt,
        λ q. asked-Uses q _ (λ added.
            or_fail-Uses (parse_u64 (trim_end (codes added))) Problem.bad_zram_number _
              (λ zram_id. (tt, λ w. tried-Uses Unmarked w _ tt))),
      ))),
)

pub ensure_delta-Uses : Uses Unmarked ensure_delta_volume_exist_and_expanded
unfolding ensure_delta_volume_exist_and_expanded delta_volume_by create_delta_lv
    expand_system_delta_lv
ensure_delta-Uses = (tt, by_exists)
  where
    by_exists : (exists : Bool) → Uses Unmarked (delta_volume_by exists)
    by_exists true =
        >>=-Uses Unmarked (attempt expand_system_delta_lv) _
          (attempt-Uses Unmarked expand_system_delta_lv (
            run_with_status_checker-Uses Unmarked "lvextend"
              ("-l" ∷ "+100%FREE" ∷ delta_logical_volume ∷ []) _ tt
              (λ code out. ensure-Uses Unmarked (code == 0 || code == 5) Problem.bad_exit_code)))
          (λ res. tt)
    by_exists false =
        run-Uses "lvcreate" _ _
          (λ stdout. (tt, λ r. tried-Uses Unmarked r _ (tt, from_attempt-Uses Unmarked)))

module _ (api : TraceApi) (expand_script : String) where
  pub expand-Uses : Uses Unmarked (expand_system_pv_partition api expand_script)
  unfolding expand_system_pv_partition
  expand-Uses =
      >>=-Uses Unmarked (attempt (run_command "bash" _)) _
        (attempt-Uses Unmarked (run_command "bash" _) (run_command-Uses Unmarked "bash" _ tt))
        (λ res. tt)

  pub setup_delta_content-Uses :
      (backend : DeltaBackend) (verity : String) (location : DeltaLocation) (recreate : Bool)
      (integrity : IntegrityType)
      → Uses Unmarked
          (setup_delta_content api expand_script backend verity location recreate integrity)
  unfolding setup_delta_content
  setup_delta_content-Uses overlayfs verity location true kind =
      force_mkfs-Uses api delta_device ext4 kind
  setup_delta_content-Uses overlayfs verity location false kind = resize-Uses delta_device
  setup_delta_content-Uses dm_snapshot verity location recreate kind =
      >>=-Uses Unmarked (setup_dm_snapshot_device_chain verity delta_device (is_persist location)) _
        (chain-Uses verity delta_device (is_persist location)) (λ u. resize-Uses rootfs_device)

  pub setup_ram_delta-Uses :
      (backend : DeltaBackend) → Uses Unmarked (setup_ram_delta api expand_script backend)
  unfolding setup_ram_delta
  setup_ram_delta-Uses overlayfs = tt
  setup_ram_delta-Uses dm_snapshot = >>=-Uses Unmarked create_zram_cow_device _ zram-Uses (λ cow.
      >>=-Uses Unmarked (setup_dm_snapshot_device_chain _ cow false) _ (chain-Uses _ cow false)
        (λ u. resize-Uses rootfs_device))
