-- ===== src/CryptpilotFde/BootService/AfterSysroot.antt =====
-- cryptpilot-fde/src/cmd/boot_service/stage/after_sysroot.rs: the mounts over /sysroot.
pub mod Table
pub mod Mounts
pub mod Overlay
use Prim.Native.String.{String, ◌++◌ as ◌<>◌}
use cryptpilot.Prelude.{
  ℕ, Bool, true, false, Option, none, some, List, [], ◌∷◌, ◌==◌, if◌then◌else◌, bytes_eq, not,
}
use cryptpilot.Prelude.Text.{codes, lines, split_at}
use cryptpilot.CryptpilotCore.System.{Op}
use cryptpilot.CryptpilotCore.Program.{
  Problem, End, ok, err, crashed, Program, ret, fail, crash, call, ◌>>=◌, ◌>>◌, from_attempt,
  attempt, ensure,
}
use cryptpilot.CryptpilotCore.Cmd.{run_command, ensure_module_loaded}
use cryptpilot.CryptpilotFde.Config.{
  DeltaLocation, disk, disk_persist, ram, DeltaBackend, overlayfs, dm_snapshot, FdeConfig,
  location_of, backend_of,
}
use cryptpilot.CryptpilotFde.BootService.BeforeSysroot.{rootfs_device, delta_device}

-- The first two fields of a line of the table of mounts.
abbrev pub mounted_at : List (List ℕ) → List ℕ → Option (List ℕ)
mounted_at [] target = none
mounted_at (device ∷ []) target = none
mounted_at (device ∷ place ∷ fields) target = if bytes_eq place target then some device else none

-- The loop over the lines: the device of the first one that is mounted at /sysroot.
abbrev pub sysroot_device : List (List ℕ) → Option (List ℕ)
sysroot_device [] = none
sysroot_device (line ∷ rest) =
    let later = sysroot_device rest in
    elim (mounted_at (split_at b' ' line) (codes "/sysroot")) [
      | some device ↦ some device
      | none ↦ later
    ]

abbrev pub judge_sysroot : Option (List ℕ) → Program (Unit {0})
judge_sysroot none = fail Problem.no_sysroot
judge_sysroot (some device) =
    ensure (bytes_eq device (codes rootfs_device)) Problem.unexpected_sysroot

unfoldable pub check_sysroot : Program (Unit {0})
check_sysroot = do
  mtab ← call (Op.read_to_string "/etc/mtab") from_attempt
  judge_sysroot (sysroot_device (lines (codes mtab)))

abbrev pub mount : List String → Program (Unit {0})
mount args = run_command "mount" args >>= λ stdout. ret tt

abbrev pub create_dir_all : String → Program (Unit {0})
create_dir_all path = call (Op.create_dir_all path) from_attempt

abbrev pub lowerdir_options : String → String
lowerdir_options base =
    "lowerdir=/sysroot,upperdir=" <> base <> "/upper,workdir=" <> base <> "/work"

abbrev pub mount_overlay : String → Program (Unit {0})
mount_overlay base =
    mount ("-t" ∷ "overlay" ∷ rootfs_device ∷ "-o" ∷ lowerdir_options base ∷ "/sysroot" ∷ [])

-- The directories of the overlay, and the overlay: the path of what lies over the rootfs.
unfoldable pub setup_overlay : DeltaLocation → Program String
setup_overlay ram = do
  create_dir_all "/ram_overlay"
  mount ("tmpfs" ∷ "-t" ∷ "tmpfs" ∷ "/ram_overlay" ∷ [])
  create_dir_all "/ram_overlay/upper"
  create_dir_all "/ram_overlay/work"
  mount_overlay "/ram_overlay"
  ret "/ram_overlay"
setup_overlay other = do
  create_dir_all "/delta_volume/overlay/upper"
  create_dir_all "/delta_volume/overlay/work"
  mount_overlay "/delta_volume/overlay"
  ret "/delta_volume/overlay"

-- A directory that is there already, or is made. `bail!` if it is something else.
unfoldable pub ready_dir : String → Program (Unit {0}) → Program (Unit {0})
ready_dir path make = call (Op.path_exists path) λ exists.
    if exists then call (Op.is_dir path) (λ is_dir. ensure is_dir Problem.not_a_directory) else make

-- The error of the copy, after the directory is removed again.
abbrev pub copied : String → End (List ℕ) → Program (Unit {0})
copied origin (ok stdout) = ret tt
copied origin (err e) = call (Op.remove_dir_all origin) λ r. fail e
copied origin crashed = crash

unfoldable pub copy_origin : String → String → Program (Unit {0})
copy_origin dir origin = do
  create_dir_all origin
  exists ← call (Op.path_exists ("/sysroot_bak/./" <> dir)) ret
  if exists
      then attempt (run_command "cp" ("-a" ∷ ("/sysroot_bak/./" <> dir <> ".") ∷ origin ∷ []))
        >>= copied origin
      else ret tt

-- The task for one directory.
unfoldable pub mount_bind : String → String → Program (Unit {0})
mount_bind overlay_dir dir = do
  let target = "/sysroot/./" <> dir
  let origin = overlay_dir <> "/mount-binds/./" <> dir
  ready_dir target (create_dir_all target)
  ready_dir origin (copy_origin dir origin)
  mount ("--bind" ∷ origin ∷ target ∷ [])

-- The loop over the directories: an error is logged.
unfoldable pub mount_binds : String → List String → Program (Unit {0})
mount_binds overlay_dir [] = ret tt
mount_binds overlay_dir (dir ∷ dirs) =
    attempt (mount_bind overlay_dir dir) >>= λ res. mount_binds overlay_dir dirs

abbrev pub bound_dirs : List String
bound_dirs =
    "/var/lib/containerd/io.containerd.snapshotter.v1.overlayfs/snapshots/" ∷ "/var/lib/containers/"
    ∷ "/var/lib/docker/" ∷ []

unfoldable pub setup_overlayfs_mounts : DeltaLocation → Program (Unit {0})
setup_overlayfs_mounts location = do
  create_dir_all "/delta_volume"
  mount (delta_device ∷ "/delta_volume" ∷ [])
  create_dir_all "/sysroot_bak"
  mount ("--bind" ∷ "/sysroot" ∷ "/sysroot_bak" ∷ "--make-private" ∷ [])
  ensure_module_loaded "overlay" []
  overlay_dir ← setup_overlay location
  mount_binds overlay_dir bound_dirs

abbrev pub mounts_by : DeltaBackend → DeltaLocation → Program (Unit {0})
mounts_by overlayfs location = setup_overlayfs_mounts location
mounts_by dm_snapshot location = ret tt

unfoldable pub setup_mounts_required_by_fde : Option FdeConfig → Program (Unit {0})
setup_mounts_required_by_fde none = ret tt
setup_mounts_required_by_fde (some config) = do
  check_sysroot
  mounts_by (backend_of config.rootfs.delta_backend) (location_of config.rootfs.delta_location)
