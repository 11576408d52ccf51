-- ===== src/CryptpilotFde/BootService/AfterSysroot/Overlay.antt =====
-- `setup_mounts_required_by_fde` of cryptpilot-fde/src/cmd/boot_service/stage/after_sysroot.rs.
use Prim.Native.String.{String}
use text.Mathlib.TextPositions.{eq_refl}
use cryptpilot.Prelude.{
  ℕ, Bool, true, false, ◌&&◌, Option, none, some, List, [], ◌∷◌, ◌≡◌, refl, ap, ◌∙◌, sym, subst,
  bytes_eq, bytes_eq→eq, if◌then◌else◌,
}
use cryptpilot.Prelude.Text.{codes, lines}
use cryptpilot.CryptpilotCore.System.{Op, Attempt, good, bad}
use cryptpilot.CryptpilotCore.Program.{Problem, Program, ◌>>=◌, from_attempt, ensure}
use cryptpilot.CryptpilotCore.Program.Safety.{Safe}
use cryptpilot.CryptpilotCore.Program.Uses.{Uses, >>=-Uses, from_attempt-Uses}
use cryptpilot.CryptpilotCore.Program.Gets.{Gets, >>=-Gets}
use cryptpilot.CryptpilotCore.Cmd.{ensure_module_loaded}
use cryptpilot.CryptpilotCore.Calls.{ensure_module_loaded-Uses, tried-Uses}
use cryptpilot.CryptpilotCore.Cmd.Answers.{succeeded, raised, run_silently-Gets}
use cryptpilot.CryptpilotFde.Config.{DeltaLocation, overlayfs, FdeConfig, location_of, backend_of}
use cryptpilot.CryptpilotFde.BootService.BeforeSysroot.{rootfs_device, delta_device}
use cryptpilot.CryptpilotFde.BootService.BeforeSysroot.Guard.{texts_eq, texts_eq_refl}
use cryptpilot.CryptpilotFde.BootService.AfterSysroot.{
  sysroot_device, judge_sysroot, check_sysroot, mount, create_dir_all, setup_overlay, mount_binds,
  bound_dirs, setup_overlayfs_mounts, mounts_by, setup_mounts_required_by_fde,
}
use cryptpilot.CryptpilotFde.BootService.AfterSysroot.Table.{First, sysroot_device-First}
use cryptpilot.CryptpilotFde.BootService.AfterSysroot.Mounts.{
  Mounts, unmounted, mounts_delta, follow, Later, Free, Checked, Both, Runs, sysroot_first,
  Checked-then, Both-last, overlay-Uses, binds-Uses, mount-Uses,
}

-- The check of /sysroot.
judge-Gets :
    (v : Mounts) (o : Option (List ℕ))
    → ((device : List ℕ) → o ≡ some device → device ≡ codes "/dev/mapper/rootfs" → Checked v)
    → Runs (λ w u. Checked w) v (judge_sysroot o)
judge-Gets v none h = tt
judge-Gets v (some device) h =
    by_test (bytes_eq device (codes rootfs_device))
      (λ e. h device refl (bytes_eq→eq device (codes "/dev/mapper/rootfs") e))
  where
    by_test :
        (b : Bool)
        → (b ≡ true → Checked v)
        → Runs (λ w u. Checked w) v (ensure b Problem.unexpected_sysroot)
    by_test true h = h refl
    by_test false h = tt

check-Gets : Runs (λ v u. Checked v) unmounted check_sysroot
unfolding check_sysroot
check-Gets = (tt, by_answer)
  where
    by_answer :
        (r : Attempt String)
        → Runs
            (λ v u. Checked v)
            (follow unmounted (Op.read_to_string "/etc/mtab") r)
            (from_attempt r >>= (λ mtab. judge_sysroot (sysroot_device (lines (codes mtab)))))
    by_answer (good mtab) = judge-Gets _ (sysroot_device (lines (codes mtab))) (λ device found same.
        (
          mtab,
          ap (λ (b : Bool). if b then some mtab else none) (eq_refl "/etc/mtab"),
          subst (λ (d : List ℕ). First (codes "/sysroot") d (lines (codes mtab))) same
              (sysroot_device-First (lines (codes mtab)) device found),
        ))
    by_answer (bad e) = tt

-- The mount of the delta volume.
delta_args : mounts_delta "mount" (delta_device ∷ "/delta_volume" ∷ []) ≡ true
delta_args =
    ap
      (λ b.
        b && texts_eq (delta_device ∷ "/delta_volume" ∷ []) (delta_device ∷ "/delta_volume" ∷ []))
      (eq_refl "mount")
    ∙ texts_eq_refl (delta_device ∷ "/delta_volume" ∷ [])

delta-Gets :
    (s : Mounts) → Checked s → Runs (λ v u. Both v) s (mount (delta_device ∷ "/delta_volume" ∷ []))
delta-Gets s h =
    run_silently-Gets sysroot_first Free Both s "mount" (delta_device ∷ "/delta_volume" ∷ []) h
      (λ r. tt)
      (λ r done. (
        h,
        raised s.delta (mounts_delta "mount" (delta_device ∷ "/delta_volume" ∷ [])) (succeeded r)
            delta_args done,
      ))

-- What follows the mount of the delta volume.
abbrev rest : DeltaLocation → Program (Unit {0})
rest location = create_dir_all "/sysroot_bak" >>= λ a.
    (mount ("--bind" ∷ "/sysroot" ∷ "/sysroot_bak" ∷ "--make-private" ∷ []) >>= λ b.
    (ensure_module_loaded "overlay" [] >>= λ c.
    (setup_overlay location >>= λ overlay_dir. mount_binds overlay_dir bound_dirs)))

rest-Uses : (location : DeltaLocation) → Uses Later (rest location)
rest-Uses location = (
  tt,
  λ r. tried-Uses Later r _ (
      >>=-Uses Later (mount ("--bind" ∷ "/sysroot" ∷ "/sysroot_bak" ∷ "--make-private" ∷ [])) _
        (mount-Uses ("--bind" ∷ "/sysroot" ∷ "/sysroot_bak" ∷ "--make-private" ∷ []))
        (λ b.
          >>=-Uses Later (ensure_module_loaded "overlay" []) _
            (ensure_module_loaded-Uses Later (λ path. tt) (λ args. tt) "overlay" [])
            (λ c.
              >>=-Uses Later (setup_overlay location) _ (overlay-Uses location)
                (λ overlay_dir. binds-Uses overlay_dir bound_dirs)))),
)

overlayfs-Gets :
    (s : Mounts) (location : DeltaLocation)
    → Checked s
    → Runs (λ v u. Both v) s (setup_overlayfs_mounts location)
unfolding setup_overlayfs_mounts
overlayfs-Gets s location h =
    Checked-then (λ v u. Both v) s (create_dir_all "/delta_volume") _ (tt, from_attempt-Uses Later)
      h
      (λ v u k.
        >>=-Gets sysroot_first Free (λ w u. Both w) (λ w u. Both w) v
          (mount (delta_device ∷ "/delta_volume" ∷ [])) _ (delta-Gets v k)
          (λ w u both. Both-last w (rest location) (rest-Uses location) both))

-- With the back end overlayfs, in every run of the stage after the mount of /sysroot no directory is
-- made and no program is run before /etc/mtab was read and its first line that has /sysroot as its
-- second word has /dev/mapper/rootfs as its first one; and a run that ends well has mounted
-- /dev/mapper/delta at /delta_volume, whatever the location of the delta is, memory included.
pub setup_mounts_required_by_fde-Checked :
    (config : FdeConfig)
    → backend_of config.rootfs.delta_backend ≡ overlayfs
    → Safe sysroot_first
        (Gets (λ s. Unit {0}) (λ s u. Checked s × (s.delta ≡ true)))
        unmounted
        (setup_mounts_required_by_fde (some config))
unfolding setup_mounts_required_by_fde
setup_mounts_required_by_fde-Checked config chosen =
    >>=-Gets sysroot_first Free (λ v u. Checked v) (λ v u. Both v) unmounted check_sysroot _
      check-Gets
      (λ v u checked.
        subst (λ b. Runs (λ w u. Both w) v (mounts_by b (location_of config.rootfs.delta_location)))
          (sym chosen) (overlayfs-Gets v (location_of config.rootfs.delta_location) checked))
