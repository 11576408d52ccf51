-- ===== src/CryptpilotFde/BootService/BeforeSysroot/Whole.antt =====
-- `setup_volumes_required_by_fde` of cryptpilot-fde/src/cmd/boot_service/stage/before_sysroot.rs.
use Prim.Native.String.{String}
use cryptpilot.Prelude.{◌≡◌, refl, some, [], ◌∷◌, true, ◌==◌}
use cryptpilot.CryptpilotCore.Program.{Problem}
use cryptpilot.CryptpilotCore.Program.Safety.{Safe}
use cryptpilot.CryptpilotCore.Program.Gets.{Gets, >>=-Gets, ensure-Gets}
use cryptpilot.CryptpilotCore.Cmd.{run_command, ensure_module_loaded}
use cryptpilot.CryptpilotCore.Calls.{run_command-Uses}
use cryptpilot.CryptpilotCore.Mkfs.{TraceApi}
use cryptpilot.CryptpilotFde.Config.{
  DeltaLocation, disk, disk_persist, ram, FdeConfig, location_of, backend_of,
}
use cryptpilot.CryptpilotFde.BootService.Metadata.{
  Formats, metadata_path_in_initrd, load_metadata_from_file,
}
use cryptpilot.CryptpilotFde.BootService.BeforeSysroot.{
  verity_output, lower_device, setup_rootfs_dm_verity, setup_rootfs_crypt, setup_ram_delta,
  setup_delta, setup_configured, setup_volumes_required_by_fde,
}
use cryptpilot.CryptpilotFde.BootService.BeforeSysroot.Guard.{Boot, power_on, boot_guard}
use cryptpilot.CryptpilotFde.BootService.BeforeSysroot.Calls.{setup_ram_delta-Uses}
use cryptpilot.CryptpilotFde.BootService.BeforeSysroot.Verified.{
  Verified, Free, Early, Runs, HasRoot, Verified-last, first_then, Early-then, load_metadata-Gets,
  verity-Gets, crypt-Early, modules-Early,
}
use cryptpilot.CryptpilotFde.BootService.BeforeSysroot.Delta.{disk-Gets}

not_ram_of_disk : (l : DeltaLocation) → l ≡ disk → ¬ (l ≡ ram)
not_ram_of_disk l e = λ r. cc (e, r)

not_ram_of_persist : (l : DeltaLocation) → l ≡ disk_persist → ¬ (l ≡ ram)
not_ram_of_persist l e = λ r. cc (e, r)

module _ (api : TraceApi) (expand_script : String) (t : Formats) (config : FdeConfig) where
  delta-Gets :
      (s : Boot) (location : DeltaLocation)
      → location_of config.rootfs.delta_location ≡ location
      → Verified s
      → Runs t config
          (λ v u. Verified v)
          s
          (setup_delta api expand_script config.delta
            (backend_of config.rootfs.delta_backend)
            location)
  unfolding setup_delta
  delta-Gets s disk e h = disk-Gets t config disk e (not_ram_of_disk _ e) api expand_script s _ h
  delta-Gets s disk_persist e h =
      disk-Gets t config disk_persist e (not_ram_of_persist _ e) api expand_script s _ h
  delta-Gets s ram e h =
      Verified-last t config s
        (setup_ram_delta api expand_script (backend_of config.rootfs.delta_backend))
        (setup_ram_delta-Uses api expand_script (backend_of config.rootfs.delta_backend)) h

  -- In every run of the stage before the mount of /sysroot on a configured system: only the logical
  -- volume of the delta is formatted, gets a key, or is labelled, and only after veritysetup has ended
  -- with 0 with the root hash of the metadata, for the rootfs and the output of the configuration; never
  -- when the delta is in memory; and it is formatted only if its key is not kept, or it is cleared at
  -- every boot, or its header could not be read or is not that of an initialized volume. Nothing is
  -- written through a device before. A run that ends well has opened dm-verity so.
  pub setup_volumes_required_by_fde-Guarded :
      Safe
        (boot_guard t config)
        (Gets (λ s. Unit {0}) (λ s u. s.verified ≡ true))
        power_on
        (setup_volumes_required_by_fde api expand_script t (some config))
  unfolding setup_volumes_required_by_fde setup_configured
  setup_volumes_required_by_fde-Guarded =
      first_then t config (λ v u. Verified v) power_on (ensure_module_loaded "dm_mod" []) _
        (modules-Early t config "dm_mod")
        (λ v u.
          first_then t config (λ w u. Verified w) v
            (run_command "vgchange" ("-a" ∷ "y" ∷ "cryptpilot" ∷ [])) _
            (run_command-Uses Early "vgchange" ("-a" ∷ "y" ∷ "cryptpilot" ∷ []) tt)
            (λ w stdout.
              >>=-Gets (boot_guard t config) Free (HasRoot t config) (λ x u. Verified x) w
                (load_metadata_from_file t metadata_path_in_initrd) _
                (load_metadata-Gets t config w)
                (λ x metadata rooted.
                  ensure-Gets (boot_guard t config) Free (λ y u. Verified y) x
                    (metadata.version == 1) Problem.unsupported_metadata _ tt
                    (λ supported.
                      Early-then t config (λ y u. Verified y) metadata.root_hash x
                        (setup_rootfs_crypt config.rootfs.encrypt) _
                        (crypt-Early t config config.rootfs.encrypt) rooted
                        (λ y u kept.
                          >>=-Gets (boot_guard t config) Free (λ z u. Verified z)
                            (λ z u. Verified z) y
                            (setup_rootfs_dm_verity
                              (verity_output (backend_of config.rootfs.delta_backend)).0
                              metadata.root_hash (lower_device config.rootfs.encrypt))
                            _ (verity-Gets t config y metadata.root_hash kept)
                            (λ z u verified.
                              delta-Gets z (location_of config.rootfs.delta_location) refl
                                verified))))))
