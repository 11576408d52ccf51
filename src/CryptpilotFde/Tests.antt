-- ===== src/CryptpilotFde/Tests.antt =====
-- The theorems on cryptpilot-fde/src at concrete configurations.
use cryptpilot.Prelude.{◌≡◌, refl, true, false, none, some, [], ◌∷◌}
use cryptpilot.CryptpilotCore.Types.{kbs, exec}
use cryptpilot.CryptpilotCore.Program.Safety.{Safe}
use cryptpilot.CryptpilotCore.Program.Gets.{Gets}
use cryptpilot.CryptpilotCore.Mkfs.{TraceApi}
use cryptpilot.CryptpilotFde.Config.{FdeConfig, disk_persist, ram, overlayfs}
use cryptpilot.CryptpilotFde.BootService.Metadata.{Formats}
use cryptpilot.CryptpilotFde.BootService.BeforeSysroot.{setup_volumes_required_by_fde}
use cryptpilot.CryptpilotFde.BootService.BeforeSysroot.Guard.{power_on, boot_guard}
use cryptpilot.CryptpilotFde.BootService.BeforeSysroot.Whole.{setup_volumes_required_by_fde-Guarded}
use cryptpilot.CryptpilotFde.BootService.AfterSysroot.{setup_mounts_required_by_fde}
use cryptpilot.CryptpilotFde.BootService.AfterSysroot.Mounts.{Checked, unmounted, sysroot_first}
use cryptpilot.CryptpilotFde.BootService.AfterSysroot.Overlay.{setup_mounts_required_by_fde-Checked}

abbrev api : TraceApi
api = record { tc_shift = 16; tc_read = 1; tc_write = 2; tc_discard = 8192 }

abbrev formats : Formats
formats = record {
  parse_metadata = λ text. some (record { version = 1; root_hash = text });
  hex_decode = λ text. some (0xab ∷ []);
  hex_encode = λ bytes. "ab";
}

abbrev persistent : FdeConfig
persistent = record {
  rootfs = record {
    delta_location = some disk_persist;
    delta_backend = none;
    encrypt = some (kbs "https://kbs");
  };
  delta = record { integrity = true; encrypt = exec "print-key" [] };
}

abbrev in_memory : FdeConfig
in_memory = record {
  rootfs = record { delta_location = some ram; delta_backend = some overlayfs; encrypt = none };
  delta = record { integrity = false; encrypt = exec "print-key" [] };
}

setup_volumes_required_by_fde-Guarded_example :
    Safe
      (boot_guard formats persistent)
      (Gets (λ s. Unit {0}) (λ s u. s.verified ≡ true))
      power_on
      (setup_volumes_required_by_fde api "growpart" formats (some persistent))
setup_volumes_required_by_fde-Guarded_example =
    setup_volumes_required_by_fde-Guarded api "growpart" formats persistent

setup_mounts_required_by_fde-Checked_example :
    Safe sysroot_first
      (Gets (λ s. Unit {0}) (λ s u. Checked s × (s.delta ≡ true)))
      unmounted
      (setup_mounts_required_by_fde (some in_memory))
setup_mounts_required_by_fde-Checked_example = setup_mounts_required_by_fde-Checked in_memory refl
