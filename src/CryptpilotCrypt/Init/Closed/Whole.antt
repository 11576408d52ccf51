-- ===== src/CryptpilotCrypt/Init/Closed/Whole.antt =====
-- The initialization of cryptpilot-crypt/src/cmd/init.rs with its temporary mapping.
use Prim.Native.String.{String, ◌++◌ as ◌<>◌}
use cryptpilot.Prelude.{refl, sym, subst, Bool, true, false, not, Option, none, some}
use cryptpilot.CryptpilotCore.Types.{Passphrase, IntegrityType, MakeFsType}
use cryptpilot.CryptpilotCore.Program.{Problem, Program, ◌>>=◌, from_attempt, with_drop, ensure}
use cryptpilot.CryptpilotCore.Program.Safety.{Safe, >>=-Safe}
use cryptpilot.CryptpilotCore.Program.Uses.{Uses, >>=-Uses, ensure-Uses, from_attempt-Uses}
use cryptpilot.CryptpilotCore.Luks2.{
  format, with_temp_luks_volume, open_with_check_passphrase, close, mark_volume_as_initialized,
  is_dev_in_use,
}
use cryptpilot.CryptpilotCore.Provider.{get_key}
use cryptpilot.CryptpilotCore.Calls.{is_dev_in_use-Uses, get_key-Uses, mark-Uses, format-Uses}
use cryptpilot.CryptpilotCore.Mkfs.{TraceApi}
use cryptpilot.CryptpilotCore.Mkfs.Calls.{Plain, force_mkfs-Plain}
use cryptpilot.CryptpilotCrypt.Config.{VolumeConfig}
use cryptpilot.CryptpilotCrypt.Show.{
  VolumeStatusKind, device_not_found, check_failed, requires_init, initializing, ready_to_open,
  opened, determine_status,
}
use cryptpilot.CryptpilotCrypt.Show.Status.{determine_status-Uses}
use cryptpilot.CryptpilotCrypt.Init.{
  InitOptions, check_status, ask_user, ask, init_integrity, init_filesystem, write_volume,
  persistent_disk_init,
}
use cryptpilot.CryptpilotCrypt.Init.Closed.{
  mapping, Closed, Unmapped, still, calm_then, Opened, open-Safe, dropped,
}

temp-Safe :
    (dev : String) (passphrase : Passphrase) (integrity : IntegrityType)
    (body : String → Program (Unit {0}))
    → ((path : String) → Uses Plain (body path))
    → Safe mapping Closed none (with_temp_luks_volume dev passphrase integrity body)
unfolding with_temp_luks_volume
temp-Safe dev passphrase integrity body plain = (
  tt,
  λ letters.
      >>=-Safe mapping (Opened (".cryptpilot-" <> letters)) Closed none
        (open_with_check_passphrase (".cryptpilot-" <> letters) dev passphrase integrity) _
        (open-Safe (".cryptpilot-" <> letters) dev passphrase integrity)
        (
          λ s u same.
              subst
                (λ t. Safe mapping Closed t (
                  with_drop (body ("/dev/mapper/" <> (".cryptpilot-" <> letters)))
                    (close (".cryptpilot-" <> letters))))
                (sym same) (dropped (".cryptpilot-" <> letters) _ (plain _)),
          λ s p same. same,
          λ s same. same,
        ),
)

module _ (api : TraceApi) (config : VolumeConfig) where
  filesystem-Safe :
      (passphrase : Passphrase) (makefs : Option MakeFsType)
      → Safe mapping Closed none (init_filesystem api config passphrase makefs)
  unfolding init_filesystem
  filesystem-Safe passphrase none = refl
  filesystem-Safe passphrase (some makefs) =
      temp-Safe config.dev passphrase (init_integrity config.extra_config.integrity) _
        (λ path. force_mkfs-Plain api path makefs (init_integrity config.extra_config.integrity))

  unit-Closed :
      (p : Program (Unit {0})) (f : Unit {0} → Program (Unit {0}))
      → Safe mapping Closed none p
      → Safe mapping Closed none (f tt)
      → Safe mapping Closed none (p >>= f)
  unit-Closed p f h g = >>=-Safe mapping Closed Closed none p f h (
    λ s u same. subst (λ t. Safe mapping Closed t (f u)) (sym same) g,
    λ s e same. same,
    λ s same. same,
  )

  write_volume-Safe :
      (passphrase : Passphrase) → Safe mapping Closed none (write_volume api config passphrase)
  unfolding write_volume
  write_volume-Safe passphrase =
      calm_then Closed (λ p. refl) refl
        (format config.dev passphrase (init_integrity config.extra_config.integrity)) _
        (format-Uses Unmapped config.dev passphrase (init_integrity config.extra_config.integrity)
          tt tt tt)
        (λ u.
          unit-Closed (init_filesystem api config passphrase config.extra_config.makefs) _
            (filesystem-Safe passphrase config.extra_config.makefs)
            (still none (mark_volume_as_initialized config.dev)
              (mark-Uses Unmapped config.dev tt tt tt)))

  status-Uses :
      (options : InitOptions) (kind : VolumeStatusKind) → Uses Unmapped (check_status options kind)
  status-Uses options device_not_found = tt
  status-Uses options check_failed = tt
  status-Uses options opened = tt
  status-Uses options requires_init = tt
  status-Uses options initializing = tt
  status-Uses options ready_to_open =
      ensure-Uses Unmapped options.force_reinit Problem.already_initialized

  ask-Uses : (yes : Bool) → Uses Unmapped (ask yes)
  unfolding ask_user
  ask-Uses true = tt
  ask-Uses false = (
    tt,
    λ is_term.
        >>=-Uses Unmapped (ensure is_term Problem.not_a_terminal) _
          (ensure-Uses Unmapped is_term Problem.not_a_terminal)
          (λ u. (
            tt,
            λ r.
                >>=-Uses Unmapped (from_attempt r) _ (from_attempt-Uses Unmapped r)
                  (λ agreed. ensure-Uses Unmapped agreed Problem.canceled),
          )),
  )

  -- In every run of an initialization of a persistent volume, whatever the system replies, a mapping is
  -- made only when no other one is there, and only the one that is there is closed; and at every end,
  -- be it an error or a panic, a mapping that was made was asked to be removed, unless its name was not
  -- found.
  pub persistent_disk_init-Closed :
      (options : InitOptions) → Safe mapping Closed none (persistent_disk_init api options config)
  unfolding persistent_disk_init
  persistent_disk_init-Closed options =
      calm_then Closed (λ p. refl) refl (determine_status config) _
        (determine_status-Uses Unmapped (λ path. tt) (λ path n. tt) config)
        (λ status.
          calm_then Closed (λ p. refl) refl (check_status options status) _
            (status-Uses options status)
            (λ u.
              calm_then Closed (λ p. refl) refl (ask options.assume_yes) _
                (ask-Uses options.assume_yes)
                (λ v.
                  calm_then Closed (λ p. refl) refl (is_dev_in_use config.dev) _
                    (is_dev_in_use-Uses Unmapped config.dev tt)
                    (λ in_use.
                      calm_then Closed (λ p. refl) refl (ensure (not in_use) Problem.device_in_use)
                        _ (ensure-Uses Unmapped (not in_use) Problem.device_in_use)
                        (λ w.
                          calm_then Closed (λ p. refl) refl (get_key config.key_provider) _
                            (get_key-Uses Unmapped config.key_provider (λ n. tt) tt
                              (λ program args e. tt))
                            write_volume-Safe)))))
