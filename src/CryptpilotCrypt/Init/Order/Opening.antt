-- ===== src/CryptpilotCrypt/Init/Order/Opening.antt =====
-- The temporary volume of `persistent_disk_init` (cryptpilot-crypt/src/cmd/init.rs): its mapping is the
-- one made last.
use Prim.Native.String.{String, ◌++◌ as ◌<>◌}
use cryptpilot.Prelude.{Bool, true, some, [], refl}
use cryptpilot.CryptpilotCore.Types.{Passphrase, IntegrityType}
use cryptpilot.CryptpilotCore.System.{Op, Attempt, good, bad}
use cryptpilot.CryptpilotCore.Program.{Program, from_attempt}
use cryptpilot.CryptpilotCore.Program.Gets.{>>=-Gets, tried-Gets}
use cryptpilot.CryptpilotCore.Luks2.{
  open_with_check_passphrase, close, with_temp_luks_volume, check_passphrase,
  ensure_integrity_module, without_journal,
}
use cryptpilot.CryptpilotCore.Calls.{
  close-Uses, ensure_module_loaded-Uses, ensure_integrity_module-Uses, check_passphrase-Uses,
}
use cryptpilot.CryptpilotCore.Mkfs.{TraceApi}
use cryptpilot.CryptpilotCore.Mkfs.Calls.{Unmarked}
use cryptpilot.CryptpilotCrypt.Config.{VolumeConfig}
use cryptpilot.CryptpilotCrypt.Init.Order.{Progress, advance, init_order}
use cryptpilot.CryptpilotCrypt.Init.Order.Marked.{Has, Settled, Stage, early, aimed}
use cryptpilot.CryptpilotCrypt.Init.Order.Migration.{Unlabelled, Reaches, quiet_then, quiet_drop}
use cryptpilot.CryptpilotCore.Cmd.{ensure_module_loaded}

module _ (api : TraceApi) (config : VolumeConfig) where
  abbrev pub Gains : {A : Type 0} → (Progress → Type 0) → Progress → Program A → Type 0
  Gains T = Reaches api config true (λ t a. T t)

  -- The mapping is made by the last call.
  activated :
      (name : String) (passphrase : Passphrase) (flag : Bool) (s : Progress)
      → Has api true early s
      → (r : Attempt (Unit {0}))
      → Gains
          (Has api true (aimed ("/dev/mapper/" <> name)))
          (advance config s (Op.crypt_activate (some name) config.dev passphrase flag) r)
          (from_attempt r)
  activated name passphrase flag s h (good u) = record {
    unlabelled = h.unlabelled;
    has_key = h.has_key;
    reached = refl;
  }
  activated name passphrase flag s h (bad e) = h.unlabelled

  open-Gets :
      (name : String) (passphrase : Passphrase) (i : IntegrityType) (s : Progress)
      → Has api true early s
      → Gains
          (Has api true (aimed ("/dev/mapper/" <> name)))
          s
          (open_with_check_passphrase name config.dev passphrase i)
  unfolding open_with_check_passphrase
  open-Gets name passphrase i s h =
      quiet_then api config true early (λ t u. Has api true (aimed ("/dev/mapper/" <> name)) t) s
        (ensure_module_loaded "dm_crypt" []) _
        (ensure_module_loaded-Uses Unmarked (λ path. tt) (λ args. tt) "dm_crypt" []) h
        (λ t u kept.
          quiet_then api config true early _ t (ensure_integrity_module i) _
            (ensure_integrity_module-Uses Unmarked (λ path. tt) (λ args. tt) i) kept
            (λ v u kept.
              quiet_then api config true early _ v (check_passphrase config.dev passphrase) _
                (check_passphrase-Uses Unmarked config.dev passphrase tt tt tt) kept
                (λ w u kept. (
                  tt,
                  λ r.
                      tried-Gets (init_order api config) Unlabelled
                        (λ t u. Has api true (aimed ("/dev/mapper/" <> name)) t) w r _
                        kept.unlabelled
                        (λ a. (
                          tt,
                          λ q.
                              tried-Gets (init_order api config) Unlabelled
                                (λ t u. Has api true (aimed ("/dev/mapper/" <> name)) t) w q _
                                kept.unlabelled
                                (λ b. (tt, activated name passphrase (without_journal i) w kept)),
                        )),
                ))))

  -- A temporary volume around a body, and its `drop`.
  pub temp-Gets :
      (stage : Stage) (passphrase : Passphrase) (s : Progress) (i : IntegrityType)
      (body : String → Program (Unit {0}))
      → Has api true early s
      → ((t : Progress) (path : String)
          → Has api true (aimed path) t
          → Gains (Has api true stage) t (body path))
      → Gains (Has api true stage) s (with_temp_luks_volume config.dev passphrase i body)
  unfolding with_temp_luks_volume
  temp-Gets stage passphrase s i body h go = (
    tt,
    λ letters.
        >>=-Gets (init_order api config) Unlabelled
          (λ t u. Has api true (aimed ("/dev/mapper/" <> (".cryptpilot-" <> letters))) t)
          (λ t u. Has api true stage t) s
          (open_with_check_passphrase (".cryptpilot-" <> letters) config.dev passphrase i) _
          (open-Gets (".cryptpilot-" <> letters) passphrase i s h)
          (λ t u kept.
            quiet_drop api config true (λ u. stage) t (body _) (close (".cryptpilot-" <> letters))
              (go t _ kept) (close-Uses Settled (".cryptpilot-" <> letters) tt tt)),
  )
