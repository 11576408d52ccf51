-- ===== src/CryptpilotFde/BootService/BeforeSysroot/Delta.antt =====
-- The delta volume in the stage before the mount of /sysroot (cryptpilot-fde/src/cmd/boot_service/
-- stage/before_sysroot.rs).
use Prim.Native.String.{String}
use text.Mathlib.Text.{◌==◌ as text_eq}
use text.Mathlib.TextPositions.{eq_refl}
use cryptpilot.Prelude.{ℕ, Bool, true, false, ◌&&◌, ◌||◌, not, List, ◌≡◌, refl, ap, ◌∙◌, inl, inr}
use cryptpilot.CryptpilotCore.Types.{Passphrase, IntegrityType, VolumeType, temporary, persistent}
use cryptpilot.CryptpilotCore.System.{Attempt}
use cryptpilot.CryptpilotCore.Program.Gets.{>>=-Gets, tried-Gets, from_attempt-Gets}
use cryptpilot.CryptpilotCore.Calls.{get_key-Uses, open_with_check_passphrase-Uses}
use cryptpilot.CryptpilotCore.Provider.{volume_type, get_key}
use cryptpilot.CryptpilotCore.Luks2.{
  is_initialized, format, open_with_check_passphrase, mark_volume_as_initialized,
}
use cryptpilot.CryptpilotCore.Luks2.Answers.{shows_final, is_initialized-Gets}
use cryptpilot.CryptpilotCore.Mkfs.{TraceApi}
use cryptpilot.CryptpilotCore.Mkfs.Calls.{Unmarked}
use cryptpilot.CryptpilotFde.Config.{
  DeltaLocation, disk, disk_persist, ram, DeltaBackend, FdeConfig, location_of,
}
use cryptpilot.CryptpilotFde.BootService.Metadata.{Formats}
use cryptpilot.CryptpilotFde.BootService.BeforeSysroot.{
  delta_logical_volume, delta_name, verity_output, is_disk, decide_recreate, format_if,
  delta_integrity, setup_delta_volume_luks2, mark_if, ensure_delta_volume_exist_and_expanded,
  expand_system_pv_partition, setup_delta_content, setup_disk_delta,
}
use cryptpilot.CryptpilotFde.BootService.BeforeSysroot.Guard.{Boot, MayErase, boot_guard}
use cryptpilot.CryptpilotFde.BootService.BeforeSysroot.Calls.{
  ensure_delta-Uses, expand-Uses, setup_delta_content-Uses,
}
use cryptpilot.CryptpilotFde.BootService.BeforeSysroot.Verified.{
  Verified, Free, Runs, Verified-then,
}

module _ (t : Formats) (config : FdeConfig) where
  fresh_after :
      (s : Boot) (r : Attempt (List ℕ))
      → shows_final r ≡ false
      → (s.fresh || (text_eq delta_logical_volume delta_logical_volume && not (shows_final r)))
        ≡ true
  fresh_after s r e = by_flag s.fresh
    where
      by_flag :
          (b : Bool)
          → (b || (text_eq delta_logical_volume delta_logical_volume && not (shows_final r))) ≡ true
      by_flag true = refl
      by_flag false = ap (λ c. c && not (shows_final r)) (eq_refl delta_logical_volume) ∙ ap not e

  abbrev Decided : Boot → Bool → Type 0
  Decided v b = (v.verified ≡ true) × (b ≡ true → MayErase config v)

  module _ (location : DeltaLocation) (chosen : location_of config.rootfs.delta_location ≡ location)
      (kept : ¬ (location_of config.rootfs.delta_location ≡ ram)) where
    disk_of_test : (l : DeltaLocation) → is_disk l ≡ true → l ≡ disk
    disk_of_test disk e = refl
    disk_of_test disk_persist e = cc e
    disk_of_test ram e = cc e

    may_erase :
        (v : Boot) (initialized : Bool)
        → (initialized ≡ false → v.fresh ≡ true)
        → (not initialized || is_disk location) ≡ true
        → MayErase config v
    may_erase v true seen e = inr (inl (chosen ∙ disk_of_test location e))
    may_erase v false seen e = inr (inr (seen refl))

    decide-Gets :
        (s : Boot) (kind : VolumeType)
        → volume_type config.delta.encrypt ≡ kind
        → Verified s
        → Runs t config Decided s (decide_recreate kind location)
    unfolding decide_recreate
    decide-Gets s temporary e h = (h, λ _. inl e)
    decide-Gets s persistent e h =
        >>=-Gets (boot_guard t config) Free
          (λ v b. (v.verified ≡ true) × (b ≡ false → v.fresh ≡ true)) Decided s
          (is_initialized delta_logical_volume) _
          (is_initialized-Gets (boot_guard t config) Free
            (λ v b. (v.verified ≡ true) × (b ≡ false → v.fresh ≡ true)) s delta_logical_volume tt
            (λ r. (h, fresh_after s r)))
          (λ v b seen. (seen.0, may_erase v b seen.1))

    format-Gets :
        (s : Boot) (b : Bool) (passphrase : Passphrase) (integrity : IntegrityType)
        → Decided s b
        → Runs t config (λ v u. Verified v) s (format_if b passphrase integrity)
    unfolding format_if format
    format-Gets s false passphrase kind h = h.0
    format-Gets s true passphrase kind h = (
      tt,
      λ r.
          tried-Gets (boot_guard t config) Free (λ v u. Verified v) s r _ tt
            (λ u. (
              ((refl, h.0, kept), h.1 refl),
              λ q.
                  tried-Gets (boot_guard t config) Free (λ v u. Verified v) s q _ tt
                    (λ w. (
                      (refl, h.0, kept),
                      λ a.
                          from_attempt-Gets (boot_guard t config) Free (λ v u. Verified v) s a tt
                            (λ x. h.0),
                    )),
            )),
    )

    mark-Gets : (s : Boot) (b : Bool) → Verified s → Runs t config (λ v u. Verified v) s (mark_if b)
    unfolding mark_if mark_volume_as_initialized
    mark-Gets s false h = h
    mark-Gets s true h = (
      tt,
      λ r.
          tried-Gets (boot_guard t config) Free (λ v u. Verified v) s r _ tt
            (λ u. (
              tt,
              λ q.
                  tried-Gets (boot_guard t config) Free (λ v u. Verified v) s q _ tt
                    (λ w. (
                      (refl, h, kept),
                      λ a.
                          from_attempt-Gets (boot_guard t config) Free (λ v u. Verified v) s a tt
                            (λ x. h),
                    )),
            )),
    )

    luks2-Gets :
        (s : Boot)
        → Verified s
        → Runs t config (λ v made. Verified v) s (setup_delta_volume_luks2 config.delta location)
    unfolding setup_delta_volume_luks2
    luks2-Gets s h =
        Verified-then t config (λ v made. Verified v) s (get_key config.delta.encrypt) _
          (get_key-Uses Unmarked config.delta.encrypt (λ n. tt) tt (λ program args e. tt)) h
          (λ v passphrase k.
            >>=-Gets (boot_guard t config) Free Decided (λ w made. Verified w) v
              (decide_recreate (volume_type config.delta.encrypt) location) _
              (decide-Gets v (volume_type config.delta.encrypt) refl k)
              (λ w b decided.
                >>=-Gets (boot_guard t config) Free (λ x u. Verified x) (λ x made. Verified x) w
                  (format_if b passphrase (delta_integrity config.delta.integrity)) _
                  (format-Gets w b passphrase (delta_integrity config.delta.integrity) decided)
                  (λ x u l.
                    Verified-then t config (λ y made. Verified y) x
                      (open_with_check_passphrase delta_name delta_logical_volume passphrase
                        (delta_integrity config.delta.integrity))
                      _
                      (open_with_check_passphrase-Uses Unmarked (λ path. tt) (λ args. tt) delta_name
                        delta_logical_volume passphrase (delta_integrity config.delta.integrity) tt
                        tt tt tt)
                      l (λ y u m. m))))

    module _ (api : TraceApi) (expand_script : String) where
      pub disk-Gets :
          (s : Boot) (backend : DeltaBackend)
          → Verified s
          → Runs t config
              (λ v u. Verified v)
              s
              (setup_disk_delta api expand_script config.delta backend location)
      unfolding setup_disk_delta
      disk-Gets s backend h =
          Verified-then t config (λ v u. Verified v) s
            (expand_system_pv_partition api expand_script) _ (expand-Uses api expand_script) h
            (λ v u k.
              Verified-then t config (λ w u. Verified w) v ensure_delta_volume_exist_and_expanded _
                ensure_delta-Uses k
                (λ w u l.
                  >>=-Gets (boot_guard t config) Free (λ x made. Verified x) (λ x u. Verified x) w
                    (setup_delta_volume_luks2 config.delta location) _ (luks2-Gets w l)
                    (λ x made m.
                      Verified-then t config (λ y u. Verified y) x
                        (setup_delta_content api expand_script backend (verity_output backend).1
                          location made.0 made.1)
                        _
                        (setup_delta_content-Uses api expand_script backend
                          (verity_output backend).1 location made.0 made.1)
                        m (λ y u n. mark-Gets y made.0 n))))
