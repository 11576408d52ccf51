-- ===== src/CryptpilotCrypt/Open/Keeps/Whole.antt =====
-- `open_for_specific_volume` of cryptpilot-crypt/src/cmd/open.rs on a persistent volume.
use Prim.Native.String.{String, ◌++◌ as ◌<>◌}
use text.Mathlib.Text.{◌==◌ as text_eq}
use text.Mathlib.TextPositions.{eq_refl}
use cryptpilot.Prelude.{
  Bool, true, false, not, ◌&&◌, Option, none, some, [], ◌∷◌, ◌≡◌, refl, ap, sym, subst, inl, inr,
  if◌then◌else◌, bytes_eq,
}
use cryptpilot.Prelude.Dict.{is_some}
use cryptpilot.Prelude.Text.{codes}
use cryptpilot.CryptpilotCore.Types.{persistent, MakeFsType}
use cryptpilot.CryptpilotCore.System.{Op}
use cryptpilot.CryptpilotCore.Program.{Problem, Program, ret, fail, ◌>>=◌, attempt}
use cryptpilot.CryptpilotCore.Program.Safety.{Safe}
use cryptpilot.CryptpilotCore.Program.Uses.{Uses, >>=-Uses, attempt-Uses, if-Uses}
use cryptpilot.CryptpilotCore.Program.Gets.{Gets, >>=-Gets, ensure-Gets, Uses-Gets}
use cryptpilot.CryptpilotCore.Provider.{volume_type}
use cryptpilot.CryptpilotCore.Luks2.{is_active, is_dev_in_use, close}
use cryptpilot.CryptpilotCore.Blkid.{BlkidProbeResult, no_signatures, known_signature, probe_device}
use cryptpilot.CryptpilotCore.Calls.{is_dev_in_use-Uses, close-Uses, probe_device-Uses}
use cryptpilot.CryptpilotCore.Mkfs.{TraceApi, expected_str, judge, has_valuable_data}
use cryptpilot.CryptpilotCrypt.Config.{VolumeConfig, volume_path}
use cryptpilot.CryptpilotCrypt.Open.{
  after_check, check_filesystem, open_by_type, open_closed, open_for_specific_volume,
}
use cryptpilot.CryptpilotCrypt.Open.Keeps.{Seen, nothing, open_keeps}
use cryptpilot.CryptpilotCrypt.Open.Keeps.Persistent.{
  Harmless, Harmless-Keeps, Mapped, Mapped-watch, Free, Safely, Harmless-free,
  persistent_disk_open-Gets,
}

module _ (Q : Op → Type 0) where
  judge-Uses : (probe : BlkidProbeResult) (hint : Option MakeFsType) → Uses Q (judge probe hint)
  judge-Uses no_signatures hint = tt
  judge-Uses (known_signature fs_type pt_type subsystem) none = tt
  judge-Uses (known_signature none pt_type subsystem) (some expected) = tt
  judge-Uses (known_signature (some fs_type) pt_type subsystem) (some expected) =
      if-Uses Q (bytes_eq fs_type (codes (expected_str expected))) (ret true)
        (fail Problem.other_signature) tt tt

  pub has_valuable_data-Uses :
      (dev : String) (hint : Option MakeFsType)
      → Q (Op.command "blkid" ("-p" ∷ dev ∷ []))
      → Uses Q (has_valuable_data dev hint)
  unfolding has_valuable_data
  has_valuable_data-Uses dev hint q =
      >>=-Uses Q (probe_device dev) _ (probe_device-Uses Q dev q) (λ probe. judge-Uses probe hint)

module _ (config : VolumeConfig) where
  Harmless-Mapped :
      {A B : Type 0} (U : Seen → B → Type 0) (s : Seen) (x : Program A) (f : A → Program B)
      → Uses (Harmless config) x
      → Mapped config s
      → ((t : Seen) (a : A) → Mapped config t → Safely config U t (f a))
      → Safely config U s (x >>= f)
  Harmless-Mapped U s x f =
      Uses-Gets (open_keeps config) (Free config) (Harmless config) (Mapped config)
        (λ t op h k. Harmless-Keeps config t op h) (Mapped-watch config) (λ t k. tt) U s x f

  after_check-Gets :
      (s : Seen) (valuable : Bool)
      → Mapped config s
      → Safely config (λ t u. Mapped config t) s (after_check config valuable)
  unfolding after_check
  after_check-Gets s true mapped = mapped
  after_check-Gets s false mapped =
      Harmless-free config (λ t u. Mapped config t) s (attempt (close config.volume)) _
        (attempt-Uses (Harmless config) (close config.volume)
          (close-Uses (Harmless config) config.volume refl refl))
        (λ t e. tt)

  check_filesystem-Gets :
      (s : Seen) (check_fs : Bool)
      → Mapped config s
      → Safely config (λ t u. Mapped config t) s (check_filesystem config check_fs)
  unfolding check_filesystem
  check_filesystem-Gets s check_fs mapped = by_test (check_fs && is_some config.extra_config.makefs)
    where
      by_test :
          (b : Bool)
          → Safely config
              (λ t u. Mapped config t)
              s
              (if b
                then has_valuable_data (volume_path config) config.extra_config.makefs
                  >>= after_check config
                else ret tt)
      by_test true =
          Harmless-Mapped (λ t u. Mapped config t) s
            (has_valuable_data (volume_path config) config.extra_config.makefs) (after_check config)
            (has_valuable_data-Uses (Harmless config) (volume_path config)
              config.extra_config.makefs (inr (inl refl)))
            mapped after_check-Gets
      by_test false = mapped

  module _ (api : TraceApi) (kept : volume_type config.key_provider ≡ persistent) where
    open_closed-Gets :
        (s : Seen) (check_fs : Bool)
        → Safely config (λ t u. Mapped config t) s (open_closed api config check_fs)
    unfolding open_closed open_by_type
    open_closed-Gets s check_fs =
        Harmless-free config (λ t u. Mapped config t) s (is_dev_in_use config.dev) _
          (is_dev_in_use-Uses (Harmless config) config.dev tt)
          (λ t in_use.
            ensure-Gets (open_keeps config) (Free config) (λ v u. Mapped config v) t (not in_use)
              Problem.device_in_use _ tt
              (λ free.
                >>=-Gets (open_keeps config) (Free config) (λ v u. Mapped config v)
                  (λ v u. Mapped config v) t
                  (open_by_type api config (volume_type config.key_provider)) _
                  (subst
                    (λ kind.
                      Safely config (λ v u. Mapped config v) t (open_by_type api config kind))
                    (sym kept) (persistent_disk_open-Gets config t))
                  (λ v u mapped. check_filesystem-Gets v check_fs mapped)))

    by_active :
        (check_fs active : Bool)
        → Safely config
            (λ t u. Mapped config t)
            (record nothing {
              mapped =
                  text_eq ("/dev/mapper/" <> config.volume) ("/dev/mapper/" <> config.volume)
                  && active;
            })
            (if active then ret tt else open_closed api config check_fs)
    by_active check_fs true = ap (λ c. c && true) (eq_refl ("/dev/mapper/" <> config.volume))
    by_active check_fs false = open_closed-Gets _ check_fs

    -- In every run of `open` on a persistent volume nothing is formatted, no key is added, no label is
    -- set, nothing is written through a device, and the only programs run are modprobe, blkid and the
    -- one that prints the key. A passphrase is tried only at the device of the volume and only after
    -- its header was read as that of an initialized volume; the mapping is set up, under the name of
    -- the volume and from its device, only when such a passphrase has unlocked it. A run that ends
    -- well has seen the mapping or has set it up.
    pub open_for_specific_volume-Keeps :
        (check_fs : Bool)
        → Safe
            (open_keeps config)
            (Gets (λ s. Unit {0}) (λ s u. s.mapped ≡ true))
            nothing
            (open_for_specific_volume api config check_fs)
    unfolding open_for_specific_volume is_active
    open_for_specific_volume-Keeps check_fs = (tt, by_active check_fs)
