-- ===== src/CryptpilotCrypt/Check/Flags.antt =====
-- A raised flag of the check of cryptpilot-crypt/src/cmd/config/check.rs stays raised.
use cryptpilot.Prelude.{◌≡◌, refl, sym, subst, Bool, true, false, List, [], ◌∷◌, if◌then◌else◌}
use cryptpilot.CryptpilotCore.Types.{Passphrase}
use cryptpilot.CryptpilotCore.Program.{Problem, End, ok, err, crashed, ret, ◌>>=◌, attempt}
use cryptpilot.CryptpilotCore.Program.Runs.{Leaves, Leaves-then, Leaves->>=}
use cryptpilot.CryptpilotCore.Luks2.{is_initialized, check_passphrase}
use cryptpilot.CryptpilotCore.Provider.{get_key}
use cryptpilot.CryptpilotCrypt.Config.{VolumeConfig}
use cryptpilot.CryptpilotCrypt.Check.{
  ConfigCheckOptions, continue_or_throw, judge_device, check_device, judge_passphrase, judge_key,
  check_key, check_volume, check_volumes,
}

-- A flag that is not set, and one that is; on its own and beside the state of the device.
abbrev pub Clear : Bool → Type 0
Clear e = e ≡ false

abbrev pub Raised : Bool → Type 0
Raised e = e ≡ true

abbrev pub ClearAt : Bool × Bool → Type 0
ClearAt device = Clear device.1

abbrev pub RaisedAt : Bool × Bool → Type 0
RaisedAt device = Raised device.1

module _ (skip : Bool) where
  abbrev pub keeping : ConfigCheckOptions
  keeping = record { keep_checking = true; skip_check_passphrase = skip }

  abbrev pub stopping : ConfigCheckOptions
  stopping = record { keep_checking = false; skip_check_passphrase = skip }

  -- A flag that is raised stays so.
  passphrase-Raised : (res : End (Unit {0})) → Leaves Raised (judge_passphrase keeping true res)
  unfolding judge_passphrase
  passphrase-Raised (ok u) = refl
  passphrase-Raised (err p) = refl
  passphrase-Raised crashed = tt

  judge_key-Raised :
      (config : VolumeConfig) (initialized : Bool) (key : End Passphrase)
      → Leaves Raised (judge_key keeping config initialized true key)
  unfolding judge_key
  judge_key-Raised config true (ok passphrase) =
      Leaves-then Raised (attempt (check_passphrase config.dev passphrase))
        (judge_passphrase keeping true) passphrase-Raised
  judge_key-Raised config false (ok passphrase) = refl
  judge_key-Raised config initialized (err p) = refl
  judge_key-Raised config initialized crashed = tt

  check_key-Raised :
      (config : VolumeConfig) (initialized : Bool)
      → Leaves Raised (check_key keeping config initialized true)
  unfolding check_key
  check_key-Raised config initialized = by_skip skip
    where
      by_skip :
          (skipped : Bool)
          → Leaves Raised (
              if skipped
              then ret true
              else attempt (get_key config.key_provider)
                >>= judge_key keeping config initialized true)
      by_skip true = refl
      by_skip false =
          Leaves-then Raised (attempt (get_key config.key_provider))
            (judge_key keeping config initialized true) (judge_key-Raised config initialized)

  pub key-Raised :
      (config : VolumeConfig) (device : Bool × Bool)
      → RaisedAt device
      → Leaves Raised (check_key keeping config device.0 device.1)
  key-Raised config (initialized, e) raised =
      subst (λ b. Leaves Raised (check_key keeping config initialized b)) (sym raised)
        (check_key-Raised config initialized)

  judge_device-Raised :
      (config : VolumeConfig) (state : End Bool)
      → Leaves RaisedAt (judge_device keeping config true state)
  unfolding judge_device
  judge_device-Raised config (ok initialized) = by_test _
    where
      by_test :
          (test : Bool)
          → Leaves RaisedAt
              (if test then ret true >>= (λ e. ret (initialized, e)) else ret (initialized, true))
      by_test true = refl
      by_test false = refl
  judge_device-Raised config (err p) = refl
  judge_device-Raised config crashed = tt

  check_device-Raised : (config : VolumeConfig) → Leaves RaisedAt (check_device keeping config true)
  unfolding check_device
  check_device-Raised config = λ r. by_exists r
    where
      by_exists :
          (exists : Bool)
          → Leaves RaisedAt (
              if exists
              then attempt (is_initialized config.dev) >>= judge_device keeping config true
              else continue_or_throw keeping Problem.device_not_found >>= λ e. ret (false, e))
      by_exists true =
          Leaves-then RaisedAt (attempt (is_initialized config.dev))
            (judge_device keeping config true) (judge_device-Raised config)
      by_exists false = refl

  pub check_volumes-Raised :
      (configs : List VolumeConfig) (e : Bool)
      → Raised e
      → Leaves Raised (check_volumes keeping configs e)
  unfolding check_volumes check_volume
  check_volumes-Raised [] e raised = raised
  check_volumes-Raised (config ∷ configs) e raised =
      Leaves->>= Raised Raised (check_volume keeping config e) (check_volumes keeping configs)
        (subst (λ b. Leaves Raised (check_volume keeping config b)) (sym raised)
          (Leaves->>= RaisedAt Raised (check_device keeping config true) _
            (check_device-Raised config) (key-Raised config)))
        (check_volumes-Raised configs)
