-- ===== src/CryptpilotCrypt/Check/Keeping.antt =====
-- The check of cryptpilot-crypt/src/cmd/config/check.rs finds the same with and without
-- --keep-checking.
use Prim.Native.String.{String}
use cryptpilot.Prelude.{
  ◌≡◌, refl, sym, ap, ◌∙◌, subst, Bool, true, false, not, Option, List, [], ◌∷◌, inl, inr, ◌↔◌,
  if◌then◌else◌,
}
use cryptpilot.CryptpilotCore.Types.{Passphrase}
use cryptpilot.CryptpilotCore.System.{Op}
use cryptpilot.CryptpilotCore.Program.{
  Problem, End, ok, err, crashed, Program, ret, fail, ◌>>=◌, attempt, ensure, Machine, run,
}
use cryptpilot.CryptpilotCore.Program.Runs.{continue, run->>=, Stopped, Holds}
use cryptpilot.CryptpilotCore.Luks2.{is_initialized, check_passphrase}
use cryptpilot.CryptpilotCore.Provider.{get_key}
use cryptpilot.CryptpilotCrypt.Config.{VolumeConfig, Cache, get_volume_configs}
use cryptpilot.CryptpilotCrypt.Check.{
  ConfigCheckOptions, judge_device, check_device, judge_passphrase, judge_key, check_key,
  check_volume, check_volumes, check_config,
}
use cryptpilot.CryptpilotCrypt.Check.Agree.{Agree, >>=-Agree, both-Agree}
use cryptpilot.CryptpilotCrypt.Check.Flags.{
  Clear, Raised, ClearAt, RaisedAt, keeping, stopping, key-Raised, check_volumes-Raised,
}

module _ (skip : Bool) where
  module _ (m : Machine) where
    judge_device-Agree :
        (config : VolumeConfig) (state : End Bool) (s : m.State)
        → Agree m ClearAt RaisedAt
            (run m s (judge_device (keeping skip) config false state))
            (run m s (judge_device (stopping skip) config false state))
    unfolding judge_device
    judge_device-Agree config (ok initialized) s = by_test _
      where
        by_test :
            (test : Bool)
            → Agree m ClearAt RaisedAt
                (run m s (
                  if test
                  then ret true >>= (λ e. ret (initialized, e))
                  else ret (initialized, false)))
                (run m s (
                  if test
                  then fail Problem.auto_open_not_initialized >>= (λ e. ret (initialized, e))
                  else ret (initialized, false)))
        by_test true = inr (refl, tt)
        by_test false = inl (s, (initialized, false), refl, refl, refl)
    judge_device-Agree config (err p) s = inr (refl, tt)
    judge_device-Agree config crashed s = inr (tt, tt)

    check_device-Agree :
        (config : VolumeConfig) (s : m.State)
        → Agree m ClearAt RaisedAt
            (run m s (check_device (keeping skip) config false))
            (run m s (check_device (stopping skip) config false))
    unfolding check_device
    check_device-Agree config s =
        by_exists (m.answer s (Op.path_exists config.dev)).0
          (m.answer s (Op.path_exists config.dev)).1
      where
        by_exists :
            (t : m.State) (exists : Bool)
            → Agree m ClearAt RaisedAt
                (run m t (
                  if exists
                  then attempt (is_initialized config.dev)
                    >>= judge_device (keeping skip) config false
                  else ret true >>= λ e. ret (false, e)))
                (run m t (
                  if exists
                  then attempt (is_initialized config.dev)
                    >>= judge_device (stopping skip) config false
                  else fail Problem.device_not_found >>= λ e. ret (false, e)))
        by_exists t true =
            both-Agree m ClearAt RaisedAt t (attempt (is_initialized config.dev))
              (judge_device (keeping skip) config false) (judge_device (stopping skip) config false)
              (λ u state. judge_device-Agree config state u)
        by_exists t false = inr (refl, tt)

    passphrase-Agree :
        (res : End (Unit {0})) (s : m.State)
        → Agree m Clear Raised
            (run m s (judge_passphrase (keeping skip) false res))
            (run m s (judge_passphrase (stopping skip) false res))
    unfolding judge_passphrase
    passphrase-Agree (ok u) s = inl (s, false, refl, refl, refl)
    passphrase-Agree (err p) s = inr (refl, tt)
    passphrase-Agree crashed s = inr (tt, tt)

    judge_key-Agree :
        (config : VolumeConfig) (initialized : Bool) (key : End Passphrase) (s : m.State)
        → Agree m Clear Raised
            (run m s (judge_key (keeping skip) config initialized false key))
            (run m s (judge_key (stopping skip) config initialized false key))
    unfolding judge_key
    judge_key-Agree config true (ok passphrase) s =
        both-Agree m Clear Raised s (attempt (check_passphrase config.dev passphrase))
          (judge_passphrase (keeping skip) false) (judge_passphrase (stopping skip) false)
          (λ t res. passphrase-Agree res t)
    judge_key-Agree config false (ok passphrase) s = inl (s, false, refl, refl, refl)
    judge_key-Agree config initialized (err p) s = inr (refl, tt)
    judge_key-Agree config initialized crashed s = inr (tt, tt)

    check_key-Agree :
        (config : VolumeConfig) (initialized : Bool) (s : m.State)
        → Agree m Clear Raised
            (run m s (check_key (keeping skip) config initialized false))
            (run m s (check_key (stopping skip) config initialized false))
    unfolding check_key
    check_key-Agree config initialized s = by_skip skip
      where
        by_skip :
            (skipped : Bool)
            → Agree m Clear Raised
                (run m s (
                  if skipped
                  then ret false
                  else attempt (get_key config.key_provider)
                    >>= judge_key (keeping skip) config initialized false))
                (run m s (
                  if skipped
                  then ret false
                  else attempt (get_key config.key_provider)
                    >>= judge_key (stopping skip) config initialized false))
        by_skip true = inl (s, false, refl, refl, refl)
        by_skip false =
            both-Agree m Clear Raised s (attempt (get_key config.key_provider))
              (judge_key (keeping skip) config initialized false)
              (judge_key (stopping skip) config initialized false)
              (λ t key. judge_key-Agree config initialized key t)

    key-Agree :
        (config : VolumeConfig) (device : Bool × Bool) (s : m.State)
        → ClearAt device
        → Agree m Clear Raised
            (run m s (check_key (keeping skip) config device.0 device.1))
            (run m s (check_key (stopping skip) config device.0 device.1))
    key-Agree config (initialized, e) s clear =
        subst
          (λ b.
            Agree m Clear Raised (run m s (check_key (keeping skip) config initialized b))
              (run m s (check_key (stopping skip) config initialized b)))
          (sym clear) (check_key-Agree config initialized s)

    check_volume-Agree :
        (config : VolumeConfig) (s : m.State)
        → Agree m Clear Raised
            (run m s (check_volume (keeping skip) config false))
            (run m s (check_volume (stopping skip) config false))
    unfolding check_volume
    check_volume-Agree config s =
        >>=-Agree m ClearAt RaisedAt Clear Raised
          (λ device. check_key (keeping skip) config device.0 device.1)
          (λ device. check_key (stopping skip) config device.0 device.1) (key-Raised skip config) s
          (check_device (keeping skip) config false) (check_device (stopping skip) config false)
          (check_device-Agree config s) (λ t device. key-Agree config device t)

    check_volumes-Agree :
        (configs : List VolumeConfig) (e : Bool) (s : m.State)
        → Clear e
        → Agree m Clear Raised
            (run m s (check_volumes (keeping skip) configs e))
            (run m s (check_volumes (stopping skip) configs e))
    unfolding check_volumes
    check_volumes-Agree [] e s clear = inl (s, e, refl, refl, clear)
    check_volumes-Agree (config ∷ configs) e s clear =
        >>=-Agree m Clear Raised Clear Raised (check_volumes (keeping skip) configs)
          (check_volumes (stopping skip) configs) (check_volumes-Raised skip configs) s
          (check_volume (keeping skip) config e) (check_volume (stopping skip) config e)
          (subst
            (λ b.
              Agree m Clear Raised (run m s (check_volume (keeping skip) config b))
                (run m s (check_volume (stopping skip) config b)))
            (sym clear) (check_volume-Agree config s))
          (λ t a. check_volumes-Agree configs a t)

    -- The last test, after a run that gave the flag.
    abbrev verdict : m.State × End Bool → m.State × End (Unit {0})
    verdict r = continue m r (λ is_error. ensure (not is_error) Problem.check_failed)

    Raised-verdict :
        (r : m.State × End Bool) (t : m.State) → Holds Raised r → ¬ (verdict r ≡ (t, ok tt))
    Raised-verdict (s, ok false) t h = cc h
    Raised-verdict (s, ok true) t h = λ same. cc same
    Raised-verdict (s, err p) t h = λ same. cc same
    Raised-verdict (s, crashed) t h = λ same. cc same

    Stopped-verdict :
        (r : m.State × End Bool) (t : m.State) → Stopped r → ¬ (verdict r ≡ (t, ok tt))
    Stopped-verdict (s, ok e) t h = absurd h
    Stopped-verdict (s, err p) t h = λ same. cc same
    Stopped-verdict (s, crashed) t h = λ same. cc same

    verdict_iff :
        (k n : m.State × End Bool) (t : m.State)
        → Agree m Clear Raised k n
        → (verdict k ≡ (t, ok tt)) ↔ (verdict n ≡ (t, ok tt))
    verdict_iff k n t (inl (s, e, same_k, same_n, clear)) =
        let same : verdict k ≡ verdict n = ap verdict (same_k ∙ sym same_n) in
        (λ h. sym same ∙ h, λ h. same ∙ h)
    verdict_iff k n t (inr (h, stop)) =
        (λ g. absurd (Raised-verdict k t h g), λ g. absurd (Stopped-verdict n t stop g))

    iff_along :
        {x x' y y' z : m.State × End (Unit {0})}
        → x ≡ x'
        → y ≡ y'
        → (x' ≡ z) ↔ (y' ≡ z)
        → (x ≡ z) ↔ (y ≡ z)
    iff_along p q h = (λ g. q ∙ h.0 (sym p ∙ g), λ g. p ∙ h.1 (sym q ∙ g))

    -- The part after the configurations are there.
    abbrev rest : ConfigCheckOptions → List VolumeConfig × Cache → Program (Unit {0})
    rest options found = check_volumes options found.0 false >>= λ is_error.
        ensure (not is_error) Problem.check_failed

    rest_iff :
        (found : List VolumeConfig × Cache) (s t : m.State)
        → (run m s (rest (keeping skip) found) ≡ (t, ok tt))
          ↔ (run m s (rest (stopping skip) found) ≡ (t, ok tt))
    rest_iff found s t =
        iff_along (run->>= m s (check_volumes (keeping skip) found.0 false) _)
          (run->>= m s (check_volumes (stopping skip) found.0 false) _)
          (verdict_iff _ _ t (check_volumes-Agree found.0 false s refl))

    found_iff :
        (r : m.State × End (List VolumeConfig × Cache)) (t : m.State)
        → (continue m r (rest (keeping skip)) ≡ (t, ok tt))
          ↔ (continue m r (rest (stopping skip)) ≡ (t, ok tt))
    found_iff (s, ok found) t = rest_iff found s t
    found_iff (s, err p) t = (λ h. h, λ h. h)
    found_iff (s, crashed) t = (λ h. h, λ h. h)

    -- In every environment, the check that goes on after an error passes if and only if the one that
    -- stops at the first error does, and then both leave the environment in the same state: they made
    -- the same calls.
    pub check_config-keeping :
        (parse : String → Option VolumeConfig) (config_dir : String) (cache : Cache) (s t : m.State)
        → (run m s (check_config parse config_dir (keeping skip) cache) ≡ (t, ok tt))
          ↔ (run m s (check_config parse config_dir (stopping skip) cache) ≡ (t, ok tt))
    unfolding check_config
    check_config-keeping parse config_dir cache s t =
        iff_along (run->>= m s (get_volume_configs parse config_dir cache) (rest (keeping skip)))
          (run->>= m s (get_volume_configs parse config_dir cache) (rest (stopping skip)))
          (found_iff (run m s (get_volume_configs parse config_dir cache)) t)
