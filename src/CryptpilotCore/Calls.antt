-- ===== src/CryptpilotCore/Calls.antt =====
-- The calls that the operations of cryptpilot-core make, operation by operation.
use Prim.Native.String.{String}
use cryptpilot.Prelude.{ℕ, true, false, Option, none, some, List, [], ◌∷◌, ◌≡◌, refl, ◌==◌}
use cryptpilot.CryptpilotCore.Types.{
  Passphrase, IntegrityType, no_integrity, journal, no_journal, MakeFsType, KeyProviderConfig, otp,
  tpm2, kms, kbs, oidc, exec,
}
use cryptpilot.CryptpilotCore.System.{Op, Attempt, good, bad, Output}
use cryptpilot.CryptpilotCore.Program.{Problem, Program, ret, fail, ◌>>=◌, from_attempt, attempt}
use cryptpilot.CryptpilotCore.Program.Uses.{
  Uses, >>=-Uses, attempt-Uses, from_attempt-Uses, if-Uses,
}
use cryptpilot.CryptpilotCore.Cmd.{
  check_status, run_with_status_checker, expect_zero, run_command, is_module_available, load_module,
  ensure_module_loaded,
}
use cryptpilot.CryptpilotCore.Provider.{random_passphrase, get_key}
use cryptpilot.CryptpilotCore.Luks2.Header.{header_size, subsystem_of}
use cryptpilot.CryptpilotCore.Luks2.{
  luks2_subsystem_name, get_luks2_subsystem, get_init_state, is_initialized, is_ready, classify,
  volume_key_size, format_params, format, mark_volume_as_initialized, check_passphrase,
  without_journal, ensure_integrity_module, open_with_check_passphrase, is_active, busy,
  is_dev_in_use, close,
}
use cryptpilot.CryptpilotCore.Blkid.{check_probe, parse_probe, probe_device}
use cryptpilot.CryptpilotCore.Mkfs.{mkfs_command, mkfs_args, normal_mkfs}

module _ (Q : Op → Type 0) where
  check_status-Uses :
      {A : Type 0} (checker : ℕ → Output → Program A) (out : Output) (code : Option ℕ)
      → ((c : ℕ) → Uses Q (checker c out))
      → Uses Q (check_status checker out code)
  check_status-Uses checker out none go = tt
  check_status-Uses checker out (some c) go = go c

  pub run_with_status_checker-Uses :
      {A : Type 0} (program : String) (args : List String) (checker : ℕ → Output → Program A)
      → Q (Op.command program args)
      → ((c : ℕ) (out : Output) → Uses Q (checker c out))
      → Uses Q (run_with_status_checker program args checker)
  run_with_status_checker-Uses program args checker q go = (
    q,
    λ r.
        >>=-Uses Q (from_attempt r) (λ out. check_status checker out out.code)
          (from_attempt-Uses Q r) (λ out. check_status-Uses checker out out.code (λ c. go c out)),
  )

  pub run_command-Uses :
      (program : String) (args : List String)
      → Q (Op.command program args)
      → Uses Q (run_command program args)
  unfolding run_command
  run_command-Uses program args q =
      run_with_status_checker-Uses program args expect_zero q
        (λ c out. if-Uses Q (c == 0) (ret out.stdout) (fail Problem.bad_exit_code) tt tt)

  pub normal_mkfs-Uses :
      (dev : String) (fs_type : MakeFsType)
      → Q (Op.command (mkfs_command fs_type) (mkfs_args fs_type dev))
      → Uses Q (normal_mkfs dev fs_type)
  unfolding normal_mkfs
  normal_mkfs-Uses dev fs_type q =
      >>=-Uses Q (run_command (mkfs_command fs_type) (mkfs_args fs_type dev)) (λ stdout. ret tt)
        (run_command-Uses (mkfs_command fs_type) (mkfs_args fs_type dev) q) (λ stdout. tt)

  pub probe_device-Uses :
      (path : String) → Q (Op.command "blkid" ("-p" ∷ path ∷ [])) → Uses Q (probe_device path)
  unfolding probe_device
  probe_device-Uses path q =
      run_with_status_checker-Uses "blkid" ("-p" ∷ path ∷ []) check_probe q (λ c out.
        if-Uses Q (c == 0) (ret (parse_probe out.text)) _ tt
          (if-Uses Q (c == 2) (ret _) (fail Problem.blkid_failed) tt tt))

  pub is_active-Uses :
      (volume : String) → ((path : String) → Q (Op.path_exists path)) → Uses Q (is_active volume)
  unfolding is_active
  is_active-Uses volume q = (q _, λ r. tt)

  busy-Uses : (r : Attempt (Unit {0})) → Uses Q (busy r)
  busy-Uses (good u) = tt
  busy-Uses (bad none) = tt
  busy-Uses (bad (some e)) = if-Uses Q (e == 16) (ret true) (fail _) tt tt

  pub is_dev_in_use-Uses : (dev : String) → Q (Op.open_exclusive dev) → Uses Q (is_dev_in_use dev)
  unfolding is_dev_in_use
  is_dev_in_use-Uses dev q = (q, busy-Uses)

  subsystem-Uses :
      (s : Option (Option (List ℕ)))
      → Uses Q (elim s as (λ _. Program (Option (List ℕ))) [
        | none ↦ fail Problem.invalid_luks2_header
        | some subsystem ↦ ret subsystem
      ])
  subsystem-Uses none = tt
  subsystem-Uses (some s) = tt

  pub get_init_state-Uses :
      (dev : String) → Q (Op.read_first dev header_size) → Uses Q (get_init_state dev)
  unfolding get_init_state get_luks2_subsystem
  get_init_state-Uses dev q =
      >>=-Uses Q (attempt (get_luks2_subsystem dev)) (λ res. ret (classify res))
        (attempt-Uses Q (get_luks2_subsystem dev) (
          q,
          λ r.
              >>=-Uses Q (from_attempt r) _ (from_attempt-Uses Q r)
                (λ buf. subsystem-Uses (subsystem_of buf)),
        ))
        (λ res. tt)

  pub is_initialized-Uses :
      (dev : String) → Q (Op.read_first dev header_size) → Uses Q (is_initialized dev)
  unfolding is_initialized
  is_initialized-Uses dev q =
      >>=-Uses Q (get_init_state dev) (λ state. ret (is_ready state)) (get_init_state-Uses dev q)
        (λ state. tt)

  -- A chain of a call with `?` and what follows.
  pub tried-Uses :
      {A : Type 0} (r : Attempt (Unit {0})) (k : Unit {0} → Program A)
      → Uses Q (k tt)
      → Uses Q (from_attempt r >>= k)
  tried-Uses (good u) k h = h
  tried-Uses (bad e) k h = tt

  pub close-Uses :
      (volume : String)
      → Q (Op.crypt_init_by_name volume)
      → Q (Op.crypt_deactivate volume)
      → Uses Q (close volume)
  unfolding close
  close-Uses volume q d = (q, λ r. tried-Uses r _ (d, from_attempt-Uses Q))

  pub mark-Uses :
      (dev : String)
      → Q (Op.crypt_init dev)
      → Q (Op.crypt_load dev)
      → Q (Op.crypt_set_label dev luks2_subsystem_name)
      → Uses Q (mark_volume_as_initialized dev)
  unfolding mark_volume_as_initialized
  mark-Uses dev i l s = (i, λ r. tried-Uses r _ (l, λ r. tried-Uses r _ (s, from_attempt-Uses Q)))

  pub format-Uses :
      (dev : String) (passphrase : Passphrase) (integrity : IntegrityType)
      → Q (Op.crypt_init dev)
      → Q (Op.crypt_format (format_params dev integrity))
      → Q (Op.crypt_add_key dev (volume_key_size integrity) passphrase)
      → Uses Q (format dev passphrase integrity)
  unfolding format
  format-Uses dev passphrase kind i f a =
      (i, λ r. tried-Uses r _ (f, λ r. tried-Uses r _ (a, from_attempt-Uses Q)))

  pub check_passphrase-Uses :
      (dev : String) (passphrase : Passphrase)
      → Q (Op.crypt_init dev)
      → Q (Op.crypt_load dev)
      → Q (Op.crypt_activate none dev passphrase false)
      → Uses Q (check_passphrase dev passphrase)
  unfolding check_passphrase
  check_passphrase-Uses dev passphrase i l a =
      (i, λ r. tried-Uses r _ (l, λ r. tried-Uses r _ (a, from_attempt-Uses Q)))

  pub get_key-Uses :
      (provider : KeyProviderConfig)
      → ((n : ℕ) → Q (Op.random_bytes n))
      → Q (Op.fetch_key provider)
      → ((program : String) (args : List String)
          → provider ≡ exec program args
          → Q (Op.command program args))
      → Uses Q (get_key provider)
  unfolding get_key random_passphrase
  get_key-Uses otp random fetch command = (random _, λ bytes. tt)
  get_key-Uses tpm2 random fetch command = tt
  get_key-Uses (kms options) random fetch command = (fetch, from_attempt-Uses Q)
  get_key-Uses (kbs options) random fetch command = (fetch, from_attempt-Uses Q)
  get_key-Uses (oidc options) random fetch command = (fetch, from_attempt-Uses Q)
  get_key-Uses (exec program args) random fetch command =
      run_command-Uses program args (command program args refl)

  module _ (exists : (path : String) → Q (Op.path_exists path))
      (modprobe : (args : List String) → Q (Op.command "modprobe" args)) where
    load_module-Uses : (name : String) (args : List String) → Uses Q (load_module name args)
    unfolding load_module is_module_available
    load_module-Uses name args =
        >>=-Uses Q (attempt (run_command "modprobe" (name ∷ args))) _
          (attempt-Uses Q (run_command "modprobe" (name ∷ args))
            (run_command-Uses "modprobe" (name ∷ args) (modprobe (name ∷ args))))
          (λ res. (exists _, λ available. tt))

    pub ensure_module_loaded-Uses :
        (name : String) (args : List String) → Uses Q (ensure_module_loaded name args)
    unfolding ensure_module_loaded is_module_available
    ensure_module_loaded-Uses name args = (
      exists _,
      λ available. if-Uses Q available (ret tt) _ tt (
        exists _,
        λ sbin. if-Uses Q sbin (load_module name args) _ (load_module-Uses name args) (
          exists _,
          λ usr. if-Uses Q usr (load_module name args) (ret tt) (load_module-Uses name args) tt,
        ),
      ),
    )

    pub ensure_integrity_module-Uses :
        (integrity : IntegrityType) → Uses Q (ensure_integrity_module integrity)
    ensure_integrity_module-Uses no_integrity = tt
    ensure_integrity_module-Uses journal = ensure_module_loaded-Uses "dm-integrity" []
    ensure_integrity_module-Uses no_journal = ensure_module_loaded-Uses "dm-integrity" []

    -- The modules that a mapping needs.
    pub modules-Uses :
        {A : Type 0} (integrity : IntegrityType) (k : Unit {0} → Program A)
        → Uses Q (k tt)
        → Uses Q
            (ensure_module_loaded "dm_crypt" [] >>= λ u. ensure_integrity_module integrity >>= k)
    modules-Uses integrity k h =
        >>=-Uses Q (ensure_module_loaded "dm_crypt" []) _ (ensure_module_loaded-Uses "dm_crypt" [])
          (λ u.
            >>=-Uses Q (ensure_integrity_module integrity) k
              (ensure_integrity_module-Uses integrity) (λ v. h))

    pub open_with_check_passphrase-Uses :
        (volume dev : String) (passphrase : Passphrase) (integrity : IntegrityType)
        → Q (Op.crypt_init dev)
        → Q (Op.crypt_load dev)
        → Q (Op.crypt_activate none dev passphrase false)
        → Q (Op.crypt_activate (some volume) dev passphrase (without_journal integrity))
        → Uses Q (open_with_check_passphrase volume dev passphrase integrity)
    unfolding open_with_check_passphrase
    open_with_check_passphrase-Uses volume dev passphrase integrity i l c a =
        modules-Uses integrity _ (
          >>=-Uses Q (check_passphrase dev passphrase) _
            (check_passphrase-Uses dev passphrase i l c)
            (λ u. (i, λ r. tried-Uses r _ (l, λ r. tried-Uses r _ (a, from_attempt-Uses Q)))))
