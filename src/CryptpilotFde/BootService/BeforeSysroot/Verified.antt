-- ===== src/CryptpilotFde/BootService/BeforeSysroot/Verified.antt =====
-- The stage before the mount of /sysroot keeps its guard (cryptpilot-fde/src/cmd/boot_service/stage/
-- before_sysroot.rs).
use Prim.Native.String.{String}
use text.Mathlib.Text.{◌==◌ as text_eq}
use text.Mathlib.TextPositions.{eq_refl}
use cryptpilot.Prelude.{
  ℕ, Bool, true, false, ◌&&◌, ◌||◌, Option, none, some, List, [], ◌∷◌, ◌≡◌, refl, sym, subst, ap,
  ◌∙◌,
}
use cryptpilot.CryptpilotCore.Types.{
  no_integrity, VolumeType, temporary, persistent, KeyProviderConfig,
}
use cryptpilot.CryptpilotCore.System.{Op, Reply, Attempt, good, bad}
use cryptpilot.CryptpilotCore.Program.{Problem, Program, ret, ◌>>=◌, from_attempt}
use cryptpilot.CryptpilotCore.Program.Safety.{Safe}
use cryptpilot.CryptpilotCore.Program.Uses.{Uses, >>=-Uses}
use cryptpilot.CryptpilotCore.Program.Gets.{Gets, Uses-Gets, Uses-last}
use cryptpilot.CryptpilotCore.Cmd.{run_command, ensure_module_loaded}
use cryptpilot.CryptpilotCore.Calls.{
  ensure_module_loaded-Uses, get_key-Uses, open_with_check_passphrase-Uses,
}
use cryptpilot.CryptpilotCore.Cmd.Answers.{succeeded, raised, run_silently-Gets}
use cryptpilot.CryptpilotCore.Provider.{volume_type, get_key}
use cryptpilot.CryptpilotCore.Mkfs.Calls.{Unmarked}
use cryptpilot.CryptpilotFde.Config.{FdeConfig, backend_of}
use cryptpilot.CryptpilotFde.BootService.Metadata.{
  Metadata, Formats, or_fail, metadata_path_in_initrd, load_metadata_from_file,
}
use cryptpilot.CryptpilotFde.BootService.BeforeSysroot.{
  verity_output, lower_device, setup_rootfs_dm_verity, not_temporary, setup_rootfs_crypt,
}
use cryptpilot.CryptpilotFde.BootService.BeforeSysroot.Guard.{
  Boot, texts_eq, texts_eq_refl, rewritten, root_of, verity_args, verified_mapping,
  lower_device-rootfs_data, verity_output-verified_mapping, opens_verity, observe, Guarded,
  boot_guard,
}

abbrev pub Verified : Boot → Type 0
Verified s = s.verified ≡ true

abbrev pub Free : Boot → Type 0
Free s = Unit

or_kept : (a b : Bool) → a ≡ true → (a || b) ≡ true
or_kept a b h = ap (λ c. c || b) h

-- The calls before the rootfs is verified.
abbrev pub Early : Op → Type 0
Early (Op.crypt_format params) = ⊥
Early (Op.crypt_add_key dev size passphrase) = ⊥
Early (Op.crypt_set_label dev label) = ⊥
Early (Op.write_page dev offset bytes) = ⊥
Early (Op.read_to_string path) = ⊥
Early other = Unit

module _ (t : Formats) (config : FdeConfig) where
  abbrev pub Runs : {A : Type 0} → (Boot → A → Type 0) → Boot → Program A → Type 0
  Runs T s x = Safe (boot_guard t config) (Gets Free T) s x

  Verified-observe :
      (s : Boot) (op : Op) (r : Reply op)
      → Unmarked op
      → Verified s
      → Verified (observe t config s op r)
  Verified-observe s (Op.command program args) r u h = or_kept s.verified _ h
  Verified-observe s (Op.read_to_string path) r u h = h
  Verified-observe s _ r u h = h

  Verified-allowed : (s : Boot) (op : Op) → Unmarked op → Verified s → Guarded config s op
  Verified-allowed s (Op.crypt_format params) u h = absurd u
  Verified-allowed s (Op.crypt_add_key dev size passphrase) u h = absurd u
  Verified-allowed s (Op.crypt_set_label dev label) u h = absurd u
  Verified-allowed s (Op.write_page dev offset bytes) u h = h
  Verified-allowed s _ u h = tt

  Early-allowed : (s : Boot) (op : Op) → Early op → Guarded config s op
  Early-allowed s (Op.crypt_format params) u = absurd u
  Early-allowed s (Op.crypt_add_key dev size passphrase) u = absurd u
  Early-allowed s (Op.crypt_set_label dev label) u = absurd u
  Early-allowed s (Op.write_page dev offset bytes) u = absurd u
  Early-allowed s _ u = tt

  abbrev pub Rooted : String → Boot → Type 0
  Rooted h s = s.root ≡ some h

  pub Rooted-observe :
      (h : String) (s : Boot) (op : Op) (r : Reply op)
      → Early op
      → Rooted h s
      → Rooted h (observe t config s op r)
  Rooted-observe h s (Op.read_to_string path) r u k = absurd u
  Rooted-observe h s (Op.command program args) r u k = k
  Rooted-observe h s _ r u k = k

  -- Calls that touch no header, once the rootfs is verified.
  pub Verified-then :
      {A B : Type 0} (U : Boot → B → Type 0) (s : Boot) (x : Program A) (f : A → Program B)
      → Uses Unmarked x
      → Verified s
      → ((v : Boot) (a : A) → Verified v → Runs U v (f a))
      → Runs U s (x >>= f)
  Verified-then U s x f =
      Uses-Gets (boot_guard t config) Free Unmarked Verified Verified-allowed Verified-observe
        (λ v h. tt) U s x f

  pub Verified-last :
      (s : Boot) (x : Program (Unit {0}))
      → Uses Unmarked x
      → Verified s
      → Runs (λ v u. Verified v) s x
  Verified-last s x u h =
      Uses-last (boot_guard t config) Free Unmarked Verified Verified-allowed Verified-observe
        (λ v h. tt) (λ v u. Verified v) s x u h (λ v a k. k)

  pub Early-then :
      {A B : Type 0} (U : Boot → B → Type 0) (h : String) (s : Boot) (x : Program A)
      (f : A → Program B)
      → Uses Early x
      → Rooted h s
      → ((v : Boot) (a : A) → Rooted h v → Runs U v (f a))
      → Runs U s (x >>= f)
  Early-then U h s x f =
      Uses-Gets (boot_guard t config) Free Early (Rooted h) (λ v op e k. Early-allowed v op e)
        (Rooted-observe h) (λ v k. tt) U s x f

  pub first_then :
      {A B : Type 0} (U : Boot → B → Type 0) (s : Boot) (x : Program A) (f : A → Program B)
      → Uses Early x
      → ((v : Boot) (a : A) → Runs U v (f a))
      → Runs U s (x >>= f)
  first_then U s x f e go =
      Uses-Gets (boot_guard t config) Free Early Free (λ v op e k. Early-allowed v op e)
        (λ v op r e k. tt) (λ v k. tt) U s x f e tt (λ v a k. go v a)

  abbrev pub HasRoot : Boot → Metadata → Type 0
  HasRoot v m = v.root ≡ some m.root_hash

  by_hex :
      (v : Boot) (m : Metadata) (o : Option (List ℕ))
      → v.root ≡ rewritten t o
      → Runs HasRoot v (
          or_fail o Problem.bad_root_hash
          >>= (λ bytes. ret (record m { root_hash = t.hex_encode bytes })))
  by_hex v m none e = tt
  by_hex v m (some bytes) e = e

  by_parse :
      (v : Boot) (o : Option Metadata)
      → v.root ≡ elim o as (λ _. Option String) [
        | none ↦ none
        | some m ↦ rewritten t (t.hex_decode m.root_hash)
      ]
      → Runs HasRoot v (
          or_fail o Problem.parse_failed >>= (λ m.
            or_fail (t.hex_decode m.root_hash) Problem.bad_root_hash
            >>= (λ bytes. ret (record m { root_hash = t.hex_encode bytes }))))
  by_parse v none e = tt
  by_parse v (some m) e = by_hex v m (t.hex_decode m.root_hash) e

  -- The state knows the root hash that is returned.
  pub load_metadata-Gets :
      (s : Boot) → Runs HasRoot s (load_metadata_from_file t metadata_path_in_initrd)
  unfolding load_metadata_from_file
  load_metadata-Gets s = (tt, by_answer)
    where
      after_read :
          (b : Bool) (r : Attempt String)
          → b ≡ true
          → (elim b as (λ _. Option String) [ true ↦ root_of t r | false ↦ s.root ]) ≡ root_of t r
      after_read true r e = refl
      after_read false r e = cc e

      by_answer :
          (r : Attempt String)
          → Runs HasRoot (observe t config s (Op.read_to_string metadata_path_in_initrd) r) (
              from_attempt r >>= (λ content.
                or_fail (t.parse_metadata content) Problem.parse_failed >>= (λ m.
                  or_fail (t.hex_decode m.root_hash) Problem.bad_root_hash
                  >>= (λ bytes. ret (record m { root_hash = t.hex_encode bytes })))))
      by_answer (good content) = by_parse _ (t.parse_metadata content) (
          after_read (text_eq metadata_path_in_initrd metadata_path_in_initrd) (good content)
            (eq_refl metadata_path_in_initrd))
      by_answer (bad e) = tt

  opens : (h : String) → opens_verity config (some h) "veritysetup" (verity_args config h) ≡ true
  opens h =
      ap (λ b. b && texts_eq (verity_args config h) (verity_args config h)) (eq_refl "veritysetup")
      ∙ texts_eq_refl (verity_args config h)

  veritysetup-Gets :
      (s : Boot) (h : String)
      → Rooted h s
      → Runs
          (λ v u. Verified v)
          s
          (run_command "veritysetup" (verity_args config h) >>= (λ stdout. ret tt))
  veritysetup-Gets s h k =
      run_silently-Gets (boot_guard t config) Free Verified s "veritysetup" (verity_args config h)
        tt (λ r. tt)
        (λ r done.
          raised s.verified (opens_verity config s.root "veritysetup" (verity_args config h))
            (succeeded r)
            (ap (λ o. opens_verity config o "veritysetup" (verity_args config h)) k ∙ opens h) done)

  pub modules-Early : (name : String) → Uses Early (ensure_module_loaded name [])
  modules-Early name = ensure_module_loaded-Uses Early (λ path. tt) (λ args. tt) name []

  same_args :
      (h : String)
      → verity_args config h
        ≡ "open"
          ∷ lower_device config.rootfs.encrypt
          ∷ (verity_output (backend_of config.rootfs.delta_backend)).0
          ∷ "/dev/mapper/cryptpilot-rootfs_hash"
          ∷ h
          ∷ []
  same_args h =
      ap
        (λ device.
          "open"
          ∷ device
          ∷ verified_mapping (backend_of config.rootfs.delta_backend)
          ∷ "/dev/mapper/cryptpilot-rootfs_hash"
          ∷ h
          ∷ [])
        (sym (lower_device-rootfs_data config.rootfs.encrypt))
      ∙ ap
          (λ name.
            "open"
            ∷ lower_device config.rootfs.encrypt
            ∷ name
            ∷ "/dev/mapper/cryptpilot-rootfs_hash"
            ∷ h
            ∷ [])
          (sym (verity_output-verified_mapping (backend_of config.rootfs.delta_backend)))

  pub verity-Gets :
      (s : Boot) (h : String)
      → Rooted h s
      → Runs
          (λ v u. Verified v)
          s
          (setup_rootfs_dm_verity
            (verity_output (backend_of config.rootfs.delta_backend)).0
            h
            (lower_device config.rootfs.encrypt))
  unfolding setup_rootfs_dm_verity
  verity-Gets s h k =
      Early-then (λ v u. Verified v) h s (ensure_module_loaded "dm-verity" []) _
        (modules-Early "dm-verity") k
        (λ v u rooted.
          subst
            (λ args.
              Runs (λ w u. Verified w) v (run_command "veritysetup" args >>= λ stdout. ret tt))
            (same_args h) (veritysetup-Gets v h rooted))

  not_temporary-Early : (kind : VolumeType) → Uses Early (not_temporary kind)
  not_temporary-Early temporary = tt
  not_temporary-Early persistent = tt

  pub crypt-Early : (o : Option KeyProviderConfig) → Uses Early (setup_rootfs_crypt o)
  unfolding setup_rootfs_crypt
  crypt-Early none = tt
  crypt-Early (some provider) =
      >>=-Uses Early (not_temporary (volume_type provider)) _
        (not_temporary-Early (volume_type provider))
        (λ u.
          >>=-Uses Early (get_key provider) _
            (get_key-Uses Early provider (λ n. tt) tt (λ program args e. tt))
            (λ passphrase.
              open_with_check_passphrase-Uses Early (λ path. tt) (λ args. tt) _ _ passphrase
                no_integrity tt tt tt tt))
