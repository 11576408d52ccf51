-- ===== src/CryptpilotCrypt/Init/Closed.antt =====
-- The temporary mapping of cryptpilot-crypt/src/cmd/init.rs does not outlive the initialization.
pub mod Whole
use Prim.Native.String.{String, ◌++◌ as ◌<>◌}
use cryptpilot.Prelude.{◌≡◌, refl, sym, subst, Bool, true, false, not, Option, none, some, []}
use cryptpilot.CryptpilotCore.Types.{Passphrase, IntegrityType, MakeFsType}
use cryptpilot.CryptpilotCore.System.{Op, Reply, Attempt, good, bad}
use cryptpilot.CryptpilotCore.Program.{
  Problem, End, ok, err, crashed, Program, ret, fail, crash, call, ◌>>=◌, ◌>>◌, from_attempt,
  with_drop, ensure,
}
use cryptpilot.CryptpilotCore.Program.Safety.{Monitor, Safe, >>=-Safe, with_drop-Safe}
use cryptpilot.CryptpilotCore.Program.Uses.{
  Uses, >>=-Uses, ensure-Uses, from_attempt-Uses, Uses-Safe, Uses-weaken,
}
use cryptpilot.CryptpilotCore.Luks2.{
  format, with_temp_luks_volume, open_with_check_passphrase, close, mark_volume_as_initialized,
  is_dev_in_use, check_passphrase, ensure_integrity_module, without_journal,
}
use cryptpilot.CryptpilotCore.Cmd.{ensure_module_loaded}
use cryptpilot.CryptpilotCore.Provider.{get_key}
use cryptpilot.CryptpilotCore.Calls.{
  is_dev_in_use-Uses, get_key-Uses, check_passphrase-Uses, modules-Uses, mark-Uses, format-Uses,
  ensure_module_loaded-Uses, ensure_integrity_module-Uses, tried-Uses,
}
use cryptpilot.CryptpilotCore.Mkfs.{TraceApi, force_mkfs}
use cryptpilot.CryptpilotCore.Mkfs.Calls.{Plain, force_mkfs-Plain}
use cryptpilot.CryptpilotCrypt.Config.{VolumeConfig}
use cryptpilot.CryptpilotCrypt.Show.{
  VolumeStatusKind, device_not_found, check_failed, requires_init, initializing, ready_to_open,
  opened, determine_status,
}
use cryptpilot.CryptpilotCrypt.Show.Status.{determine_status-Uses}
use cryptpilot.CryptpilotCrypt.Init.{
  InitOptions, check_status, ask_user, ask, init_integrity, init_filesystem, write_volume,
  persistent_disk_init,
}

-- The mapping that is there, if any. A close asks for the device by the name of the mapping, and then
-- for its removal; if the device is not found, there is nothing more to do.
abbrev MayMap : Option String → Op → Type 0
MayMap s (Op.crypt_activate (some name) dev passphrase flag) = s ≡ none
MayMap s (Op.crypt_init_by_name name) = s ≡ some name
MayMap s (Op.crypt_deactivate name) = s ≡ some name
MayMap s other = Unit

abbrev follow : Option String → (op : Op) → Reply op → Option String
follow s (Op.crypt_activate (some name) dev passphrase flag) (good u) = some name
follow s (Op.crypt_activate (some name) dev passphrase flag) (bad e) = s
follow s (Op.crypt_init_by_name name) (good u) = s
follow s (Op.crypt_init_by_name name) (bad e) = none
follow s (Op.crypt_deactivate name) r = none
follow s other r = s

abbrev pub mapping : Monitor
mapping = record { State = Option String; Allowed = MayMap; next = follow }

-- No run leaves a mapping behind that it did not try to remove, and none is there when another one is
-- made.
abbrev pub Closed : {A : Type 0} → Option String → End A → Type 0
Closed s end = s ≡ none

-- The calls that neither make nor remove a mapping.
abbrev pub Unmapped : Op → Type 0
Unmapped (Op.crypt_activate (some name) dev passphrase flag) = ⊥
Unmapped (Op.crypt_init_by_name name) = ⊥
Unmapped (Op.crypt_deactivate name) = ⊥
Unmapped other = Unit

module _ (held : Option String) where
  abbrev pub Held : Option String → Type 0
  Held s = s ≡ held

  allow : (s : Option String) (op : Op) → Unmapped op → Held s → MayMap s op
  allow s (Op.crypt_activate (some name) dev passphrase flag) u i = absurd u
  allow s (Op.crypt_init_by_name name) u i = absurd u
  allow s (Op.crypt_deactivate name) u i = absurd u
  allow s _ u i = tt

  keep : (s : Option String) (op : Op) (r : Reply op) → Unmapped op → Held s → Held (follow s op r)
  keep s (Op.crypt_activate (some name) dev passphrase flag) r u i = absurd u
  keep s (Op.crypt_init_by_name name) r u i = absurd u
  keep s (Op.crypt_deactivate name) r u i = absurd u
  keep s _ r u i = i

  pub still : {A : Type 0} (p : Program A) → Uses Unmapped p → Safe mapping (λ s e. Held s) held p
  still p u = Uses-Safe mapping Unmapped Held allow keep held p u refl

-- Calls without a mapping, and what follows.
module _ {B : Type 0} (Q : Option String → End B → Type 0) (stop : (p : Problem) → Q none (err p))
    (panic : Q none crashed) where
  pub calm_then :
      {A : Type 0} (p : Program A) (f : A → Program B)
      → Uses Unmapped p
      → ((a : A) → Safe mapping Q none (f a))
      → Safe mapping Q none (p >>= f)
  calm_then p f u go =
      >>=-Safe mapping (λ s e. s ≡ none) Q none p f (still none p u)
        (
          λ s a same. subst (λ t. Safe mapping Q t (f a)) (sym same) (go a),
          λ s e same. subst (λ t. Q t (err e)) (sym same) (stop e),
          λ s same. subst (λ t. Q t crashed) (sym same) panic,
        )

  tried_then :
      (r : Attempt (Unit {0})) (k : Unit {0} → Program B)
      → Safe mapping Q none (k tt)
      → Safe mapping Q none (from_attempt r >>= k)
  tried_then (good u) k h = h
  tried_then (bad e) k h = stop _

module _ (name : String) where
  abbrev pub Opened : Option String → End (Unit {0}) → Type 0
  Opened s (ok u) = s ≡ some name
  Opened s (err p) = s ≡ none
  Opened s crashed = s ≡ none

  activated :
      (dev : String) (passphrase : Passphrase) (flag : Bool) (r : Attempt (Unit {0}))
      → Safe mapping Opened
          (follow none (Op.crypt_activate (some name) dev passphrase flag) r)
          (from_attempt r)
  activated dev passphrase flag (good u) = refl
  activated dev passphrase flag (bad e) = refl

  pub open-Safe :
      (dev : String) (passphrase : Passphrase) (integrity : IntegrityType)
      → Safe mapping Opened none (open_with_check_passphrase name dev passphrase integrity)
  unfolding open_with_check_passphrase
  open-Safe dev passphrase integrity =
      calm_then Opened (λ p. refl) refl (ensure_module_loaded "dm_crypt" []) _
        (ensure_module_loaded-Uses Unmapped (λ path. tt) (λ args. tt) "dm_crypt" [])
        (λ u.
          calm_then Opened (λ p. refl) refl (ensure_integrity_module integrity) _
            (ensure_integrity_module-Uses Unmapped (λ path. tt) (λ args. tt) integrity)
            (λ v.
              calm_then Opened (λ p. refl) refl (check_passphrase dev passphrase) _
                (check_passphrase-Uses Unmapped dev passphrase tt tt tt)
                (λ w. (
                  tt,
                  λ r.
                      tried_then Opened (λ p. refl) refl r _
                        (
                          tt,
                          λ q.
                              tried_then Opened (λ p. refl) refl q _
                                (refl, λ a. activated dev passphrase (without_journal integrity) a),
                        ),
                ))))

  -- The end of the close, after which no mapping is left.
  abbrev Gone : {A : Type 0} → Option String → End A → Type 0
  Gone s end = (end ≡ crashed → s ≡ none) × (s ≡ none)

  removed : (r : Attempt (Unit {0})) → Safe mapping Gone none (from_attempt r)
  removed (good u) = (λ e. refl, refl)
  removed (bad p) = (λ e. refl, refl)

  looked_up :
      (r : Attempt (Unit {0}))
      → Safe mapping Gone
          (follow (some name) (Op.crypt_init_by_name name) r)
          (from_attempt r >>= λ u. call (Op.crypt_deactivate name) from_attempt)
  looked_up (good u) = (refl, removed)
  looked_up (bad e) = (λ p. refl, refl)

  close-Safe : Safe mapping Gone (some name) (close name)
  unfolding close
  close-Safe = (refl, looked_up)

  Unmapped-Plain : (op : Op) → Plain op → Unmapped op
  Unmapped-Plain (Op.crypt_activate (some n) dev passphrase flag) h = h
  Unmapped-Plain (Op.crypt_init_by_name n) h = h
  Unmapped-Plain (Op.crypt_deactivate n) h = h
  Unmapped-Plain _ h = tt

  pub dropped :
      (body : Program (Unit {0}))
      → Uses Plain body
      → Safe mapping Closed (some name) (with_drop body (close name))
  dropped body plain =
      with_drop-Safe mapping (λ s e. s ≡ some name) Closed (some name) body (close name)
        (still (some name) body (Uses-weaken Plain Unmapped body Unmapped-Plain plain))
        (λ s e same. subst (λ t. Safe mapping Gone t (close name)) (sym same) close-Safe)
