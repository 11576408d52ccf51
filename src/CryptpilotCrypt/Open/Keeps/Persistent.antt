-- ===== src/CryptpilotCrypt/Open/Keeps/Persistent.antt =====
-- A persistent volume is opened, by cryptpilot-crypt/src/cmd/open.rs, without a change to its data.
use Prim.Native.String.{String}
use text.Mathlib.Text.{◌==◌ as text_eq}
use text.Mathlib.TextPositions.{eq_refl}
use cryptpilot.Prelude.{
  ℕ, Bool, true, false, ◌&&◌, ◌||◌, none, some, List, [], ◌≡◌, refl, ap, ◌∙◌, inl, inr,
}
use cryptpilot.CryptpilotCore.Types.{Passphrase, IntegrityType}
use cryptpilot.CryptpilotCore.System.{Op, Reply, Attempt, good, bad}
use cryptpilot.CryptpilotCore.Program.{Problem, Program, call, ◌>>=◌, from_attempt}
use cryptpilot.CryptpilotCore.Program.Safety.{Safe}
use cryptpilot.CryptpilotCore.Program.Uses.{Uses}
use cryptpilot.CryptpilotCore.Program.Gets.{Gets, >>=-Gets, tried-Gets, ensure-Gets, Uses-Gets}
use cryptpilot.CryptpilotCore.Cmd.{ensure_module_loaded}
use cryptpilot.CryptpilotCore.Provider.{get_key}
use cryptpilot.CryptpilotCore.Luks2.{
  is_initialized, check_passphrase, without_journal, open_with_check_passphrase,
  ensure_integrity_module,
}
use cryptpilot.CryptpilotCore.Luks2.Answers.{shows_final, is_initialized-Gets}
use cryptpilot.CryptpilotCore.Calls.{
  get_key-Uses, ensure_module_loaded-Uses, ensure_integrity_module-Uses,
}
use cryptpilot.CryptpilotCrypt.Config.{VolumeConfig}
use cryptpilot.CryptpilotCrypt.Open.{open_integrity, persistent_disk_open}
use cryptpilot.CryptpilotCrypt.Open.Keeps.{Seen, watch, MayRun, Keeps, open_keeps}

module _ (config : VolumeConfig) where
  -- The calls that are always allowed here and change nothing that was seen to be so.
  abbrev pub Harmless : Op → Type 0
  Harmless (Op.path_exists path) = Unit
  Harmless (Op.open_exclusive dev) = Unit
  Harmless (Op.command program args) = MayRun config.key_provider program
  Harmless (Op.fetch_key provider) = Unit
  Harmless (Op.random_bytes n) = Unit
  Harmless (Op.crypt_init_by_name name) = name ≡ config.volume
  Harmless (Op.crypt_deactivate name) = name ≡ config.volume
  Harmless other = ⊥

  pub Harmless-Keeps : (s : Seen) (op : Op) → Harmless op → Keeps config s op
  Harmless-Keeps s (Op.path_exists path) h = tt
  Harmless-Keeps s (Op.open_exclusive dev) h = tt
  Harmless-Keeps s (Op.command program args) h = h
  Harmless-Keeps s (Op.fetch_key provider) h = tt
  Harmless-Keeps s (Op.random_bytes n) h = tt
  Harmless-Keeps s (Op.crypt_init_by_name name) h = h
  Harmless-Keeps s (Op.crypt_deactivate name) h = h
  Harmless-Keeps s _ h = absurd h

  or_kept : (a b : Bool) → a ≡ true → (a || b) ≡ true
  or_kept a b h = ap (λ c. c || b) h

  abbrev Marked : Seen → Type 0
  Marked s = s.marked ≡ true

  abbrev pub Mapped : Seen → Type 0
  Mapped s = s.mapped ≡ true

  pub Mapped-watch :
      (s : Seen) (op : Op) (r : Reply op) → Harmless op → Mapped s → Mapped (watch config s op r)
  Mapped-watch s (Op.path_exists path) r h k = or_kept s.mapped _ k
  Mapped-watch s (Op.open_exclusive dev) r h k = k
  Mapped-watch s (Op.command program args) r h k = k
  Mapped-watch s (Op.fetch_key provider) r h k = k
  Mapped-watch s (Op.random_bytes n) r h k = k
  Mapped-watch s (Op.crypt_init_by_name name) r h k = k
  Mapped-watch s (Op.crypt_deactivate name) r h k = k
  Mapped-watch s _ r h k = absurd h

  Marked-watch :
      (s : Seen) (op : Op) (r : Reply op) → Harmless op → Marked s → Marked (watch config s op r)
  Marked-watch s (Op.path_exists path) r h k = k
  Marked-watch s (Op.open_exclusive dev) r h k = k
  Marked-watch s (Op.command program args) r h k = k
  Marked-watch s (Op.fetch_key provider) r h k = k
  Marked-watch s (Op.random_bytes n) r h k = k
  Marked-watch s (Op.crypt_init_by_name name) r h k = k
  Marked-watch s (Op.crypt_deactivate name) r h k = k
  Marked-watch s _ r h k = absurd h

  abbrev pub Free : Seen → Type 0
  Free s = Unit

  abbrev pub Safely : {A : Type 0} → (Seen → A → Type 0) → Seen → Program A → Type 0
  Safely T s x = Safe (open_keeps config) (Gets Free T) s x

  -- Harmless calls with what follows, while a fact is kept.
  Harmless-Marked :
      {A B : Type 0} (U : Seen → B → Type 0) (s : Seen) (x : Program A) (f : A → Program B)
      → Uses Harmless x
      → Marked s
      → ((t : Seen) (a : A) → Marked t → Safely U t (f a))
      → Safely U s (x >>= f)
  Harmless-Marked U s x f =
      Uses-Gets (open_keeps config) Free Harmless Marked (λ t op h k. Harmless-Keeps t op h)
        Marked-watch (λ t k. tt) U s x f

  pub Harmless-free :
      {A B : Type 0} (U : Seen → B → Type 0) (s : Seen) (x : Program A) (f : A → Program B)
      → Uses Harmless x
      → ((t : Seen) (a : A) → Safely U t (f a))
      → Safely U s (x >>= f)
  Harmless-free U s x f u go =
      Uses-Gets (open_keeps config) Free Harmless Free (λ t op h k. Harmless-Keeps t op h)
        (λ t op r h k. tt) (λ t k. tt) U s x f u tt (λ t a k. go t a)

  abbrev Unlocked : Seen → Type 0
  Unlocked s = (s.marked ≡ true) × (s.unlocked ≡ true)

  Unlocked-after :
      (s : Seen) (passphrase : Passphrase) (r : Attempt (Unit {0}))
      → Marked s
      → Safely
          (λ t u. Unlocked t)
          (watch config s (Op.crypt_activate none config.dev passphrase false) r)
          (from_attempt r)
  Unlocked-after s passphrase (good u) marked = (marked, refl)
  Unlocked-after s passphrase (bad e) marked = tt

  check_passphrase-Gets :
      (s : Seen) (passphrase : Passphrase)
      → Marked s
      → Safely (λ t u. Unlocked t) s (check_passphrase config.dev passphrase)
  unfolding check_passphrase
  check_passphrase-Gets s passphrase marked = (
    tt,
    λ r.
        tried-Gets (open_keeps config) Free (λ t u. Unlocked t) s r _ tt
          (λ u. (
            tt,
            λ q.
                tried-Gets (open_keeps config) Free (λ t u. Unlocked t) s q _ tt
                  (λ v. ((refl, marked), λ a. Unlocked-after s passphrase a marked)),
          )),
  )

  Mapped-after :
      (s : Seen) (passphrase : Passphrase) (free : Bool) (r : Attempt (Unit {0}))
      → Safely
          (λ t u. Mapped t)
          (watch config s (Op.crypt_activate (some config.volume) config.dev passphrase free) r)
          (from_attempt r)
  Mapped-after s passphrase free (good u) = by_flag s.mapped
    where
      by_flag : (b : Bool) → (b || text_eq config.volume config.volume) ≡ true
      by_flag true = refl
      by_flag false = eq_refl config.volume
  Mapped-after s passphrase free (bad e) = tt

  activate-Gets :
      (s : Seen) (passphrase : Passphrase) (free : Bool)
      → Unlocked s
      → Safely
          (λ t u. Mapped t)
          s
          (call (Op.crypt_init config.dev) from_attempt >>= λ u.
            (call (Op.crypt_load config.dev) from_attempt >>= λ v.
            call (Op.crypt_activate (some config.volume) config.dev passphrase free) from_attempt))
  activate-Gets s passphrase free (marked, unlocked) = (
    tt,
    λ r.
        tried-Gets (open_keeps config) Free (λ t u. Mapped t) s r _ tt
          (λ u. (
            tt,
            λ q.
                tried-Gets (open_keeps config) Free (λ t u. Mapped t) s q _ tt
                  (λ v. ((refl, refl, marked, unlocked), Mapped-after s passphrase free)),
          )),
  )

  modprobe_may : (args : List String) → Harmless (Op.command "modprobe" args)
  modprobe_may args = inl refl

  open-Gets :
      (s : Seen) (passphrase : Passphrase) (integrity : IntegrityType)
      → Marked s
      → Safely
          (λ t u. Mapped t)
          s
          (open_with_check_passphrase config.volume config.dev passphrase integrity)
  unfolding open_with_check_passphrase
  open-Gets s passphrase integrity marked =
      Harmless-Marked (λ t u. Mapped t) s (ensure_module_loaded "dm_crypt" []) _
        (ensure_module_loaded-Uses Harmless (λ path. tt) modprobe_may "dm_crypt" []) marked
        (λ t u marked.
          Harmless-Marked (λ t u. Mapped t) t (ensure_integrity_module integrity) _
            (ensure_integrity_module-Uses Harmless (λ path. tt) modprobe_may integrity) marked
            (λ v w marked.
              >>=-Gets (open_keeps config) Free (λ x y. Unlocked x) (λ x y. Mapped x) v
                (check_passphrase config.dev passphrase) _
                (check_passphrase-Gets v passphrase marked)
                (λ x y unlocked. activate-Gets x passphrase (without_journal integrity) unlocked)))

  marked_after :
      (s : Seen) (r : Attempt (List ℕ))
      → shows_final r ≡ true
      → (s.marked || (text_eq config.dev config.dev && shows_final r)) ≡ true
  marked_after s r h = by_flag s.marked
    where
      by_flag : (b : Bool) → (b || (text_eq config.dev config.dev && shows_final r)) ≡ true
      by_flag true = refl
      by_flag false = ap (λ c. c && shows_final r) (eq_refl config.dev) ∙ h

  get_key-Harmless : Uses Harmless (get_key config.key_provider)
  get_key-Harmless =
      get_key-Uses Harmless config.key_provider (λ n. tt) tt (λ program args e. inr (inr (args, e)))

  pub persistent_disk_open-Gets :
      (s : Seen) → Safely (λ t u. Mapped t) s (persistent_disk_open config)
  unfolding persistent_disk_open
  persistent_disk_open-Gets s =
      >>=-Gets (open_keeps config) Free (λ t b. b ≡ true → Marked t) (λ t u. Mapped t) s
        (is_initialized config.dev) _
        (is_initialized-Gets (open_keeps config) Free (λ t b. b ≡ true → Marked t) s config.dev tt
          (marked_after s))
        (λ t b known.
          ensure-Gets (open_keeps config) Free (λ v u. Mapped v) t b Problem.not_initialized _ tt
            (λ e.
              Harmless-Marked (λ v u. Mapped v) t (get_key config.key_provider) _ get_key-Harmless
                (known e)
                (λ v passphrase marked.
                  open-Gets v passphrase (open_integrity config.extra_config.integrity) marked)))
