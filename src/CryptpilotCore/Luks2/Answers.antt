-- ===== src/CryptpilotCore/Luks2/Answers.antt =====
-- What the answers of the system make the checks of cryptpilot-core/src/fs/luks2.rs return.
use Prim.Native.String.{String}
use cryptpilot.Prelude.{
  ℕ, Bool, true, false, Option, none, some, List, if◌then◌else◌, ◌==◌, ◌≡◌, refl, sym, subst,
  bytes_eq,
}
use cryptpilot.Prelude.Text.{codes}
use cryptpilot.CryptpilotCore.System.{Op, Attempt, good, bad}
use cryptpilot.CryptpilotCore.Program.{
  Problem, Program, ret, fail, ◌>>=◌, attempt, from_attempt, ok,
}
use cryptpilot.CryptpilotCore.Program.Safety.{Monitor, Safe}
use cryptpilot.CryptpilotCore.Program.Gets.{Gets, >>=-Gets}
use cryptpilot.CryptpilotCore.Luks2.Header.{header_size, subsystem_of}
use cryptpilot.CryptpilotCore.Luks2.{
  VolumeInitState, no_marker, ready, is_ready, classify, get_luks2_subsystem, get_init_state,
  is_initialized, busy, is_dev_in_use,
}

-- The state that a header stands for: what cannot be read, or is no header of LUKS2, has no marker.
abbrev pub of_header : Option (Option (List ℕ)) → VolumeInitState
of_header none = no_marker
of_header (some subsystem) = classify (ok subsystem)

abbrev pub state_of : Attempt (List ℕ) → VolumeInitState
state_of (good buf) = of_header (subsystem_of buf)
state_of (bad e) = no_marker

-- The header is one of LUKS2 whose label is "cryptpilot".
abbrev is_final : Option (Option (List ℕ)) → Bool
is_final none = false
is_final (some none) = false
is_final (some (some subsystem)) = bytes_eq subsystem (codes "cryptpilot")

abbrev pub shows_final : Attempt (List ℕ) → Bool
shows_final (good buf) = is_final (subsystem_of buf)
shows_final (bad e) = false

of_header-is_final : (o : Option (Option (List ℕ))) → is_ready (of_header o) ≡ is_final o
unfolding classify
of_header-is_final none = refl
of_header-is_final (some none) = refl
of_header-is_final (some (some subsystem)) =
    by_tests (bytes_eq subsystem (codes "cryptpilot"))
      (bytes_eq subsystem (codes "cryptpilot-initializing"))
  where
    by_tests :
        (final begun : Bool)
        → is_ready
            (if final then ready else if begun then VolumeInitState.initializing else no_marker)
          ≡ final
    by_tests true begun = refl
    by_tests false true = refl
    by_tests false false = refl

state_of-shows_final : (r : Attempt (List ℕ)) → is_ready (state_of r) ≡ shows_final r
state_of-shows_final (good buf) = of_header-is_final (subsystem_of buf)
state_of-shows_final (bad e) = refl

module _ (m : Monitor) (E : m.State → Type 0) where
  module _ (T : m.State → VolumeInitState → Type 0) (t : m.State) where
    by_header :
        (o : Option (Option (List ℕ)))
        → T t (of_header o)
        → Safe m (Gets E T) t (
            attempt (elim o as (λ _. Program (Option (List ℕ))) [
              | none ↦ fail Problem.invalid_luks2_header
              | some subsystem ↦ ret subsystem
            ])
            >>= λ res. ret (classify res))
    unfolding classify
    by_header none h = h
    by_header (some subsystem) h = h

    by_bytes :
        (r : Attempt (List ℕ))
        → T t (state_of r)
        → Safe m (Gets E T) t (
            attempt (
              from_attempt r >>= (λ buf.
                elim (subsystem_of buf) as (λ _. Program (Option (List ℕ))) [
                  | none ↦ fail Problem.invalid_luks2_header
                  | some subsystem ↦ ret subsystem
                ]))
            >>= λ res. ret (classify res))
    unfolding classify
    by_bytes (good buf) h = by_header (subsystem_of buf) h
    by_bytes (bad e) h = h

  pub get_init_state-Gets :
      (T : m.State → VolumeInitState → Type 0) (s : m.State) (dev : String)
      → m.Allowed s (Op.read_first dev header_size)
      → ((r : Attempt (List ℕ)) → T (m.next s (Op.read_first dev header_size) r) (state_of r))
      → Safe m (Gets E T) s (get_init_state dev)
  unfolding get_init_state get_luks2_subsystem
  get_init_state-Gets T s dev may go =
      (may, λ r. by_bytes T (m.next s (Op.read_first dev header_size) r) r (go r))

  pub is_initialized-Gets :
      (T : m.State → Bool → Type 0) (s : m.State) (dev : String)
      → m.Allowed s (Op.read_first dev header_size)
      → ((r : Attempt (List ℕ)) → T (m.next s (Op.read_first dev header_size) r) (shows_final r))
      → Safe m (Gets E T) s (is_initialized dev)
  unfolding is_initialized
  is_initialized-Gets T s dev may go =
      >>=-Gets m E (λ t state. T t (is_ready state)) T s (get_init_state dev) _
        (get_init_state-Gets (λ t state. T t (is_ready state)) s dev may
          (λ r.
            subst (T (m.next s (Op.read_first dev header_size) r)) (sym (state_of-shows_final r))
              (go r)))
        (λ t state h. h)

  by_busy :
      (T : m.State → Bool → Type 0) (t : m.State) (e : ℕ) (b : Bool)
      → T t true
      → E t
      → Safe m (Gets E T) t (if b then ret true else fail (Problem.outside (some e)))
  by_busy T t e true h f = h
  by_busy T t e false h f = f

  -- The device is not in use only if it could be opened exclusively.
  pub is_dev_in_use-Gets :
      (T : m.State → Bool → Type 0) (s : m.State) (dev : String)
      → m.Allowed s (Op.open_exclusive dev)
      → ((u : Unit {0}) → T (m.next s (Op.open_exclusive dev) (good u)) false)
      → ((e : Option ℕ) → T (m.next s (Op.open_exclusive dev) (bad e)) true)
      → ((e : Option ℕ) → E (m.next s (Op.open_exclusive dev) (bad e)))
      → Safe m (Gets E T) s (is_dev_in_use dev)
  unfolding is_dev_in_use
  is_dev_in_use-Gets T s dev may free used failed = (may, by_answer)
    where
      by_answer :
          (r : Attempt (Unit {0})) → Safe m (Gets E T) (m.next s (Op.open_exclusive dev) r) (busy r)
      by_answer (good u) = free u
      by_answer (bad none) = failed none
      by_answer (bad (some e)) = by_busy T _ e (e == 16) (used (some e)) (failed (some e))
