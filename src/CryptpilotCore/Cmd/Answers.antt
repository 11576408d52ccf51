-- ===== src/CryptpilotCore/Cmd/Answers.antt =====
-- When a program counts as successful for `run` of cryptpilot-core/src/fs/cmd.rs.
use Prim.Native.String.{String}
use cryptpilot.Prelude.{
  ℕ, Bool, true, false, Option, none, some, List, ◌==◌, ◌≡◌, refl, ap, ◌∙◌, if◌then◌else◌, ◌&&◌,
  ◌||◌,
}
use cryptpilot.CryptpilotCore.System.{Op, Attempt, good, bad, Output}
use cryptpilot.CryptpilotCore.Program.{Problem, ret, fail, ◌>>=◌, from_attempt}
use cryptpilot.CryptpilotCore.Program.Safety.{Monitor, Safe}
use cryptpilot.CryptpilotCore.Program.Gets.{Gets, >>=-Gets}
use cryptpilot.CryptpilotCore.Cmd.{check_status, expect_zero, run_command}

abbrev pub exit_zero : Option ℕ → Bool
exit_zero none = false
exit_zero (some code) = code == 0

abbrev pub succeeded : Attempt Output → Bool
succeeded (good out) = exit_zero out.code
succeeded (bad e) = false

module _ (m : Monitor) (E : m.State → Type 0) (T : m.State → Type 0) (s : m.State)
    (program : String) (args : List String) where
  abbrev after_run : Attempt Output → m.State
  after_run r = m.next s (Op.command program args) r

  by_exit :
      (out : Output) (z : Bool)
      → E (after_run (good out))
      → (z ≡ true → T (after_run (good out)))
      → Safe m
          (Gets E (λ t stdout. T t))
          (after_run (good out))
          (if z then ret out.stdout else fail Problem.bad_exit_code)
  by_exit out true e h = h refl
  by_exit out false e h = e

  by_code :
      (out : Output) (code : Option ℕ)
      → E (after_run (good out))
      → (exit_zero code ≡ true → T (after_run (good out)))
      → Safe m (Gets E (λ t stdout. T t)) (after_run (good out)) (check_status expect_zero out code)
  by_code out none e h = e
  by_code out (some c) e h = by_exit out (c == 0) e h

  -- `run` returns the output only of a program that ended with 0.
  pub run_command-Gets :
      m.Allowed s (Op.command program args)
      → ((r : Attempt Output) → E (after_run r))
      → ((r : Attempt Output) → succeeded r ≡ true → T (after_run r))
      → Safe m (Gets E (λ t stdout. T t)) s (run_command program args)
  unfolding run_command
  run_command-Gets may failed done = (may, by_answer)
    where
      by_answer :
          (r : Attempt Output)
          → Safe m
              (Gets E (λ t stdout. T t))
              (after_run r)
              (from_attempt r >>= (λ out. check_status expect_zero out out.code))
      by_answer (good out) = by_code out out.code (failed (good out)) (done (good out))
      by_answer (bad e) = failed (bad e)

  -- The same where the output is not read.
  pub run_silently-Gets :
      m.Allowed s (Op.command program args)
      → ((r : Attempt Output) → E (after_run r))
      → ((r : Attempt Output) → succeeded r ≡ true → T (after_run r))
      → Safe m
          (Gets E (λ t (u : Unit {0}). T t))
          s
          (run_command program args >>= (λ stdout. ret tt))
  run_silently-Gets may failed done =
      >>=-Gets m E (λ t stdout. T t) (λ t u. T t) s (run_command program args) (λ stdout. ret tt)
        (run_command-Gets may failed done) (λ t stdout h. h)

-- A flag that a successful run of the right program raises.
pub raised : (a b c : Bool) → b ≡ true → c ≡ true → (a || (b && c)) ≡ true
raised false b c hb hc = ap (λ x. x && c) hb ∙ hc
raised true b c hb hc = refl
