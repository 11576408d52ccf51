-- ===== src/CryptpilotCore/Cmd.antt =====
-- cryptpilot-core/src/fs/cmd.rs and fs/kernel_module.rs: other programs, and kernel modules.
pub mod Answers
use Prim.Native.String.{String, ◌++◌ as ◌<>◌}
use Prim.Native.Char.{code}
use cryptpilot.Prelude.{ℕ, Bool, Option, none, some, List, ◌∷◌, ◌==◌, if◌then◌else◌}
use cryptpilot.CryptpilotCore.System.{Op, Output}
use cryptpilot.CryptpilotCore.Program.{
  Problem, Program, ret, fail, call, ◌>>=◌, from_attempt, attempt,
}

abbrev pub check_status : {A : Type 0} → (ℕ → Output → Program A) → Output → Option ℕ → Program A
check_status checker out none = fail Problem.killed_by_signal
check_status checker out (some code) = checker code out

-- `run_with_status_checker`.
abbrev pub run_with_status_checker :
    {A : Type 0} → String → List String → (ℕ → Output → Program A) → Program A
run_with_status_checker program args checker =
    call (Op.command program args) λ r. from_attempt r >>= λ out. check_status checker out out.code

abbrev pub expect_zero : ℕ → Output → Program (List ℕ)
expect_zero c out = if c == 0 then ret out.stdout else fail Problem.bad_exit_code

-- `run`.
unfoldable pub run_command : String → List String → Program (List ℕ)
run_command program args = run_with_status_checker program args expect_zero

-- `name.replace('-', "_")`.
abbrev pub underscored : String → String
underscored String.[] = ""
underscored (String.◌∷◌ c s) =
    (if code c == b'-' then String.◌∷◌ "_" (underscored s) else String.◌∷◌ c (underscored s))

unfoldable pub is_module_available : String → Program Bool
is_module_available name = call (Op.path_exists ("/sys/module/" <> underscored name)) ret

-- The last look is for the log only.
unfoldable pub load_module : String → List String → Program (Unit {0})
load_module name args = do
  res ← attempt (run_command "modprobe" (name ∷ args))
  available ← is_module_available name
  ret tt

-- `ensure_module_loaded`: it never fails.
unfoldable pub ensure_module_loaded : String → List String → Program (Unit {0})
ensure_module_loaded name args = do
  available ← is_module_available name
  if available
      then ret tt
      else call (Op.path_exists "/sbin/modprobe") λ sbin.
        if sbin
        then load_module name args
        else call (Op.path_exists "/usr/sbin/modprobe")
            λ usr_sbin. if usr_sbin then load_module name args else ret tt
