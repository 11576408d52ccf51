-- ===== src/CryptpilotCore/Program.antt =====
-- A function of the tools as a program: a tree of calls of the system that branches over every
-- answer, and ends with a value, an error or a panic. A stop in the middle is a prefix of a run.
pub mod Safety
pub mod Uses
pub mod Gets
pub mod Runs
pub mod Faults
use cryptpilot.Prelude.{ℕ, zero, suc, Option, Bool, true, false, List, [], ◌∷◌}
use cryptpilot.CryptpilotCore.System.{Op, Reply, Attempt, good, bad}

-- What the tools say when they give up; the errors of the system are passed on with their number.
pub data Problem : Type 0 where
  outside : Option ℕ → Problem
  bad_exit_code killed_by_signal invalid_luks2_header no_page_size : Problem
  other_signature blkid_failed : Problem
  unknown_volume duplicate_volume parse_failed : Problem
  status_incorrect already_initialized not_a_terminal canceled : Problem
  device_in_use not_initialized filesystem_not_initialized : Problem
  unsupported_metadata temporary_rootfs valuable_data no_mem_total bad_zram_number bad_root_hash :
      Problem
  unexpected_sysroot no_sysroot not_a_directory : Problem
  device_not_found auto_open_not_initialized check_failed not_serialized : Problem

pub data End {ℓ} (A : Type ℓ) : Type ℓ where
  ok : A → End A
  err : Problem → End A
  crashed : End A

pub data Program (A : Type 0) : Type 0 where
  ret : A → Program A
  fail : Problem → Program A
  crash : Program A
  call : (op : Op) → (Reply op → Program A) → Program A

infixl 5 ◌>>=◌ ◌>>◌
abbrev pub ◌>>=◌ : {A B : Type 0} → Program A → (A → Program B) → Program B
ret a >>= f = f a
fail p >>= f = fail p
crash >>= f = crash
call op k >>= f = call op (λ r. k r >>= f)

abbrev pub ◌>>◌ : {B : Type 0} → Program (Unit {0}) → Program B → Program B
m >> k = m >>= λ _. k

-- `?` on the answer of a call.
abbrev pub from_attempt : {A : Type 0} → Attempt A → Program A
from_attempt (good a) = ret a
from_attempt (bad e) = fail (outside e)

-- The result as a value, for a `match` on it. A panic is not caught.
abbrev pub attempt : {A : Type 0} → Program A → Program (End A)
attempt (ret a) = ret (ok a)
attempt (fail p) = ret (err p)
attempt crash = crash
attempt (call op k) = call op (λ r. attempt (k r))

abbrev pub finish : {A : Type 0} → End A → Program A
finish (ok a) = ret a
finish (err p) = fail p
finish crashed = crash

-- The body, and then the `drop` of a value that it owns; the end is the body's.
abbrev pub ends_with : {A B : Type 0} → Program B → End A → Program A
ends_with (ret b) e = finish e
ends_with (fail p) e = finish e
ends_with crash e = crash
ends_with (call op k) e = call op (λ r. ends_with (k r) e)

abbrev pub with_drop : {A B : Type 0} → Program A → Program B → Program A
with_drop (ret a) last = ends_with last (ok a)
with_drop (fail p) last = ends_with last (err p)
with_drop crash last = ends_with last crashed
with_drop (call op k) last = call op (λ r. with_drop (k r) last)

-- `bail!`, unless the test holds.
abbrev pub ensure : Bool → Problem → Program (Unit {0})
ensure true p = ret tt
ensure false p = fail p

-- A run with an environment that answers from its state: what happens, the newest call last.
pub record Machine : Type 1 where
  pub State : Type 0
  pub answer : State → (op : Op) → State × Reply op

abbrev pub run : (m : Machine) {A : Type 0} → m.State → Program A → m.State × End A
run m s (ret a) = (s, ok a)
run m s (fail p) = (s, err p)
run m s crash = (s, crashed)
run m s (call op k) = let (s', r) = m.answer s op in run m s' (k r)

-- A run that is cut off after `n` calls, such as by a loss of power: the state then.
abbrev pub run_for : (m : Machine) {A : Type 0} → ℕ → m.State → Program A → m.State
run_for m n s (ret a) = s
run_for m n s (fail p) = s
run_for m n s crash = s
run_for m zero s (call op k) = s
run_for m (suc n) s (call op k) = let (s', r) = m.answer s op in run_for m n s' (k r)
