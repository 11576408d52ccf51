-- ===== src/CryptpilotCore/Program/Faults.antt =====
-- Programs of cryptpilot that end without an error, whatever the system replies.
use cryptpilot.Prelude.{Bool, true, false, if◌then◌else◌}
use cryptpilot.CryptpilotCore.Program.{Program, ret, fail, crash, call, ◌>>=◌, attempt}

-- No run ends with an error. A panic is not an error.
abbrev pub NeverFails : {A : Type 0} → Program A → Type 0
NeverFails (ret a) = Unit
NeverFails (fail p) = ⊥
NeverFails crash = Unit
NeverFails (call op k) = (r : _) → NeverFails (k r)

pub >>=-NeverFails :
    {A B : Type 0} (p : Program A) (f : A → Program B)
    → NeverFails p
    → ((a : A) → NeverFails (f a))
    → NeverFails (p >>= f)
>>=-NeverFails (ret a) f h go = go a
>>=-NeverFails (fail p) f h go = absurd h
>>=-NeverFails crash f h go = tt
>>=-NeverFails (call op k) f h go = λ r. >>=-NeverFails (k r) f (h r) go

-- A result that is matched on is not passed on.
pub attempt-NeverFails : {A : Type 0} (p : Program A) → NeverFails (attempt p)
attempt-NeverFails (ret a) = tt
attempt-NeverFails (fail p) = tt
attempt-NeverFails crash = tt
attempt-NeverFails (call op k) = λ r. attempt-NeverFails (k r)

pub if-NeverFails :
    {A : Type 0} (b : Bool) (p q : Program A)
    → NeverFails p
    → NeverFails q
    → NeverFails (if b then p else q)
if-NeverFails true p q h g = h
if-NeverFails false p q h g = g
