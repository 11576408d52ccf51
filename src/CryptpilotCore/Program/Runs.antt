-- ===== src/CryptpilotCore/Program/Runs.antt =====
-- Runs of a program of cryptpilot in an environment: the run of a sequence, and what may be at its end.
use cryptpilot.Prelude.{◌≡◌, refl, Bool, true, false, if◌then◌else◌}
use cryptpilot.CryptpilotCore.Program.{
  End, ok, err, crashed, Program, ret, fail, crash, call, ◌>>=◌, attempt, Machine, run,
}

-- The run goes on with the value, if there is one.
abbrev pub continue :
    (m : Machine) {A B : Type 0} → m.State × End A → (A → Program B) → m.State × End B
continue m (s, ok a) f = run m s (f a)
continue m (s, err p) f = (s, err p)
continue m (s, crashed) f = (s, crashed)

pub run->>= :
    (m : Machine) {A B : Type 0} (s : m.State) (p : Program A) (f : A → Program B)
    → run m s (p >>= f) ≡ continue m (run m s p) f
run->>= m s (ret a) f = refl
run->>= m s (fail p) f = refl
run->>= m s crash f = refl
run->>= m s (call op k) f = let (s', r) = m.answer s op in run->>= m s' (k r) f

-- A run without a value.
abbrev pub Stopped : {S A : Type 0} → S × End A → Type 0
Stopped (s, ok a) = ⊥
Stopped (s, err p) = Unit
Stopped (s, crashed) = Unit

-- A value, if there is one, satisfies `P`.
abbrev pub Holds : {S A : Type 0} → (A → Type 0) → S × End A → Type 0
Holds P (s, ok a) = P a
Holds P (s, err p) = Unit
Holds P (s, crashed) = Unit

-- Every value of the program satisfies `P`.
abbrev pub Leaves : {A : Type 0} → (A → Type 0) → Program A → Type 0
Leaves P (ret a) = P a
Leaves P (fail p) = Unit
Leaves P crash = Unit
Leaves P (call op k) = (r : _) → Leaves P (k r)

pub Leaves-then :
    {A B : Type 0} (P : B → Type 0) (p : Program A) (f : A → Program B)
    → ((a : A) → Leaves P (f a))
    → Leaves P (p >>= f)
Leaves-then P (ret a) f go = go a
Leaves-then P (fail p) f go = tt
Leaves-then P crash f go = tt
Leaves-then P (call op k) f go = λ r. Leaves-then P (k r) f go

pub Leaves->>= :
    {A B : Type 0} (P : A → Type 0) (Q : B → Type 0) (p : Program A) (f : A → Program B)
    → Leaves P p
    → ((a : A) → P a → Leaves Q (f a))
    → Leaves Q (p >>= f)
Leaves->>= P Q (ret a) f h go = go a h
Leaves->>= P Q (fail p) f h go = tt
Leaves->>= P Q crash f h go = tt
Leaves->>= P Q (call op k) f h go = λ r. Leaves->>= P Q (k r) f (h r) go

pub if-Leaves :
    {A : Type 0} (P : A → Type 0) (b : Bool) (p q : Program A)
    → Leaves P p
    → Leaves P q
    → Leaves P (if b then p else q)
if-Leaves P true p q h g = h
if-Leaves P false p q h g = g

pub Leaves-run :
    (m : Machine) {A : Type 0} (P : A → Type 0) (s : m.State) (p : Program A)
    → Leaves P p
    → Holds P (run m s p)
Leaves-run m P s (ret a) h = h
Leaves-run m P s (fail p) h = tt
Leaves-run m P s crash h = tt
Leaves-run m P s (call op k) h = let (s', r) = m.answer s op in Leaves-run m P s' (k r) (h r)

-- The end of a run as a value. A panic goes on.
abbrev pub caught : {S A : Type 0} → S × End A → S × End (End A)
caught (s, ok a) = (s, ok (ok a))
caught (s, err p) = (s, ok (err p))
caught (s, crashed) = (s, crashed)

pub run-attempt :
    (m : Machine) {A : Type 0} (s : m.State) (p : Program A)
    → run m s (attempt p) ≡ caught (run m s p)
run-attempt m s (ret a) = refl
run-attempt m s (fail p) = refl
run-attempt m s crash = refl
run-attempt m s (call op k) = let (s', r) = m.answer s op in run-attempt m s' (k r)
