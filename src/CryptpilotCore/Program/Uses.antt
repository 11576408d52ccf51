-- ===== src/CryptpilotCore/Program/Uses.antt =====
-- Which calls a program makes at all, whatever the system answers.
use cryptpilot.CryptpilotCore.System.{Op, Reply}
use cryptpilot.CryptpilotCore.Program.{
  End, ok, err, crashed, Program, ret, fail, crash, call, ◌>>=◌, attempt, finish, ends_with,
  with_drop, from_attempt, ensure, Problem,
}
use cryptpilot.Prelude.{Bool, true, false, if◌then◌else◌}
use cryptpilot.CryptpilotCore.System.{Attempt, good, bad}
use cryptpilot.CryptpilotCore.Program.Safety.{Monitor, Safe}

-- Every call of every run satisfies `Q`.
abbrev pub Uses : {A : Type 0} → (Op → Type 0) → Program A → Type 0
Uses Q (ret a) = Unit
Uses Q (fail p) = Unit
Uses Q crash = Unit
Uses Q (call op k) = Q op × ((r : Reply op) → Uses Q (k r))

module _ (Q : Op → Type 0) where
  pub >>=-Uses :
      {A B : Type 0} (x : Program A) (f : A → Program B)
      → Uses Q x
      → ((a : A) → Uses Q (f a))
      → Uses Q (x >>= f)
  >>=-Uses (ret a) f h go = go a
  >>=-Uses (fail p) f h go = tt
  >>=-Uses crash f h go = tt
  >>=-Uses (call op k) f h go = (h.0, λ r. >>=-Uses (k r) f (h.1 r) go)

  pub attempt-Uses : {A : Type 0} (x : Program A) → Uses Q x → Uses Q (attempt x)
  attempt-Uses (ret a) h = tt
  attempt-Uses (fail p) h = tt
  attempt-Uses crash h = tt
  attempt-Uses (call op k) h = (h.0, λ r. attempt-Uses (k r) (h.1 r))

  finish-Uses : {A : Type 0} (e : End A) → Uses Q (finish e)
  finish-Uses (ok a) = tt
  finish-Uses (err p) = tt
  finish-Uses crashed = tt

  ends_with-Uses :
      {A B : Type 0} (x : Program B) (e : End A) → Uses Q x → Uses Q (ends_with {A = A} x e)
  ends_with-Uses (ret b) e h = finish-Uses e
  ends_with-Uses (fail p) e h = finish-Uses e
  ends_with-Uses crash e h = tt
  ends_with-Uses (call op k) e h = (h.0, λ r. ends_with-Uses (k r) e (h.1 r))

  pub with_drop-Uses :
      {A B : Type 0} (x : Program A) (last : Program B)
      → Uses Q x
      → Uses Q last
      → Uses Q (with_drop x last)
  with_drop-Uses (ret a) last h l = ends_with-Uses last _ l
  with_drop-Uses (fail p) last h l = ends_with-Uses last _ l
  with_drop-Uses crash last h l = ends_with-Uses last _ l
  with_drop-Uses (call op k) last h l = (h.0, λ r. with_drop-Uses (k r) last (h.1 r) l)

  pub from_attempt-Uses : {A : Type 0} (r : Attempt A) → Uses Q (from_attempt r)
  from_attempt-Uses (good a) = tt
  from_attempt-Uses (bad e) = tt

  pub if-Uses :
      {A : Type 0} (b : Bool) (x y : Program A) → Uses Q x → Uses Q y → Uses Q (if b then x else y)
  if-Uses true x y hx hy = hx
  if-Uses false x y hx hy = hy

  pub ensure-Uses : (b : Bool) (p : Problem) → Uses Q (ensure b p)
  ensure-Uses true p = tt
  ensure-Uses false p = tt

pub Uses-weaken :
    {A : Type 0} (Q R : Op → Type 0) (x : Program A)
    → ((op : Op) → Q op → R op)
    → Uses Q x
    → Uses R x
Uses-weaken Q R (ret a) imp h = tt
Uses-weaken Q R (fail p) imp h = tt
Uses-weaken Q R crash imp h = tt
Uses-weaken Q R (call op k) imp h = (imp op h.0, λ r. Uses-weaken Q R (k r) imp (h.1 r))

-- What the calls of one kind keep, a program of such calls keeps.
module _ (m : Monitor) (Q : Op → Type 0) (I : m.State → Type 0)
    (allow : (s : m.State) (op : Op) → Q op → I s → m.Allowed s op)
    (keep : (s : m.State) (op : Op) (r : Reply op) → Q op → I s → I (m.next s op r)) where
  pub Uses-Safe :
      {A : Type 0} (s : m.State) (x : Program A) → Uses Q x → I s → Safe m (λ t e. I t) s x
  Uses-Safe s (ret a) u i = i
  Uses-Safe s (fail p) u i = i
  Uses-Safe s crash u i = i
  Uses-Safe s (call op k) u i =
      (allow s op u.0 i, λ r. Uses-Safe (m.next s op r) (k r) (u.1 r) (keep s op r u.0 i))
