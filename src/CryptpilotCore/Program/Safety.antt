-- ===== src/CryptpilotCore/Program/Safety.antt =====
-- What holds of every run of a program, whatever the system answers: a monitor follows the calls.
use cryptpilot.CryptpilotCore.System.{Op, Reply}
use cryptpilot.Prelude.{◌≡◌, refl}
use cryptpilot.CryptpilotCore.Program.{
  Problem, End, ok, err, crashed, Program, ret, fail, crash, call, ◌>>=◌, attempt, finish,
  ends_with, with_drop,
}

-- What is known, which calls may be made then, and what an answer adds.
pub record Monitor : Type 1 where
  pub State : Type 0
  pub Allowed : State → Op → Type 0
  pub next : State → (op : Op) → Reply op → State

module _ (m : Monitor) where
  -- Each call of each run is allowed when it is made, and each end satisfies `P`.
  abbrev pub Safe : {A : Type 0} → (m.State → End A → Type 0) → m.State → Program A → Type 0
  Safe P s (ret a) = P s (ok a)
  Safe P s (fail p) = P s (err p)
  Safe P s crash = P s crashed
  Safe P s (call op k) = m.Allowed s op × ((r : Reply op) → Safe P (m.next s op r) (k r))

  -- A later part takes over with what the first part leaves.
  abbrev pub Passes :
      {A B : Type 0}
      → (m.State → End A → Type 0)
      → (m.State → End B → Type 0)
      → (A → Program B)
      → Type 0
  Passes {A} P Q f =
      ((s : m.State) (a : A) → P s (ok a) → Safe Q s (f a))
      × ((s : m.State) (p : Problem) → P s (err p) → Q s (err p))
      × ((s : m.State) → P s crashed → Q s crashed)

  pub >>=-Safe :
      {A B : Type 0} (P : m.State → End A → Type 0) (Q : m.State → End B → Type 0) (s : m.State)
      (x : Program A) (f : A → Program B)
      → Safe P s x
      → Passes P Q f
      → Safe Q s (x >>= f)
  >>=-Safe P Q s (ret a) f h go = go.0 s a h
  >>=-Safe P Q s (fail p) f h go = go.1 s p h
  >>=-Safe P Q s crash f h go = go.2 s h
  >>=-Safe P Q s (call op k) f h go = (h.0, λ r. >>=-Safe P Q (m.next s op r) (k r) f (h.1 r) go)

  pub Safe-weaken :
      {A : Type 0} (P Q : m.State → End A → Type 0) (s : m.State) (x : Program A)
      → ((t : m.State) (e : End A) → P t e → Q t e)
      → Safe P s x
      → Safe Q s x
  Safe-weaken P Q s (ret a) imp h = imp s (ok a) h
  Safe-weaken P Q s (fail p) imp h = imp s (err p) h
  Safe-weaken P Q s crash imp h = imp s crashed h
  Safe-weaken P Q s (call op k) imp h =
      (h.0, λ r. Safe-weaken P Q (m.next s op r) (k r) imp (h.1 r))

  -- What `attempt` hands on: the end as a value.
  abbrev pub Caught : {A : Type 0} → (m.State → End A → Type 0) → m.State → End (End A) → Type 0
  Caught P s (ok e) = P s e
  Caught P s (err p) = ⊥
  Caught P s crashed = P s crashed

  pub attempt-Safe :
      {A : Type 0} (P : m.State → End A → Type 0) (s : m.State) (x : Program A)
      → Safe P s x
      → Safe (Caught P) s (attempt x)
  attempt-Safe P s (ret a) h = h
  attempt-Safe P s (fail p) h = h
  attempt-Safe P s crash h = h
  attempt-Safe P s (call op k) h = (h.0, λ r. attempt-Safe P (m.next s op r) (k r) (h.1 r))

  finish-Safe :
      {A : Type 0} (P : m.State → End A → Type 0) (s : m.State) (e : End A)
      → P s e
      → Safe P s (finish e)
  finish-Safe P s (ok a) h = h
  finish-Safe P s (err p) h = h
  finish-Safe P s crashed h = h

  ends_with-Safe :
      {A B : Type 0} (P : m.State → End A → Type 0) (s : m.State) (x : Program B) (e : End A)
      → Safe (λ t last. (last ≡ crashed → P t crashed) × P t e) s x
      → Safe P s (ends_with x e)
  ends_with-Safe P s (ret b) e h = finish-Safe P s e h.1
  ends_with-Safe P s (fail p) e h = finish-Safe P s e h.1
  ends_with-Safe P s crash e h = h.0 refl
  ends_with-Safe P s (call op k) e h = (h.0, λ r. ends_with-Safe P (m.next s op r) (k r) e (h.1 r))

  -- The `drop` runs at every end of the body.
  pub with_drop-Safe :
      {A B : Type 0} (P Q : m.State → End A → Type 0) (s : m.State) (x : Program A)
      (last : Program B)
      → Safe P s x
      → ((t : m.State) (e : End A)
          → P t e
          → Safe (λ u end. (end ≡ crashed → Q u crashed) × Q u e) t last)
      → Safe Q s (with_drop x last)
  with_drop-Safe P Q s (ret a) last h go = ends_with-Safe Q s last (ok a) (go s (ok a) h)
  with_drop-Safe P Q s (fail p) last h go = ends_with-Safe Q s last (err p) (go s (err p) h)
  with_drop-Safe P Q s crash last h go = ends_with-Safe Q s last crashed (go s crashed h)
  with_drop-Safe P Q s (call op k) last h go =
      (h.0, λ r. with_drop-Safe P Q (m.next s op r) (k r) last (h.1 r) go)
