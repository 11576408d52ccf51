-- ===== src/CryptpilotCore/Program/Gets.antt =====
-- Programs that reach a fact when they end well, and keep another one at every other end.
use cryptpilot.CryptpilotCore.System.{Op, Reply, Attempt, good, bad}
use cryptpilot.CryptpilotCore.Program.{
  End, ok, err, crashed, Program, ◌>>=◌, from_attempt, ensure, with_drop, Problem,
}
use cryptpilot.Prelude.{Bool, true, false, ◌≡◌, refl}
use cryptpilot.CryptpilotCore.Program.Safety.{Monitor, Safe, >>=-Safe, Safe-weaken, with_drop-Safe}
use cryptpilot.CryptpilotCore.Program.Uses.{Uses, Uses-Safe}

-- `T` after a value, `E` after an error or a panic.
abbrev pub Gets : {S A : Type 0} → (S → Type 0) → (S → A → Type 0) → S → End A → Type 0
Gets E T s (ok a) = T s a
Gets E T s (err p) = E s
Gets E T s crashed = E s

module _ (m : Monitor) (E : m.State → Type 0) where
  pub >>=-Gets :
      {A B : Type 0} (T : m.State → A → Type 0) (U : m.State → B → Type 0) (s : m.State)
      (x : Program A) (f : A → Program B)
      → Safe m (Gets E T) s x
      → ((t : m.State) (a : A) → T t a → Safe m (Gets E U) t (f a))
      → Safe m (Gets E U) s (x >>= f)
  >>=-Gets T U s x f h go = >>=-Safe m (Gets E T) (Gets E U) s x f h (go, (λ t p e. e), (λ t e. e))

  pub Gets-weaken :
      {A : Type 0} (T U : m.State → A → Type 0) (s : m.State) (x : Program A)
      → ((t : m.State) (a : A) → T t a → U t a)
      → Safe m (Gets E T) s x
      → Safe m (Gets E U) s x
  Gets-weaken {A} T U s x imp = Safe-weaken m (Gets E T) (Gets E U) s x by_end
    where
      by_end : (t : m.State) (e : End A) → Gets E T t e → Gets E U t e
      by_end t (ok a) h = imp t a h
      by_end t (err p) h = h
      by_end t crashed h = h

  pub from_attempt-Gets :
      {A : Type 0} (T : m.State → A → Type 0) (s : m.State) (r : Attempt A)
      → E s
      → ((a : A) → T s a)
      → Safe m (Gets E T) s (from_attempt r)
  from_attempt-Gets T s (good a) e t = t a
  from_attempt-Gets T s (bad p) e t = e

  -- `?` on the answer of a call, and what follows.
  pub tried-Gets :
      {A B : Type 0} (U : m.State → B → Type 0) (s : m.State) (r : Attempt A) (f : A → Program B)
      → E s
      → ((a : A) → Safe m (Gets E U) s (f a))
      → Safe m (Gets E U) s (from_attempt r >>= f)
  tried-Gets U s (good a) f e go = go a
  tried-Gets U s (bad p) f e go = e

  pub ensure-Gets :
      {B : Type 0} (U : m.State → B → Type 0) (s : m.State) (b : Bool) (p : Problem)
      (f : Unit {0} → Program B)
      → E s
      → (b ≡ true → Safe m (Gets E U) s (f tt))
      → Safe m (Gets E U) s (ensure b p >>= f)
  ensure-Gets U s true p f e go = go refl
  ensure-Gets U s false p f e go = e

  module _ (Q : Op → Type 0) (I : m.State → Type 0)
      (allow : (s : m.State) (op : Op) → Q op → I s → m.Allowed s op)
      (keep : (s : m.State) (op : Op) (r : Reply op) → Q op → I s → I (m.next s op r))
      (safe : (s : m.State) → I s → E s) where
    -- Calls of one kind first, and what follows.
    pub Uses-Gets :
        {A B : Type 0} (U : m.State → B → Type 0) (s : m.State) (x : Program A) (f : A → Program B)
        → Uses Q x
        → I s
        → ((t : m.State) (a : A) → I t → Safe m (Gets E U) t (f a))
        → Safe m (Gets E U) s (x >>= f)
    Uses-Gets U s x f u i go =
        >>=-Safe m (λ t e. I t) (Gets E U) s x f (Uses-Safe m Q I allow keep s x u i)
          ((λ t a j. go t a j), (λ t p j. safe t j), (λ t j. safe t j))

    pub Uses-last :
        {A : Type 0} (T : m.State → A → Type 0) (s : m.State) (x : Program A)
        → Uses Q x
        → I s
        → ((t : m.State) (a : A) → I t → T t a)
        → Safe m (Gets E T) s x
    Uses-last {A} T s x u i go =
        Safe-weaken m (λ t e. I t) (Gets E T) s x by_end (Uses-Safe m Q I allow keep s x u i)
      where
        by_end : (t : m.State) (e : End A) → I t → Gets E T t e
        by_end t (ok a) j = go t a j
        by_end t (err p) j = safe t j
        by_end t crashed j = safe t j

  -- A `drop` that keeps both facts.
  module _ {A : Type 0} (T : m.State → A → Type 0) (Q : Op → Type 0)
      (allow : (s : m.State) (op : Op) → Q op → m.Allowed s op)
      (keep_value : (a : A) (s : m.State) (op : Op) (r : Reply op)
        → Q op
        → T s a
        → T (m.next s op r) a)
      (keep_error : (s : m.State) (op : Op) (r : Reply op) → Q op → E s → E (m.next s op r))
      (safe : (s : m.State) (a : A) → T s a → E s) where
    after_value :
        {B : Type 0} (t : m.State) (a : A) (last : Program B)
        → Uses Q last
        → T t a
        → Safe m (λ v z. (z ≡ crashed → E v) × T v a) t last
    after_value t a last u i =
        Safe-weaken m (λ v z. T v a) (λ v z. (z ≡ crashed → E v) × T v a) t last
          (λ v z j. ((λ c. safe v a j), j))
          (Uses-Safe m Q (λ v. T v a) (λ s op q j. allow s op q) (keep_value a) t last u i)

    after_error :
        {B : Type 0} (t : m.State) (last : Program B)
        → Uses Q last
        → E t
        → Safe m (λ v z. (z ≡ crashed → E v) × E v) t last
    after_error t last u i =
        Safe-weaken m (λ v z. E v) (λ v z. (z ≡ crashed → E v) × E v) t last
          (λ v z j. ((λ c. j), j))
          (Uses-Safe m Q E (λ s op q j. allow s op q) keep_error t last u i)

    pub drop-Gets :
        {B : Type 0} (s : m.State) (x : Program A) (last : Program B)
        → Safe m (Gets E T) s x
        → Uses Q last
        → Safe m (Gets E T) s (with_drop x last)
    drop-Gets {B} s x last h u = with_drop-Safe m (Gets E T) (Gets E T) s x last h by_end
      where
        by_end :
            (t : m.State) (e : End A)
            → Gets E T t e
            → Safe m (λ v z. (z ≡ crashed → E v) × Gets E T v e) t last
        by_end t (ok a) i = after_value t a last u i
        by_end t (err p) i = after_error t last u i
        by_end t crashed i = after_error t last u i
