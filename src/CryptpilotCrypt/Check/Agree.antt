-- ===== src/CryptpilotCrypt/Check/Agree.antt =====
-- Two runs of the check of cryptpilot-crypt/src/cmd/config/check.rs that agree until the first error.
use cryptpilot.Prelude.{◌≡◌, sym, subst, inl, inr, ◌⊎◌}
use cryptpilot.CryptpilotCore.Program.{
  End, ok, err, crashed, Program, ret, fail, crash, call, ◌>>=◌, Machine, run, call,
}
use cryptpilot.CryptpilotCore.Program.Runs.{continue, run->>=, Stopped, Holds, Leaves, Leaves-run}

module _ (m : Machine) where
  -- The runs are the same up to a clean value, or the second one stopped and the first one has a flag.
  abbrev pub Agree :
      {A : Type 0} → (A → Type 0) → (A → Type 0) → m.State × End A → m.State × End A → Type 0
  Agree {A} Clean Flagged k n =
      ((s : m.State) × (a : A) × (k ≡ (s, ok a)) × (n ≡ (s, ok a)) × Clean a)
      ⊎ (Holds Flagged k × Stopped n)

  module _ {A B : Type 0} (Clean Flagged : A → Type 0) (Clean' Flagged' : B → Type 0)
      (f g : A → Program B) (flagged : (a : A) → Flagged a → Leaves Flagged' (f a)) where
    flagged_then : (k : m.State × End A) → Holds Flagged k → Holds Flagged' (continue m k f)
    flagged_then (s, ok a) h = Leaves-run m Flagged' s (f a) (flagged a h)
    flagged_then (s, err p) h = tt
    flagged_then (s, crashed) h = tt

    Stopped-then : (n : m.State × End A) → Stopped n → Stopped (continue m n g)
    Stopped-then (s, ok a) h = absurd h
    Stopped-then (s, err p) h = tt
    Stopped-then (s, crashed) h = tt

    continue-Agree :
        ((s : m.State) (a : A) → Clean a → Agree Clean' Flagged' (run m s (f a)) (run m s (g a)))
        → (k n : m.State × End A) → Agree Clean Flagged k n
        → Agree Clean' Flagged' (continue m k f) (continue m n g)
    continue-Agree go k n (inl (s, a, same_k, same_n, clean)) =
        subst (λ x. Agree Clean' Flagged' (continue m x f) (continue m n g)) (sym same_k)
          (subst (λ x. Agree Clean' Flagged' (run m s (f a)) (continue m x g)) (sym same_n)
            (go s a clean))
    continue-Agree go k n (inr (h, stop)) = inr (flagged_then k h, Stopped-then n stop)

    -- One step after another.
    pub >>=-Agree :
        (s : m.State) (p q : Program A)
        → Agree Clean Flagged (run m s p) (run m s q)
        → ((t : m.State) (a : A) → Clean a → Agree Clean' Flagged' (run m t (f a)) (run m t (g a)))
        → Agree Clean' Flagged' (run m s (p >>= f)) (run m s (q >>= g))
    >>=-Agree s p q h go =
        subst (λ x. Agree Clean' Flagged' x (run m s (q >>= g))) (sym (run->>= m s p f))
          (subst (λ x. Agree Clean' Flagged' (continue m (run m s p) f) x) (sym (run->>= m s q g))
            (continue-Agree go (run m s p) (run m s q) h))

  -- A step that both take.
  pub both-Agree :
      {A B : Type 0} (Clean Flagged : B → Type 0) (s : m.State) (p : Program A)
      (f g : A → Program B)
      → ((t : m.State) (a : A) → Agree Clean Flagged (run m t (f a)) (run m t (g a)))
      → Agree Clean Flagged (run m s (p >>= f)) (run m s (p >>= g))
  both-Agree Clean Flagged s (ret a) f g go = go s a
  both-Agree Clean Flagged s (fail p) f g go = inr (tt, tt)
  both-Agree Clean Flagged s crash f g go = inr (tt, tt)
  both-Agree Clean Flagged s (call op k) f g go =
      let (s', r) = m.answer s op in both-Agree Clean Flagged s' (k r) f g go
