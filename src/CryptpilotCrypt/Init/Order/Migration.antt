-- ===== src/CryptpilotCrypt/Init/Order/Migration.antt =====
-- The pages that cryptpilot-core/src/fs/mkfs.rs copies to the temporary volume of `init`.
use Prim.Native.String.{String}
use cryptpilot.Prelude.{
  ℕ, ◌*◌, Bool, true, false, ◌||◌, List, [], ◌∷◌, ◌≡◌, refl, sym, subst, inl, inr, ◌==◌, ==_iff,
  Bool-cases, ap, ◌∙◌,
}
use cryptpilot.CryptpilotCore.System.{Op, Reply, Attempt, good, bad, BlkTraceEvent}
use cryptpilot.CryptpilotCore.Program.{Program, call, ◌>>=◌, from_attempt, with_drop}
use cryptpilot.CryptpilotCore.Program.Safety.{Safe}
use cryptpilot.CryptpilotCore.Program.Uses.{Uses}
use cryptpilot.CryptpilotCore.Program.Gets.{
  Gets, >>=-Gets, tried-Gets, Gets-weaken, Uses-Gets, drop-Gets,
}
use cryptpilot.CryptpilotCore.Mkfs.{
  TraceApi, contains, migrate_page, migrate_pages, migrate, rw_positions,
}
use cryptpilot.CryptpilotCore.Mkfs.Pages.{rw_positions-Touched}
use cryptpilot.CryptpilotCrypt.Config.{VolumeConfig}
use cryptpilot.CryptpilotCrypt.Init.Order.{Progress, advance, Copied, init_order}
use cryptpilot.CryptpilotCrypt.Init.Order.Marked.{
  Stage, Has, Settled, Harmless, Harmless-Settled, Has-allowed, Has-advance, early, paged, moved,
}

abbrev pub Unlabelled : Progress → Type 0
Unlabelled s = s.labelled ≡ false

module _ (api : TraceApi) (config : VolumeConfig) (k : Bool) where
  abbrev pub Reaches : {A : Type 0} → (Progress → A → Type 0) → Progress → Program A → Type 0
  Reaches T s x = Safe (init_order api config) (Gets Unlabelled T) s x

  -- Calls that keep a stage, with what follows, and as a `drop`.
  pub quiet_then :
      {A B : Type 0} (stage : Stage) (U : Progress → B → Type 0) (s : Progress) (x : Program A)
      (go : A → Program B)
      → Uses (Harmless stage) x
      → Has api k stage s
      → ((t : Progress) (a : A) → Has api k stage t → Reaches U t (go a))
      → Reaches U s (x >>= go)
  quiet_then stage U s x go =
      Uses-Gets (init_order api config) Unlabelled (Harmless stage) (Has api k stage)
        (λ t op u h. Has-allowed api config stage t op u) (Has-advance api config k stage)
        (λ t h. h.unlabelled) U s x go

  Unlabelled-kept :
      (s : Progress) (op : Op) (r : Reply op)
      → Settled op
      → Unlabelled s
      → Unlabelled (advance config s op r)
  Unlabelled-kept s op r u e =
      let before : Has api false early s = record { unlabelled = e; has_key = tt; reached = tt } in
      (Has-advance api config false early s op r (Harmless-Settled early op u) before).unlabelled

  pub quiet_drop :
      {A B : Type 0} (stage : A → Stage) (s : Progress) (x : Program A) (last : Program B)
      → Reaches (λ t a. Has api k (stage a) t) s x
      → Uses Settled last
      → Reaches (λ t a. Has api k (stage a) t) s (with_drop x last)
  quiet_drop stage =
      drop-Gets (init_order api config) Unlabelled (λ t a. Has api k (stage a) t) Settled
        (λ t op u. Has-allowed api config early t op (Harmless-Settled early op u))
        (λ a t op r u. Has-advance api config k (stage a) t op r (Harmless-Settled (stage a) op u))
        Unlabelled-kept (λ t a h. h.unlabelled)

  module _ (real dev : String) (events : List BlkTraceEvent) (size : ℕ) where
    abbrev Copying : Progress → Type 0
    Copying = Has api k (paged real dev events size)

    abbrev IsCopied : ℕ → Progress → Type 0
    IsCopied p s = Copied dev real size p s.written

    abbrev Kept : Progress → Progress → Type 0
    Kept s t = (p : ℕ) → IsCopied p s → IsCopied p t

    migrate_page-Gets :
        (s : Progress) (i : ℕ)
        → Copying s
        → Reaches (λ t u. Copying t × IsCopied i t × Kept s t) s (migrate_page dev real size i)
    unfolding migrate_page
    migrate_page-Gets s i h = (tt, was_read)
      where
        was_written :
            (content : List ℕ) (r : Attempt (Unit {0}))
            → Reaches
                (λ t u. Copying t × IsCopied i t × Kept s t)
                (advance config
                  (advance config s (Op.read_page dev (i * size) size) (good content))
                  (Op.write_page real (i * size) content)
                  r)
                (from_attempt r)
        was_written content (good u) = (
          record { unlabelled = h.unlabelled; has_key = h.has_key; reached = h.reached },
          inl (content, refl, refl, refl, refl),
          λ p c. inr c,
        )
        was_written content (bad e) = h.unlabelled

        was_read :
            (r : Attempt (List ℕ))
            → Reaches
                (λ t u. Copying t × IsCopied i t × Kept s t)
                (advance config s (Op.read_page dev (i * size) size) r)
                (from_attempt r >>= λ buf. call (Op.write_page real (i * size) buf) from_attempt)
        was_read (good content) = (tt, was_written content)
        was_read (bad e) = h.unlabelled

    abbrev AllCopied : List ℕ → Progress → Type 0
    AllCopied pages s = (p : ℕ) → contains p pages ≡ true → IsCopied p s

    -- The loop copies every page.
    migrate_pages-Gets :
        (s : Progress) (pages : List ℕ)
        → Copying s
        → Reaches
            (λ t u. Copying t × AllCopied pages t × Kept s t)
            s
            (migrate_pages dev real size pages)
    unfolding migrate_pages
    migrate_pages-Gets s [] h = (h, (λ p e. cc e), (λ p c. c))
    migrate_pages-Gets s (i ∷ rest) h =
        >>=-Gets (init_order api config) Unlabelled (λ t u. Copying t × IsCopied i t × Kept s t)
          (λ t u. Copying t × AllCopied (i ∷ rest) t × Kept s t) s (migrate_page dev real size i) _
          (migrate_page-Gets s i h)
          (λ t u (copying, new, kept).
            Gets-weaken (init_order api config) Unlabelled
              (λ v w. Copying v × AllCopied rest v × Kept t v)
              (λ v w. Copying v × AllCopied (i ∷ rest) v × Kept s v) t
              (migrate_pages dev real size rest)
              (λ v w (copying', later, kept'). (
                copying',
                (λ p e. elim (Bool-cases (p == i)) [
                  | inl same ↦
                      subst (λ (n : ℕ). IsCopied n v) (sym ((==_iff p i).0 same)) (kept' i new)
                  | inr other ↦ later p (ap (λ (b : Bool). b || contains p rest) (sym other) ∙ e)
                ]),
                (λ p c. kept' p (kept p c)),
              ))
              (migrate_pages-Gets t rest copying))

    -- The last call flushes the device to which the pages went.
    pub migrate-Gets :
        (s : Progress)
        → Copying s
        → Reaches
            (λ t (u : Unit {0}). Has api k moved t)
            s
            (migrate dev real size (rw_positions api size events))
    unfolding migrate
    migrate-Gets s h = (
      tt,
      λ r.
          tried-Gets (init_order api config) Unlabelled (λ t u. Has api k moved t) s r _
            h.unlabelled
            (λ u. (
              tt,
              λ q.
                  tried-Gets (init_order api config) Unlabelled (λ t u. Has api k moved t) s q _
                    h.unlabelled
                    (λ v.
                      >>=-Gets (init_order api config) Unlabelled
                        (λ t u. Copying t × AllCopied (rw_positions api size events) t × Kept s t)
                        (λ t u. Has api k moved t) s
                        (migrate_pages dev real size (rw_positions api size events)) _
                        (migrate_pages-Gets s (rw_positions api size events) h)
                        (λ t w (copying, all, kept). (tt, flushed t copying all))),
            )),
    )
      where
        flushed :
            (t : Progress)
            → Copying t
            → AllCopied (rw_positions api size events) t
            → (r : Attempt (Unit {0}))
            → Reaches
                (λ v (u : Unit {0}). Has api k moved v)
                (advance config t (Op.flush real) r)
                (from_attempt r)
        flushed t copying all (good u) = record {
          unlabelled = copying.unlabelled;
          has_key = copying.has_key;
          reached = (
            real,
            dev,
            events,
            size,
            copying.reached.0,
            copying.reached.1,
            copying.reached.2,
            copying.reached.3,
            (λ nonzero p touched.
                all p (((rw_positions-Touched api size nonzero events).0 p).1 touched)),
            refl,
          );
        }
        flushed t copying all (bad e) = copying.unlabelled
