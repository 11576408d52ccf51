-- ===== src/CryptpilotCrypt/Init/Order/Marked.antt =====
-- How far `persistent_disk_init` of cryptpilot-crypt/src/cmd/init.rs has come, and which calls keep it.
use Prim.Native.String.{String}
use cryptpilot.Prelude.{ℕ, Bool, true, false, some, List, [], ◌∷◌, ◌≡◌, inr, if◌then◌else◌}
use cryptpilot.CryptpilotCore.System.{Op, Reply, Output, Attempt, BlkTraceEvent}
use cryptpilot.CryptpilotCore.Mkfs.{TraceApi}
use cryptpilot.CryptpilotCore.Mkfs.Calls.{Unmarked}
use cryptpilot.CryptpilotCrypt.Config.{VolumeConfig}
use cryptpilot.CryptpilotCrypt.Init.Order.{
  Progress, with_last, advance, In, Formatted, Migrated, MayLabel,
}

abbrev pub Implies : Bool → Bool → Type 0
Implies false b = Unit
Implies true b = b ≡ true

-- The parts of the work on a file system, with the mapping, the device mkfs works on, its trace and the
-- size of a page.
pub data Stage : Type 0 where
  early : Stage
  aimed : String → Stage
  made_on : String → String → Stage
  recorded : String → String → List BlkTraceEvent → Stage
  paged : String → String → List BlkTraceEvent → ℕ → Stage
  formatted moved : Stage

abbrev pub At : TraceApi → Stage → Progress → Type 0
At api early s = Unit
At api (aimed real) s = s.target ≡ some real
At api (made_on real dev) s = (s.target ≡ some real) × In dev s.made
At api (recorded real dev events) s =
    (s.target ≡ some real) × In dev s.made × (s.traced ≡ some (dev, events))
At api (paged real dev events size) s =
    (s.target ≡ some real) × In dev s.made × (s.traced ≡ some (dev, events)) × (s.page ≡ some size)
At api formatted s = Formatted s
At api moved s = Migrated api s

-- At least this has been reached, and the label is not set.
pub record Has (api : TraceApi) (k : Bool) (stage : Stage) (s : Progress) : Type 0 where
  pub unlabelled : s.labelled ≡ false
  pub has_key : Implies k s.keyed
  pub reached : At api stage s

-- The calls that keep every stage.
abbrev pub Settled : Op → Type 0
Settled (Op.crypt_format params) = ⊥
Settled (Op.crypt_add_key dev size passphrase) = ⊥
Settled (Op.crypt_set_label dev label) = ⊥
Settled (Op.crypt_activate name dev passphrase flag) = ⊥
Settled (Op.trace_finish dev) = ⊥
Settled Op.page_size = ⊥
Settled (Op.write_page dev offset content) = ⊥
Settled (Op.flush dev) = ⊥
Settled other = Unit

abbrev pub Harmless : Stage → Op → Type 0
Harmless early op = Unmarked op
Harmless other op = Settled op

pub Harmless-Settled : (stage : Stage) (op : Op) → Settled op → Harmless stage op
Harmless-Settled early (Op.crypt_format params) u = u
Harmless-Settled early (Op.crypt_add_key dev size passphrase) u = u
Harmless-Settled early (Op.crypt_set_label dev label) u = u
Harmless-Settled early _ u = tt
Harmless-Settled (aimed real) op u = u
Harmless-Settled (made_on real dev) op u = u
Harmless-Settled (recorded real dev events) op u = u
Harmless-Settled (paged real dev events size) op u = u
Harmless-Settled formatted op u = u
Harmless-Settled moved op u = u

In-with_last : (dev : String) (args made : List String) → In dev made → In dev (with_last args made)
In-with_last dev [] made h = h
In-with_last dev (arg ∷ []) made h = inr h
In-with_last dev (arg ∷ next ∷ args) made h = In-with_last dev (next ∷ args) made h

In-kept :
    (b : Bool) (dev : String) (args made : List String)
    → In dev made
    → In dev (if b then with_last args made else made)
In-kept true dev args made h = In-with_last dev args made h
In-kept false dev args made h = h

module _ (api : TraceApi) (config : VolumeConfig) where
  At-command :
      (stage : Stage) (s : Progress) (program : String) (args : List String) (r : Attempt Output)
      → At api stage s
      → At api stage (advance config s (Op.command program args) r)
  At-command early s program args r h = tt
  At-command (aimed real) s program args r h = h
  At-command (made_on real dev) s program args r (t, m) = (t, In-kept _ dev args s.made m)
  At-command (recorded real dev events) s program args r (t, m, rest) =
      (t, In-kept _ dev args s.made m, rest)
  At-command (paged real dev events size) s program args r (t, m, traced, page) =
      (t, In-kept _ dev args s.made m, traced, page)
  At-command formatted s program args r (real, t, m) = (real, t, In-kept _ real args s.made m)
  At-command moved s program args r (real, dev, events, size, t, m, traced, page, copied, out) =
      (real, dev, events, size, t, In-kept _ dev args s.made m, traced, page, copied, out)

  At-read :
      (stage : Stage) (s : Progress) (dev : String) (offset size : ℕ) (r : Attempt (List ℕ))
      → At api stage s
      → At api stage (advance config s (Op.read_page dev offset size) r)
  At-read early s dev offset size r h = tt
  At-read (aimed real) s dev offset size r h = h
  At-read (made_on real d) s dev offset size r h = h
  At-read (recorded real d events) s dev offset size r h = h
  At-read (paged real d events n) s dev offset size r h = h
  At-read formatted s dev offset size r h = h
  At-read moved s dev offset size r h = h

  pub Settled-advance :
      (k : Bool) (stage : Stage) (s : Progress) (op : Op) (r : Reply op)
      → Settled op
      → Has api k stage s
      → Has api k stage (advance config s op r)
  Settled-advance k stage s (Op.crypt_format params) r u h = absurd u
  Settled-advance k stage s (Op.crypt_add_key dev size passphrase) r u h = absurd u
  Settled-advance k stage s (Op.crypt_set_label dev label) r u h = absurd u
  Settled-advance k stage s (Op.crypt_activate name dev passphrase flag) r u h = absurd u
  Settled-advance k stage s (Op.trace_finish dev) r u h = absurd u
  Settled-advance k stage s Op.page_size r u h = absurd u
  Settled-advance k stage s (Op.write_page dev offset content) r u h = absurd u
  Settled-advance k stage s (Op.flush dev) r u h = absurd u
  Settled-advance k stage s (Op.command program args) r u h = record {
    unlabelled = h.unlabelled;
    has_key = h.has_key;
    reached = At-command stage s program args r h.reached;
  }
  Settled-advance k stage s (Op.read_page dev offset size) r u h = record {
    unlabelled = h.unlabelled;
    has_key = h.has_key;
    reached = At-read stage s dev offset size r h.reached;
  }
  Settled-advance k stage s _ r u h = h

  -- Before the work on the file system every call keeps what has been reached but the marking ones.
  Early-advance :
      (k : Bool) (s : Progress) (op : Op) (r : Reply op)
      → Unmarked op
      → Has api k early s
      → Has api k early (advance config s op r)
  Early-advance k s (Op.crypt_format params) r u h = absurd u
  Early-advance k s (Op.crypt_add_key dev size passphrase) r u h = absurd u
  Early-advance k s (Op.crypt_set_label dev label) r u h = absurd u
  Early-advance k s (Op.crypt_activate (some name) dev passphrase flag) r u h = record {
    unlabelled = h.unlabelled;
    has_key = h.has_key;
    reached = tt;
  }
  Early-advance k s (Op.command program args) r u h = record {
    unlabelled = h.unlabelled;
    has_key = h.has_key;
    reached = tt;
  }
  Early-advance k s (Op.trace_finish dev) r u h = record {
    unlabelled = h.unlabelled;
    has_key = h.has_key;
    reached = tt;
  }
  Early-advance k s Op.page_size r u h = record {
    unlabelled = h.unlabelled;
    has_key = h.has_key;
    reached = tt;
  }
  Early-advance k s (Op.read_page dev offset size) r u h = record {
    unlabelled = h.unlabelled;
    has_key = h.has_key;
    reached = tt;
  }
  Early-advance k s (Op.write_page dev offset content) r u h = record {
    unlabelled = h.unlabelled;
    has_key = h.has_key;
    reached = tt;
  }
  Early-advance k s (Op.flush dev) r u h = record {
    unlabelled = h.unlabelled;
    has_key = h.has_key;
    reached = tt;
  }
  Early-advance k s _ r u h = h

  pub Has-advance :
      (k : Bool) (stage : Stage) (s : Progress) (op : Op) (r : Reply op)
      → Harmless stage op
      → Has api k stage s
      → Has api k stage (advance config s op r)
  Has-advance k early s op r u h = Early-advance k s op r u h
  Has-advance k (aimed real) s op r u h = Settled-advance k (aimed real) s op r u h
  Has-advance k (made_on real dev) s op r u h = Settled-advance k (made_on real dev) s op r u h
  Has-advance k (recorded real dev events) s op r u h =
      Settled-advance k (recorded real dev events) s op r u h
  Has-advance k (paged real dev events size) s op r u h =
      Settled-advance k (paged real dev events size) s op r u h
  Has-advance k formatted s op r u h = Settled-advance k formatted s op r u h
  Has-advance k moved s op r u h = Settled-advance k moved s op r u h

  pub Unmarked-allowed : (s : Progress) (op : Op) → Unmarked op → MayLabel api config s op
  Unmarked-allowed s (Op.crypt_format params) u = tt
  Unmarked-allowed s (Op.crypt_set_label dev label) u = absurd u
  Unmarked-allowed s _ u = tt

  pub Has-allowed :
      (stage : Stage) (s : Progress) (op : Op) → Harmless stage op → MayLabel api config s op
  Has-allowed early s op u = Unmarked-allowed s op u
  Has-allowed (aimed real) s op u = Unmarked-allowed s op (Harmless-Settled early op u)
  Has-allowed (made_on real dev) s op u = Unmarked-allowed s op (Harmless-Settled early op u)
  Has-allowed (recorded real dev events) s op u =
      Unmarked-allowed s op (Harmless-Settled early op u)
  Has-allowed (paged real dev events size) s op u =
      Unmarked-allowed s op (Harmless-Settled early op u)
  Has-allowed formatted s op u = Unmarked-allowed s op (Harmless-Settled early op u)
  Has-allowed moved s op u = Unmarked-allowed s op (Harmless-Settled early op u)
