-- ===== src/CryptpilotFde/BootService/AfterSysroot/Mounts.antt =====
-- What has to be mounted where, in the stage after the mount of /sysroot (cryptpilot-fde/src/cmd/
-- boot_service/stage/after_sysroot.rs).
use Prim.Native.String.{String}
use text.Mathlib.Text.{◌==◌ as text_eq}
use cryptpilot.Prelude.{
  ℕ, Bool, true, false, ◌&&◌, ◌||◌, Option, none, some, List, [], ◌∷◌, ◌≡◌, ap, if◌then◌else◌,
}
use cryptpilot.Prelude.Text.{codes, lines}
use cryptpilot.CryptpilotCore.System.{Op, Reply, Attempt, good, bad}
use cryptpilot.CryptpilotCore.Program.{
  Problem, End, ok, err, crashed, Program, ret, call, ◌>>=◌, attempt,
}
use cryptpilot.CryptpilotCore.Program.Safety.{Monitor, Safe}
use cryptpilot.CryptpilotCore.Program.Uses.{
  Uses, >>=-Uses, attempt-Uses, from_attempt-Uses, if-Uses, ensure-Uses,
}
use cryptpilot.CryptpilotCore.Program.Gets.{Gets, Uses-Gets, Uses-last}
use cryptpilot.CryptpilotCore.Cmd.{run_command}
use cryptpilot.CryptpilotCore.Calls.{run_command-Uses, tried-Uses}
use cryptpilot.CryptpilotCore.Cmd.Answers.{succeeded}
use cryptpilot.CryptpilotFde.Config.{DeltaLocation, disk, disk_persist, ram}
use cryptpilot.CryptpilotFde.BootService.BeforeSysroot.Guard.{texts_eq}
use cryptpilot.CryptpilotFde.BootService.AfterSysroot.Table.{First}
use cryptpilot.CryptpilotFde.BootService.AfterSysroot.{
  mount, create_dir_all, setup_overlay, ready_dir, copied, copy_origin, mount_bind, mount_binds,
}

-- The table of mounts that was read last, and whether the delta volume was mounted.
pub record Mounts : Type 0 where
  pub table : Option String
  pub delta : Bool

abbrev pub unmounted : Mounts
unmounted = record { table = none; delta = false }

abbrev pub seen : Option String → String → Attempt String → Option String
seen table path (good content) = if text_eq path "/etc/mtab" then some content else table
seen table path (bad e) = table

abbrev pub mounts_delta : String → List String → Bool
mounts_delta program args =
    text_eq program "mount" && texts_eq args ("/dev/mapper/delta" ∷ "/delta_volume" ∷ [])

abbrev pub follow : Mounts → (op : Op) → Reply op → Mounts
follow s (Op.read_to_string path) r = record s { table = seen s.table path r }
follow s (Op.command program args) r = record s {
  delta = s.delta || (mounts_delta program args && succeeded r);
}
follow s other r = s

-- A table was read whose first line for /sysroot has the device of the verified root file system.
abbrev pub Checked : Mounts → Type 0
Checked s =
    (content : String) × (s.table ≡ some content)
    × First (codes "/sysroot") (codes "/dev/mapper/rootfs") (lines (codes content))

-- Everything but the look at the table waits for its result.
abbrev pub Waits : Mounts → Op → Type 0
Waits s (Op.read_to_string path) = Unit
Waits s other = Checked s

abbrev pub sysroot_first : Monitor
sysroot_first = record { State = Mounts; Allowed = Waits; next = follow }

abbrev pub Later : Op → Type 0
Later (Op.read_to_string path) = ⊥
Later other = Unit

abbrev pub Free : Mounts → Type 0
Free s = Unit

abbrev pub Both : Mounts → Type 0
Both s = Checked s × (s.delta ≡ true)

Waits-Later : (s : Mounts) (op : Op) → Later op → Checked s → Waits s op
Waits-Later s (Op.read_to_string path) l h = tt
Waits-Later s _ l h = h

Checked-follow :
    (s : Mounts) (op : Op) (r : Reply op) → Later op → Checked s → Checked (follow s op r)
Checked-follow s (Op.read_to_string path) r l h = absurd l
Checked-follow s (Op.command program args) r l h = h
Checked-follow s _ r l h = h

Both-follow : (s : Mounts) (op : Op) (r : Reply op) → Later op → Both s → Both (follow s op r)
Both-follow s (Op.read_to_string path) r l h = absurd l
Both-follow s (Op.command program args) r l h =
    (h.0, ap (λ c. c || (mounts_delta program args && succeeded r)) h.1)
Both-follow s _ r l h = h

abbrev pub Runs : {A : Type 0} → (Mounts → A → Type 0) → Mounts → Program A → Type 0
Runs T s x = Safe sysroot_first (Gets Free T) s x

pub Checked-then :
    {A B : Type 0} (U : Mounts → B → Type 0) (s : Mounts) (x : Program A) (f : A → Program B)
    → Uses Later x
    → Checked s
    → ((v : Mounts) (a : A) → Checked v → Runs U v (f a))
    → Runs U s (x >>= f)
Checked-then U s x f =
    Uses-Gets sysroot_first Free Later Checked Waits-Later Checked-follow (λ v h. tt) U s x f

pub Both-last :
    (s : Mounts) (x : Program (Unit {0})) → Uses Later x → Both s → Runs (λ v u. Both v) s x
Both-last s x u h =
    Uses-last sysroot_first Free Later Both (λ v op l k. Waits-Later v op l k.0) Both-follow
      (λ v k. tt) (λ v w. Both v) s x u h (λ v a k. k)

pub mount-Uses : (args : List String) → Uses Later (mount args)
mount-Uses args =
    >>=-Uses Later (run_command "mount" args) _ (run_command-Uses Later "mount" args tt)
      (λ stdout. tt)

mount_then :
    {A : Type 0} (args : List String) (k : Unit {0} → Program A)
    → Uses Later (k tt)
    → Uses Later (mount args >>= k)
mount_then args k h = >>=-Uses Later (mount args) k (mount-Uses args) (λ u. h)

pub overlay-Uses : (location : DeltaLocation) → Uses Later (setup_overlay location)
unfolding setup_overlay
overlay-Uses ram = (
  tt,
  λ r. tried-Uses Later r _ (
      mount_then ("tmpfs" ∷ "-t" ∷ "tmpfs" ∷ "/ram_overlay" ∷ []) _
        (tt, λ q. tried-Uses Later q _ (tt, λ w. tried-Uses Later w _ (mount_then _ _ tt)))),
)
overlay-Uses disk =
    (tt, λ q. tried-Uses Later q _ (tt, λ w. tried-Uses Later w _ (mount_then _ _ tt)))
overlay-Uses disk_persist =
    (tt, λ q. tried-Uses Later q _ (tt, λ w. tried-Uses Later w _ (mount_then _ _ tt)))

ready_dir-Uses :
    (path : String) (make : Program (Unit {0})) → Uses Later make → Uses Later (ready_dir path make)
unfolding ready_dir
ready_dir-Uses path make h = (
  tt,
  λ exists.
      if-Uses Later exists (call (Op.is_dir path) _) make
        (tt, λ is_dir. ensure-Uses Later is_dir Problem.not_a_directory) h,
)

copied-Uses : (origin : String) (e : End (List ℕ)) → Uses Later (copied origin e)
copied-Uses origin (ok stdout) = tt
copied-Uses origin (err e) = (tt, λ r. tt)
copied-Uses origin crashed = tt

copy-Uses : (dir origin : String) → Uses Later (copy_origin dir origin)
unfolding copy_origin
copy-Uses dir origin = (
  tt,
  λ r. tried-Uses Later r _ (
    tt,
    λ exists.
        if-Uses Later exists _ (ret tt)
          (>>=-Uses Later (attempt (run_command "cp" _)) (copied origin)
            (attempt-Uses Later (run_command "cp" _) (run_command-Uses Later "cp" _ tt))
            (copied-Uses origin))
          tt,
  ),
)

bind-Uses : (overlay_dir dir : String) → Uses Later (mount_bind overlay_dir dir)
unfolding mount_bind
bind-Uses overlay_dir dir =
    >>=-Uses Later (ready_dir _ (create_dir_all _)) _
      (ready_dir-Uses _ (create_dir_all _) (tt, from_attempt-Uses Later))
      (λ u.
        >>=-Uses Later (ready_dir _ (copy_origin dir _)) _
          (ready_dir-Uses _ (copy_origin dir _) (copy-Uses dir _)) (λ v. mount-Uses _))

pub binds-Uses :
    (overlay_dir : String) (dirs : List String) → Uses Later (mount_binds overlay_dir dirs)
unfolding mount_binds
binds-Uses overlay_dir [] = tt
binds-Uses overlay_dir (dir ∷ dirs) =
    >>=-Uses Later (attempt (mount_bind overlay_dir dir)) _
      (attempt-Uses Later (mount_bind overlay_dir dir) (bind-Uses overlay_dir dir))
      (λ res. binds-Uses overlay_dir dirs)
