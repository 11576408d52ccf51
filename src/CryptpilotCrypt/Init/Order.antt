-- ===== src/CryptpilotCrypt/Init/Order.antt =====
-- The order of the calls of `persistent_disk_init` (cryptpilot-crypt/src/cmd/init.rs), and of those
-- below it.
pub mod Marked
pub mod Migration
pub mod Filesystem
pub mod Opening
pub mod Whole
use Prim.Native.String.{String, ◌++◌ as ◌<>◌}
use text.Mathlib.Text.{◌==◌ as text_eq}
use cryptpilot.Prelude.{
  ℕ, ◌*◌, ◌<◌, Bool, true, false, ◌&&◌, Option, none, some, List, [], ◌∷◌, ◌≡◌, ◌⊎◌, if◌then◌else◌,
}
use cryptpilot.CryptpilotCore.Types.{IntegrityType, no_integrity, journal, no_journal, MakeFsType}
use cryptpilot.CryptpilotCore.System.{Op, Reply, Attempt, good, bad, BlkTraceEvent}
use cryptpilot.CryptpilotCore.Program.Safety.{Monitor}
use cryptpilot.CryptpilotCore.Cmd.Answers.{succeeded}
use cryptpilot.CryptpilotCore.Luks2.{luks2_subsystem_name}
use cryptpilot.CryptpilotCore.Mkfs.{TraceApi, mkfs_command}
use cryptpilot.CryptpilotCore.Mkfs.Pages.{Touched}
use cryptpilot.CryptpilotCrypt.Config.{VolumeConfig}
use cryptpilot.CryptpilotCrypt.Init.{init_integrity}

-- What was read from a device last.
pub record Fetched : Type 0 where
  pub dev : String
  pub offset : ℕ
  pub size : ℕ
  pub content : List ℕ

-- What was written, with what was read last before it.
pub record Written : Type 0 where
  pub fetched : Option Fetched
  pub dev : String
  pub offset : ℕ
  pub content : List ℕ

-- What has succeeded since the last format: whether a key was added and the final label was set; the
-- path of the mapping made last; the devices on which mkfs ended with 0; the device traced last, with
-- its events; the size of a page; what was read last; what was written since the trace; and the device
-- flushed last, if nothing was written after that.
pub record Progress : Type 0 where
  pub keyed : Bool
  pub labelled : Bool
  pub target : Option String
  pub made : List String
  pub traced : Option (String × List BlkTraceEvent)
  pub page : Option ℕ
  pub fetched : Option Fetched
  pub written : List Written
  pub flushed : Option String

abbrev pub start : Progress
start = record {
  keyed = false;
  labelled = false;
  target = none;
  made = [];
  traced = none;
  page = none;
  fetched = none;
  written = [];
  flushed = none;
}

abbrev pub is_mkfs : Option MakeFsType → String → Bool
is_mkfs none program = false
is_mkfs (some fs_type) program = text_eq program (mkfs_command fs_type)

-- The last argument of mkfs is the device.
abbrev pub with_last : List String → List String → List String
with_last [] made = made
with_last (arg ∷ []) made = arg ∷ made
with_last (arg ∷ next ∷ args) made = with_last (next ∷ args) made

abbrev pub on_good : {A B : Type 0} → Attempt A → (A → B) → B → B
on_good (good a) f b = f a
on_good (bad e) f b = b

abbrev pub advance : VolumeConfig → Progress → (op : Op) → Reply op → Progress
advance config s (Op.crypt_format params) r = start
advance config s (Op.crypt_add_key dev size passphrase) r = record s {
  keyed = on_good r (λ u. true) s.keyed;
}
advance config s (Op.crypt_activate (some name) dev passphrase flag) r = record s {
  target = on_good r (λ u. some ("/dev/mapper/" <> name)) s.target;
}
advance config s (Op.command program args) r = record s {
  made =
      if is_mkfs config.extra_config.makefs program && succeeded r
      then with_last args s.made
      else s.made;
}
advance config s (Op.trace_finish dev) r = record s {
  traced = on_good r (λ events. some (dev, events)) s.traced;
  written = on_good r (λ events. []) s.written;
}
advance config s Op.page_size r = record s { page = on_good r (λ size. some size) s.page }
advance config s (Op.read_page dev offset size) r = record s {
  fetched =
      on_good r
        (λ content. some (record { dev = dev; offset = offset; size = size; content = content }))
        s.fetched;
}
advance config s (Op.write_page dev offset content) r = record s {
  written =
      on_good r
        (λ u.
          record { fetched = s.fetched; dev = dev; offset = offset; content = content } ∷ s.written)
        s.written;
  flushed = none;
}
advance config s (Op.flush dev) r = record s { flushed = on_good r (λ u. some dev) s.flushed }
advance config s (Op.crypt_set_label dev label) r = record s {
  labelled = on_good r (λ u. true) s.labelled;
}
advance config s other r = s

abbrev pub In : String → List String → Type 0
In dev [] = ⊥
In dev (d ∷ devs) = (dev ≡ d) ⊎ In dev devs

-- The bytes that were written to `real` at page `p` are those that were read before from `dev` there.
abbrev pub PageOf : String → String → ℕ → ℕ → Written → Type 0
PageOf dev real size p w =
    (content : List ℕ) × (w.fetched
      ≡ some (record { dev = dev; offset = p * size; size = size; content = content }))
    × (w.dev ≡ real)
    × (w.offset ≡ p * size)
    × (w.content ≡ content)

abbrev pub Copied : String → String → ℕ → ℕ → List Written → Type 0
Copied dev real size p [] = ⊥
Copied dev real size p (w ∷ ws) = PageOf dev real size p w ⊎ Copied dev real size p ws

-- mkfs ended with 0 on the open mapping.
abbrev pub Formatted : Progress → Type 0
Formatted s = (real : String) × (s.target ≡ some real) × In real s.made

-- mkfs ended with 0 on the device that was traced; each page that the trace touched was copied from
-- this device to the open mapping; and the mapping was flushed after the last page.
abbrev pub Migrated : TraceApi → Progress → Type 0
Migrated api s =
    (real : String) × (dev : String) × (events : List BlkTraceEvent) × (size : ℕ) × (s.target
      ≡ some real)
    × In dev s.made
    × (s.traced ≡ some (dev, events))
    × (s.page ≡ some size)
    × (0 < size → (p : ℕ) → Touched api size events p → Copied dev real size p s.written)
    × (s.flushed ≡ some real)

-- The file system that the configuration wants is there.
abbrev pub Filled : TraceApi → Option MakeFsType → IntegrityType → Progress → Type 0
Filled api none kind s = Unit
Filled api (some fs_type) no_integrity s = Formatted s
Filled api (some fs_type) journal s = Migrated api s
Filled api (some fs_type) no_journal s = Migrated api s

-- The label is set on the device itself, to the name that stands for an initialized volume, and only
-- when the key and the file system are there.
abbrev pub MayLabel : TraceApi → VolumeConfig → Progress → Op → Type 0
MayLabel api config s (Op.crypt_set_label dev label) =
    (dev ≡ config.dev)
    × (label ≡ luks2_subsystem_name)
    × (s.keyed ≡ true)
    × Filled api config.extra_config.makefs (init_integrity config.extra_config.integrity) s
MayLabel api config s other = Unit

abbrev pub init_order : TraceApi → VolumeConfig → Monitor
init_order api config = record {
  State = Progress;
  Allowed = MayLabel api config;
  next = advance config;
}
