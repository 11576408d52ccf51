-- ===== src/CryptpilotCrypt/Open/Keeps.antt =====
-- What `open_for_specific_volume` of cryptpilot-crypt/src/cmd/open.rs does to a persistent volume.
pub mod Persistent
pub mod Whole
use Prim.Native.String.{String, ◌++◌ as ◌<>◌}
use text.Mathlib.Text.{◌==◌ as text_eq}
use cryptpilot.Prelude.{Bool, true, false, ◌&&◌, ◌||◌, Option, none, some, List, ◌≡◌, ◌⊎◌}
use cryptpilot.CryptpilotCore.Types.{KeyProviderConfig, exec}
use cryptpilot.CryptpilotCore.System.{Op, Reply, Attempt, good, bad}
use cryptpilot.CryptpilotCore.Program.Safety.{Monitor}
use cryptpilot.CryptpilotCore.Luks2.{is_ready}
use cryptpilot.CryptpilotCore.Luks2.Answers.{shows_final}
use cryptpilot.CryptpilotCrypt.Config.{VolumeConfig}

-- What has been seen: a header of an initialized volume on the device, a passphrase that unlocks it,
-- and the mapping of the volume.
pub record Seen : Type 0 where
  pub marked : Bool
  pub unlocked : Bool
  pub mapped : Bool

abbrev pub nothing : Seen
nothing = record { marked = false; unlocked = false; mapped = false }

abbrev pub watch : VolumeConfig → Seen → (op : Op) → Reply op → Seen
watch config s (Op.read_first dev n) r = record s {
  marked = s.marked || (text_eq dev config.dev && shows_final r);
}
watch config s (Op.crypt_activate none dev passphrase free) (good u) = record s { unlocked = true }
watch config s (Op.crypt_activate (some name) dev passphrase free) (good u) = record s {
  mapped = s.mapped || text_eq name config.volume;
}
watch config s (Op.path_exists path) r = record s {
  mapped = s.mapped || (text_eq path ("/dev/mapper/" <> config.volume) && r);
}
watch config s other r = s

-- The programs that may run: modprobe, blkid, and the one that prints the key.
abbrev pub MayRun : KeyProviderConfig → String → Type 0
MayRun provider program =
    (program ≡ "modprobe")
    ⊎ ((program ≡ "blkid") ⊎ ((args : List String) × (provider ≡ exec program args)))

-- Nothing is formatted, written, or labelled. A passphrase is tried only at a marked device, and the
-- mapping is set up for the volume, from its device, when it is marked and unlocked.
abbrev pub Keeps : VolumeConfig → Seen → Op → Type 0
Keeps config s (Op.crypt_format params) = ⊥
Keeps config s (Op.crypt_add_key dev size passphrase) = ⊥
Keeps config s (Op.crypt_set_label dev label) = ⊥
Keeps config s (Op.setup_dummy size block) = ⊥
Keeps config s (Op.write_page dev offset bytes) = ⊥
Keeps config s (Op.flush dev) = ⊥
Keeps config s (Op.command program args) = MayRun config.key_provider program
Keeps config s (Op.crypt_activate none dev passphrase free) = (dev ≡ config.dev) × (s.marked ≡ true)
Keeps config s (Op.crypt_activate (some name) dev passphrase free) =
    (name ≡ config.volume) × (dev ≡ config.dev) × (s.marked ≡ true) × (s.unlocked ≡ true)
Keeps config s (Op.crypt_init_by_name name) = name ≡ config.volume
Keeps config s (Op.crypt_deactivate name) = name ≡ config.volume
Keeps config s other = Unit

abbrev pub open_keeps : VolumeConfig → Monitor
open_keeps config = record { State = Seen; Allowed = Keeps config; next = watch config }
