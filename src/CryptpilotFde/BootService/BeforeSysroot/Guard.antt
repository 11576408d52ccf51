-- ===== src/CryptpilotFde/BootService/BeforeSysroot/Guard.antt =====
-- What the stage before the mount of /sysroot (cryptpilot-fde/src/cmd/boot_service/stage/
-- before_sysroot.rs) has to know before it touches the delta volume.
use Prim.Native.String.{String}
use text.Mathlib.Text.{◌==◌ as text_eq}
use text.Mathlib.TextPositions.{eq_refl}
use cryptpilot.Prelude.{
  ℕ, Bool, true, false, ◌&&◌, ◌||◌, not, Option, none, some, List, [], ◌∷◌, ◌≡◌, ◌⊎◌, refl, ap, ◌∙◌,
}
use cryptpilot.CryptpilotCore.Types.{KeyProviderConfig, temporary}
use cryptpilot.CryptpilotCore.System.{Op, Reply, Attempt, good, bad}
use cryptpilot.CryptpilotCore.Program.Safety.{Monitor}
use cryptpilot.CryptpilotCore.Cmd.Answers.{succeeded}
use cryptpilot.CryptpilotCore.Provider.{volume_type}
use cryptpilot.CryptpilotCore.Luks2.Answers.{shows_final}
use cryptpilot.CryptpilotFde.Config.{
  disk, ram, DeltaBackend, overlayfs, dm_snapshot, FdeConfig, location_of, backend_of,
}
use cryptpilot.CryptpilotFde.BootService.Metadata.{Formats, metadata_path_in_initrd}
use cryptpilot.CryptpilotFde.BootService.BeforeSysroot.{verity_output, lower_device}

-- The root hash of the metadata, whether dm-verity was opened with it, and whether the header of the delta
-- volume was seen not to be that of an initialized volume.
pub record Boot : Type 0 where
  pub root : Option String
  pub verified : Bool
  pub fresh : Bool

abbrev pub power_on : Boot
power_on = record { root = none; verified = false; fresh = false }

abbrev pub texts_eq : List String → List String → Bool
texts_eq [] [] = true
texts_eq [] (y ∷ ys) = false
texts_eq (x ∷ xs) [] = false
texts_eq (x ∷ xs) (y ∷ ys) = text_eq x y && texts_eq xs ys

pub texts_eq_refl : (xs : List String) → texts_eq xs xs ≡ true
texts_eq_refl [] = refl
texts_eq_refl (x ∷ xs) = ap (λ b. b && texts_eq xs xs) (eq_refl x) ∙ texts_eq_refl xs

-- The root hash that the text of the metadata names, in lower case.
abbrev pub rewritten : Formats → Option (List ℕ) → Option String
rewritten t none = none
rewritten t (some bytes) = some (t.hex_encode bytes)

abbrev pub root_of : Formats → Attempt String → Option String
root_of t (good content) = elim (t.parse_metadata content) [
  | none ↦ none
  | some metadata ↦ rewritten t (t.hex_decode metadata.root_hash)
]
root_of t (bad e) = none

-- The device with the data of the rootfs: the volume, or the mapping of it if it is encrypted.
abbrev pub rootfs_data : Option KeyProviderConfig → String
rootfs_data none = "/dev/mapper/cryptpilot-rootfs"
rootfs_data (some provider) = "/dev/mapper/rootfs_decrypted"

-- The mapping that dm-verity makes: what is mounted, or what the snapshot is put over.
abbrev pub verified_mapping : DeltaBackend → String
verified_mapping overlayfs = "rootfs"
verified_mapping dm_snapshot = "rootfs_verity"

pub lower_device-rootfs_data :
    (encrypt : Option KeyProviderConfig) → lower_device encrypt ≡ rootfs_data encrypt
lower_device-rootfs_data none = refl
lower_device-rootfs_data (some provider) = refl

pub verity_output-verified_mapping :
    (backend : DeltaBackend) → (verity_output backend).0 ≡ verified_mapping backend
verity_output-verified_mapping overlayfs = refl
verity_output-verified_mapping dm_snapshot = refl

-- The arguments with which `veritysetup` opens the rootfs of the configuration.
abbrev pub verity_args : FdeConfig → String → List String
verity_args config root_hash =
    "open"
    ∷ rootfs_data config.rootfs.encrypt
    ∷ verified_mapping (backend_of config.rootfs.delta_backend)
    ∷ "/dev/mapper/cryptpilot-rootfs_hash"
    ∷ root_hash
    ∷ []

abbrev pub opens_verity : FdeConfig → Option String → String → List String → Bool
opens_verity config none program args = false
opens_verity config (some root_hash) program args =
    text_eq program "veritysetup" && texts_eq args (verity_args config root_hash)

abbrev pub observe : Formats → FdeConfig → Boot → (op : Op) → Reply op → Boot
observe t config s (Op.read_to_string path) r = record s {
  root = elim (text_eq path metadata_path_in_initrd) [ true ↦ root_of t r | false ↦ s.root ];
}
observe t config s (Op.command program args) r = record s {
  verified = s.verified || (opens_verity config s.root program args && succeeded r);
}
observe t config s (Op.read_first dev n) r = record s {
  fresh = s.fresh || (text_eq dev "/dev/mapper/cryptpilot-delta" && not (shows_final r));
}
observe t config s other r = s

-- The content of the delta volume may be thrown away: its key is not kept, or it is cleared at every
-- boot, or there is none.
abbrev pub MayErase : FdeConfig → Boot → Type 0
MayErase config s =
    (volume_type config.delta.encrypt ≡ temporary)
    ⊎ ((location_of config.rootfs.delta_location ≡ disk) ⊎ (s.fresh ≡ true))

-- Only the delta volume is formatted, gets a key, or is labelled, never when the delta is in memory, and
-- only below a rootfs that dm-verity has opened with the root hash of the metadata.
abbrev pub OnDelta : FdeConfig → Boot → String → Type 0
OnDelta config s dev =
    (dev ≡ "/dev/mapper/cryptpilot-delta")
    × (s.verified ≡ true)
    × (¬ (location_of config.rootfs.delta_location ≡ ram))

abbrev pub Guarded : FdeConfig → Boot → Op → Type 0
Guarded config s (Op.crypt_format params) = OnDelta config s params.device × MayErase config s
Guarded config s (Op.crypt_add_key dev size passphrase) = OnDelta config s dev
Guarded config s (Op.crypt_set_label dev label) = OnDelta config s dev
Guarded config s (Op.write_page dev offset bytes) = s.verified ≡ true
Guarded config s other = Unit

abbrev pub boot_guard : Formats → FdeConfig → Monitor
boot_guard t config = record { State = Boot; Allowed = Guarded config; next = observe t config }
