-- ===== src/CryptpilotCrypt/Show.antt =====
-- cryptpilot-crypt/src/cmd/show.rs: the status of a volume, and the rows of the table and the JSON. How
-- serde writes a value is a parameter; the words and colours of the table are left out.
pub mod Status
use Prim.Native.String.{String}
use cryptpilot.Prelude.{
  ℕ, Bool, true, false, not, ◌&&◌, ◌||◌, Option, none, some, List, [], ◌∷◌, if◌then◌else◌, is_empty,
}
use mathlib.Core.List.{filter}
use cryptpilot.CryptpilotCore.Types.{VolumeType, temporary, persistent}
use cryptpilot.CryptpilotCore.System.{Op}
use cryptpilot.CryptpilotCore.Program.{
  Problem, End, ok, err, crashed, Program, ret, fail, call, ◌>>=◌, ◌>>◌, attempt,
}
use cryptpilot.CryptpilotCore.Provider.{volume_type}
use cryptpilot.CryptpilotCore.Luks2.{VolumeInitState, no_marker, ready, is_active, get_init_state}
use cryptpilot.CryptpilotCrypt.Config.{
  ExtraConfig, VolumeConfig, Cache, get_volume_configs, contains_name,
}

pub data VolumeStatusKind : Type 0 where
  device_not_found check_failed requires_init initializing ready_to_open opened : VolumeStatusKind

abbrev pub status_of : End VolumeInitState → VolumeStatusKind
status_of (ok no_marker) = VolumeStatusKind.requires_init
status_of (ok VolumeInitState.initializing) = VolumeStatusKind.initializing
status_of (ok ready) = VolumeStatusKind.ready_to_open
status_of (err p) = VolumeStatusKind.check_failed
status_of crashed = VolumeStatusKind.check_failed

unfoldable pub persistent_status : VolumeConfig → Program VolumeStatusKind
persistent_status config = attempt (get_init_state config.dev) >>= λ state. ret (status_of state)

abbrev pub status_by_type : VolumeConfig → VolumeType → Program VolumeStatusKind
status_by_type config temporary = ret VolumeStatusKind.ready_to_open
status_by_type config persistent = persistent_status config

-- The part after the check of the mapping, for whether the device exists.
unfoldable pub status_if_closed : VolumeConfig → Bool → Program VolumeStatusKind
status_if_closed config true = status_by_type config (volume_type config.key_provider)
status_if_closed config false = ret VolumeStatusKind.device_not_found

unfoldable pub determine_status : VolumeConfig → Program VolumeStatusKind
determine_status config = do
  is_open ← is_active config.volume
  if is_open
      then ret VolumeStatusKind.opened
      else call (Op.path_exists config.dev) (status_if_closed config)

-- The serializers. `to_value` tells whether `serde_json::to_value` gives a value.
pub record Serializers : Type 0 where
  pub to_value : ExtraConfig → Bool
  pub to_toml : ExtraConfig → Option String
  pub to_json : List VolumeConfig → List VolumeStatusKind → Option String

abbrev pub is_none : {A : Type 0} → Option A → Bool
is_none none = true
is_none (some a) = false

-- `extra_options` is null or `{}`: the fields that are not set are skipped.
abbrev pub no_options : Serializers → ExtraConfig → Bool
no_options serde extra =
    not (serde.to_value extra)
    || (is_none extra.auto_open && (is_none extra.makefs && is_none extra.integrity))

abbrev pub serialized : Option String → Program (Unit {0})
serialized none = fail Problem.not_serialized
serialized (some text) = ret tt

-- The cell of the extra options.
abbrev pub options_cell : Serializers → ExtraConfig → Program (Unit {0})
options_cell serde extra =
    if no_options serde extra then ret tt else serialized (serde.to_toml extra)

-- The statuses in the table, one for each volume.
unfoldable pub print_as_table : Serializers → List VolumeConfig → Program (List VolumeStatusKind)
print_as_table serde [] = ret []
print_as_table serde (config ∷ configs) = do
  kind ← determine_status config
  options_cell serde config.extra_config
  kinds ← print_as_table serde configs
  ret (kind ∷ kinds)

-- The statuses of the volumes, in their order.
unfoldable pub statuses : List VolumeConfig → Program (List VolumeStatusKind)
statuses [] = ret []
statuses (config ∷ configs) = do
  kind ← determine_status config
  kinds ← statuses configs
  ret (kind ∷ kinds)

unfoldable pub print_as_json : Serializers → List VolumeConfig → Program (List VolumeStatusKind)
print_as_json serde configs = do
  kinds ← statuses configs
  serialized (serde.to_json configs kinds)
  ret kinds

-- `retain`.
abbrev pub retain : List String → List VolumeConfig → List VolumeConfig
retain names [] = []
retain names (config ∷ configs) =
    let rest = retain names configs in
    if contains_name config.volume names then config ∷ rest else rest

-- `ShowCommand::run`, for the names given and with or without `--json`.
unfoldable pub show :
    Serializers
    → (String → Option VolumeConfig)
    → String
    → List String
    → Bool
    → Cache
    → Program (List VolumeStatusKind)
show serde parse config_dir names json cache = do
  found ← get_volume_configs parse config_dir cache
  let chosen = if is_empty names then found.0 else retain names found.0
  if json then print_as_json serde chosen else print_as_table serde chosen
