-- ===== src/CryptpilotCrypt/Config.antt =====
-- cryptpilot-crypt/src/config: the configuration of the volumes, from files below a directory and
-- through a cache. How the text of a file is parsed as TOML is a parameter.
pub mod Names
use Prim.Native.String.{String, ◌++◌ as ◌<>◌}
use text.Mathlib.Text.{◌==◌ as text_eq, starts_with}
use cryptpilot.Prelude.{
  ℕ, Bool, true, false, not, ◌&&◌, ◌||◌, Option, none, some, List, [], ◌∷◌, ◌++◌, if◌then◌else◌,
}
use mathlib.Core.List.{reverse}
use cryptpilot.Prelude.Sort.{sort_by}
use cryptpilot.Prelude.Text.{codes, strip_prefix}
use cryptpilot.CryptpilotCore.Types.{MakeFsType, KeyProviderConfig}
use cryptpilot.CryptpilotCore.System.{Op, Attempt, good, bad}
use cryptpilot.CryptpilotCore.Program.{
  Problem, Program, ret, fail, call, ◌>>=◌, ◌>>◌, from_attempt, ensure,
}

pub record ExtraConfig : Type 0 where
  pub auto_open : Option Bool
  pub makefs : Option MakeFsType
  pub integrity : Option Bool

pub record VolumeConfig : Type 0 where
  pub volume : String
  pub dev : String
  pub extra_config : ExtraConfig
  pub key_provider : KeyProviderConfig

-- `volume_path`; a join with an absolute path gives that path.
abbrev pub volume_path : VolumeConfig → String
volume_path config =
    if starts_with config.volume "/" then config.volume else "/dev/mapper/" <> config.volume

-- `== Some(true)`.
abbrev pub is_set : Option Bool → Bool
is_set none = false
is_set (some b) = b

abbrev stem_left : Option (List ℕ) → Bool
stem_left none = false
stem_left (some []) = false
stem_left (some (c ∷ stem)) = true

-- `path.extension().is_some_and(|ext| ext == "toml")` for a name without slashes.
abbrev pub has_toml_extension : String → Bool
has_toml_extension name = stem_left (strip_prefix (reverse (codes ".toml")) (reverse (codes name)))

-- `volume_names.contains`.
abbrev pub contains_name : String → List String → Bool
contains_name name [] = false
contains_name name (n ∷ names) = text_eq n name || contains_name name names

abbrev pub parsed : Option VolumeConfig → Program VolumeConfig
parsed none = fail Problem.parse_failed
parsed (some config) = ret config

-- The configuration that is cached, if any.
abbrev pub Cache : Type 0
Cache = Option (List VolumeConfig)

-- `find`.
abbrev pub find_config : String → List VolumeConfig → Program VolumeConfig
find_config name [] = fail Problem.unknown_volume
find_config name (config ∷ configs) =
    let later = find_config name configs in if text_eq config.volume name then ret config else later

module _ (parse : String → Option VolumeConfig) (config_dir : String) where
  -- The part of the loop for a file whose name ends in .toml.
  unfoldable pub load_volume_config : String → List String → Program VolumeConfig
  load_volume_config name volume_names =
      call (Op.read_to_string (config_dir <> "/volumes/" <> name)) λ r.
        from_attempt r >>= λ content. parsed (parse content) >>= λ config.
        ensure (not (contains_name config.volume volume_names)) Problem.duplicate_volume
        >> ret config

  -- The loop over the entries of the directory, up to the first one that cannot be had.
  unfoldable pub load_entries :
      List (Attempt String) → List String → List VolumeConfig → Program (List VolumeConfig)
  load_entries [] volume_names volume_configs = ret volume_configs
  load_entries (bad e ∷ entries) volume_names volume_configs = fail (Problem.outside e)
  load_entries (good name ∷ entries) volume_names volume_configs =
      let next = load_entries entries in
      call (Op.is_file (config_dir <> "/volumes/" <> name)) λ is_file.
        if is_file && has_toml_extension name
        then load_volume_config name volume_names
          >>= (λ config. next (config.volume ∷ volume_names) (volume_configs ++ config ∷ []))
        else next volume_names volume_configs

  unfoldable pub load_sorted : Program (List VolumeConfig)
  load_sorted = do
    entries ← call (Op.read_dir (config_dir <> "/volumes")) from_attempt
    configs ← load_entries entries [] []
    ret (sort_by (λ (config : VolumeConfig). config.volume) configs)

  unfoldable pub load_volume_configs : Program (List VolumeConfig)
  load_volume_configs =
      call (Op.path_exists (config_dir <> "/volumes"))
        λ exists. if exists then load_sorted else ret []

  -- `get_volume_configs` of the cached source, with the cache after it.
  unfoldable pub get_volume_configs : Cache → Program (List VolumeConfig × Cache)
  get_volume_configs (some volumes) = ret (volumes, some volumes)
  get_volume_configs none = load_volume_configs >>= λ volumes. ret (volumes, some volumes)

  unfoldable pub get_volume_config : String → Cache → Program (VolumeConfig × Cache)
  get_volume_config name cache = get_volume_configs cache >>= λ found.
      find_config name found.0 >>= λ config. ret (config, found.1)
