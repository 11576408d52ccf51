-- ===== src/CryptpilotCrypt/Config/Names.antt =====
-- The names of the volumes that cryptpilot-crypt/src/config/fs.rs loads.
use Prim.Native.String.{String, compare}
use Prim.Native.Nat.{Ordering, lt, eq, gt}
use text.Mathlib.Text.{◌==◌ as text_eq}
use text.Mathlib.TextEquality.{eq_iff}
use cryptpilot.Prelude.{
  ◌≡◌, refl, sym, ◌∙◌, Bool, true, false, not, ◌&&◌, ◌||◌, Option, List, [], ◌∷◌, ◌++◌,
  if◌then◌else◌,
}
use cryptpilot.Prelude.Sort.{insert_by, sort_by, AllOf, insert_by-AllOf, sort_by-AllOf}
use cryptpilot.CryptpilotCore.System.{Attempt, good, bad}
use cryptpilot.CryptpilotCore.Program.{Problem, ret, ◌>>◌, from_attempt, ensure}
use cryptpilot.CryptpilotCore.Program.Runs.{Leaves, Leaves-then, Leaves->>=, if-Leaves}
use cryptpilot.CryptpilotCrypt.Config.{
  VolumeConfig, has_toml_extension, contains_name, parsed, load_volume_config, load_entries,
  load_sorted, load_volume_configs,
}

-- The volume has another name than this one.
abbrev pub Other : String → VolumeConfig → Type 0
Other name config = ¬ (config.volume ≡ name)

-- No two configurations are for the same name.
abbrev pub Unique : List VolumeConfig → Type 0
Unique [] = Unit
Unique (config ∷ configs) = AllOf (Other config.volume) configs × Unique configs

AllOf-last :
    (P : VolumeConfig → Type 0) (configs : List VolumeConfig) (config : VolumeConfig)
    → AllOf P configs
    → P config
    → AllOf P (configs ++ config ∷ [])
AllOf-last P [] config all p = (p, tt)
AllOf-last P (c ∷ configs) config (q, all) p = (q, AllOf-last P configs config all p)

Unique-last :
    (configs : List VolumeConfig) (config : VolumeConfig)
    → Unique configs
    → AllOf (Other config.volume) configs
    → Unique (configs ++ config ∷ [])
Unique-last [] config unique others = (tt, tt)
Unique-last (c ∷ configs) config (apart, unique) (other, others) = (
  AllOf-last (Other c.volume) configs config apart (λ same. other (sym same)),
  Unique-last configs config unique others,
)

insert_by-Unique :
    (config : VolumeConfig) (configs : List VolumeConfig)
    → AllOf (Other config.volume) configs
    → Unique configs
    → Unique (insert_by (λ (c : VolumeConfig). c.volume) config configs)
insert_by-Unique config [] others unique = (tt, tt)
insert_by-Unique config (c ∷ configs) (other, others) (apart, unique) =
    by_order (compare config.volume c.volume) (insert_by-Unique config configs others unique) (
      insert_by-AllOf (λ (d : VolumeConfig). d.volume) (Other c.volume) config configs
        (λ same. other (sym same)) apart)
  where
    by_order :
        (o : Ordering)
        → Unique (insert_by (λ (d : VolumeConfig). d.volume) config configs)
        → AllOf (Other c.volume) (insert_by (λ (d : VolumeConfig). d.volume) config configs)
        → Unique (elim o as (λ _. List VolumeConfig) [
          | gt ↦ c ∷ insert_by (λ (d : VolumeConfig). d.volume) config configs
          | _ ↦ config ∷ c ∷ configs
        ])
    by_order lt later away = ((other, others), (apart, unique))
    by_order eq later away = ((other, others), (apart, unique))
    by_order gt later away = (away, later)

sort_by-Unique :
    (configs : List VolumeConfig)
    → Unique configs
    → Unique (sort_by (λ (c : VolumeConfig). c.volume) configs)
unfolding sort_by
sort_by-Unique [] unique = tt
sort_by-Unique (config ∷ configs) (apart, unique) =
    insert_by-Unique config (sort_by (λ (c : VolumeConfig). c.volume) configs)
      (sort_by-AllOf (λ (c : VolumeConfig). c.volume) (Other config.volume) configs apart)
      (sort_by-Unique configs unique)

-- The names that were seen are those of the configurations.
abbrev Seen : List String → List VolumeConfig → Type 0
Seen names configs = (name : String) → contains_name name names ≡ false → AllOf (Other name) configs

neither : (a b : Bool) → (a || b) ≡ false → (a ≡ false) × (b ≡ false)
neither true b h = absurd (cc h)
neither false b h = (refl, h)

unequal : (s t : String) → text_eq s t ≡ false → ¬ (s ≡ t)
unequal s t h same = let clash = sym h ∙ (eq_iff s t).1 same in cc clash

Seen-last :
    (names : List String) (configs : List VolumeConfig) (config : VolumeConfig)
    → Seen names configs
    → Seen (config.volume ∷ names) (configs ++ config ∷ [])
Seen-last names configs config seen name new =
    let (differs, rest) = neither (text_eq config.volume name) (contains_name name names) new in
    AllOf-last (Other name) configs config (seen name rest) (unequal config.volume name differs)

module _ (parse : String → Option VolumeConfig) (config_dir : String) where
  abbrev New : List String → VolumeConfig → Type 0
  New names config = contains_name config.volume names ≡ false

  checked :
      (names : List String) (config : VolumeConfig)
      → Leaves
          (New names)
          (ensure (not (contains_name config.volume names)) Problem.duplicate_volume >> ret config)
  checked names config = by_test (contains_name config.volume names) refl
    where
      by_test :
          (b : Bool)
          → contains_name config.volume names ≡ b
          → Leaves (New names) (ensure (not b) Problem.duplicate_volume >> ret config)
      by_test true h = tt
      by_test false h = h

  load_volume_config-New :
      (name : String) (names : List String)
      → Leaves (New names) (load_volume_config parse config_dir name names)
  unfolding load_volume_config
  load_volume_config-New name names = λ r.
      Leaves-then (New names) (from_attempt r) _
        (λ content. Leaves-then (New names) (parsed (parse content)) _ (checked names))

  load_entries-Unique :
      (entries : List (Attempt String)) (names : List String) (configs : List VolumeConfig)
      → Seen names configs
      → Unique configs
      → Leaves Unique (load_entries parse config_dir entries names configs)
  unfolding load_entries
  load_entries-Unique [] names configs seen unique = unique
  load_entries-Unique (bad e ∷ entries) names configs seen unique = tt
  load_entries-Unique (good name ∷ entries) names configs seen unique = λ is_file.
      if-Leaves Unique (is_file && has_toml_extension name) _ _
        (Leaves->>= (New names) Unique (load_volume_config parse config_dir name names) _
          (load_volume_config-New name names)
          (λ config new.
            load_entries-Unique entries (config.volume ∷ names) (configs ++ config ∷ [])
              (Seen-last names configs config seen)
              (Unique-last configs config unique (seen config.volume new))))
        (load_entries-Unique entries names configs seen unique)

  load_sorted-Unique : Leaves Unique (load_sorted parse config_dir)
  unfolding load_sorted
  load_sorted-Unique = λ r. Leaves-then Unique (from_attempt r) _ (λ entries.
      Leaves->>= Unique Unique (load_entries parse config_dir entries [] []) _
        (load_entries-Unique entries [] [] (λ name new. tt) tt) sort_by-Unique)

  -- Whatever the directory and its files hold, no two of the configurations that are loaded are for the
  -- same volume.
  pub load_volume_configs-Unique : Leaves Unique (load_volume_configs parse config_dir)
  unfolding load_volume_configs
  load_volume_configs-Unique = by_exists
    where
      by_exists :
          (exists : Bool) → Leaves Unique (if exists then load_sorted parse config_dir else ret [])
      by_exists true = load_sorted-Unique
      by_exists false = tt
