-- ===== src/CryptpilotCrypt/Tests.antt =====
-- The theorems on cryptpilot-crypt/src at concrete configurations, and a run of `open`.
use Prim.Native.String.{String}
use text.Mathlib.Text.{starts_with}
use cryptpilot.Prelude.{ℕ, ◌+◌, ◌≡◌, ◌↔◌, refl, true, false, not, Option, none, some, [], ◌∷◌}
use cryptpilot.CryptpilotCore.System.{Op, Reply, Attempt}
use cryptpilot.CryptpilotCore.Program.{End, Machine, run}
use cryptpilot.Prelude.Sort.{sort_by}
use cryptpilot.CryptpilotCore.Luks2.{is_initialized, get_init_state, get_luks2_subsystem, classify}
use cryptpilot.CryptpilotCore.Luks2.Header.{subsystem_of}
use cryptpilot.CryptpilotCore.Provider.{get_key}
use cryptpilot.CryptpilotCrypt.Config.{
  get_volume_configs, load_volume_configs, load_sorted, load_entries, load_volume_config,
}
use cryptpilot.CryptpilotCore.Program.Faults.{NeverFails}
use cryptpilot.CryptpilotCrypt.Show.{Serializers}
use cryptpilot.CryptpilotCrypt.AutoOpen.{auto_open_volumes, setup_user_provided_volumes}
use cryptpilot.CryptpilotCrypt.AutoOpen.Unfailing.{setup_user_provided_volumes-NeverFails}
use cryptpilot.CryptpilotCrypt.AutoOpen.Each.{selected, open_each, auto_open_volumes-open_each}
use cryptpilot.CryptpilotCrypt.Check.{
  check_config, check_volumes, check_volume, check_device, judge_device, check_key, judge_key,
}
use cryptpilot.CryptpilotCrypt.Check.Flags.{keeping, stopping}
use cryptpilot.CryptpilotCrypt.Check.Keeping.{check_config-keeping}
use cryptpilot.CryptpilotCore.Types.{ext4, kbs}
use cryptpilot.CryptpilotCore.Program.Safety.{Safe}
use cryptpilot.CryptpilotCore.Program.Gets.{Gets}
use cryptpilot.CryptpilotCore.Mkfs.{TraceApi}
use cryptpilot.CryptpilotCrypt.Config.{VolumeConfig}
use cryptpilot.CryptpilotCrypt.Init.{InitOptions, persistent_disk_init}
use cryptpilot.CryptpilotCore.Program.Runs.{Leaves}
use cryptpilot.CryptpilotCrypt.Config.Names.{Unique, load_volume_configs-Unique}
use cryptpilot.CryptpilotCrypt.Init.Closed.{mapping, Closed}
use cryptpilot.CryptpilotCrypt.Init.Closed.Whole.{persistent_disk_init-Closed}
use cryptpilot.CryptpilotCrypt.Open.{open_for_specific_volume}
use cryptpilot.CryptpilotCrypt.Open.Keeps.{nothing, open_keeps}
use cryptpilot.CryptpilotCrypt.Open.Keeps.Whole.{open_for_specific_volume-Keeps}

abbrev api : TraceApi
api = record { tc_shift = 16; tc_read = 1; tc_write = 2; tc_discard = 8192 }

abbrev data0 : VolumeConfig
data0 = record {
  volume = "data0";
  dev = "/dev/vdb";
  extra_config = record { auto_open = some true; makefs = some ext4; integrity = some true };
  key_provider = kbs "https://kbs";
}

abbrev options : InitOptions
options = record { volume = "data0" ∷ []; force_reinit = false; assume_yes = true }

open_for_specific_volume-Keeps_example :
    Safe
      (open_keeps data0)
      (Gets (λ s. Unit {0}) (λ s u. s.mapped ≡ true))
      nothing
      (open_for_specific_volume api data0 true)
open_for_specific_volume-Keeps_example = open_for_specific_volume-Keeps data0 api refl true

-- An environment with a file of a volume configuration in which every call succeeds. Its state is the
-- number of calls.
abbrev reply : (op : Op) → Reply op
reply (Op.path_exists path) = not (starts_with path "/dev/mapper/")
reply (Op.read_first path n) = Attempt.good []
reply (Op.command program args) = Attempt.good (record { code = some 0; stdout = []; text = [] })
reply (Op.random_bytes n) = []
reply (Op.random_name n) = "name"
reply (Op.fetch_key provider) = Attempt.good (7 ∷ [])
reply (Op.is_file path) = true
reply (Op.is_dir path) = true
reply Op.is_term = true
reply Op.confirm = Attempt.good true
reply (Op.device_size path) = Attempt.good 4096
reply (Op.device_block_size path) = Attempt.good 512
reply (Op.setup_dummy size block) = Attempt.good "/dev/loop0"
reply (Op.trace_finish path) = Attempt.good []
reply Op.page_size = Attempt.good 4096
reply (Op.read_page path offset n) = Attempt.good []
reply (Op.read_dir path) = Attempt.good (Attempt.good "data1.toml" ∷ Attempt.good "notes" ∷ [])
reply (Op.read_to_string path) = Attempt.good "data1"
reply (Op.open_exclusive path) = Attempt.good tt
reply (Op.crypt_init path) = Attempt.good tt
reply (Op.crypt_init_by_name name) = Attempt.good tt
reply (Op.crypt_load path) = Attempt.good tt
reply (Op.crypt_deactivate name) = Attempt.good tt
reply (Op.crypt_format params) = Attempt.good tt
reply (Op.crypt_add_key path size passphrase) = Attempt.good tt
reply (Op.crypt_set_label path label) = Attempt.good tt
reply (Op.crypt_activate name path passphrase flag) = Attempt.good tt
reply (Op.detach_dummy path) = Attempt.good tt
reply (Op.trace_start path) = Attempt.good tt
reply (Op.trace_stop path) = Attempt.good tt
reply (Op.open_device path) = Attempt.good tt
reply (Op.write_page path offset content) = Attempt.good tt
reply (Op.flush path) = Attempt.good tt
reply (Op.create_dir_all path) = Attempt.good tt
reply (Op.remove_dir_all path) = Attempt.good tt
reply (Op.write_text path text) = Attempt.good tt

abbrev machine : Machine
machine = record { State = ℕ; answer = λ n op. (n + 1, reply op) }

abbrev data1 : VolumeConfig
data1 = record data0 {
  volume = "data1";
  extra_config = record { auto_open = none; makefs = none; integrity = none };
}

abbrev parse_all : String → Option VolumeConfig
parse_all content = some data1

passes :
    run machine 0 (check_config parse_all "/etc/cryptpilot" (keeping false) none) ≡ (8, End.ok tt)
unfolding check_config get_volume_configs load_volume_configs load_sorted load_entries
    load_volume_config sort_by check_volumes check_volume check_device is_initialized get_init_state
    get_luks2_subsystem subsystem_of judge_device check_key get_key judge_key classify
passes = refl

check_config-keeping_example :
    (run machine 0 (check_config parse_all "/etc/cryptpilot" (keeping false) none) ≡ (8, End.ok tt))
    ↔ (run machine 0 (check_config parse_all "/etc/cryptpilot" (stopping false) none)
        ≡ (8, End.ok tt))
check_config-keeping_example =
    check_config-keeping false machine parse_all "/etc/cryptpilot" none 0 8

abbrev serde : Serializers
serde = record {
  to_value = λ extra. true;
  to_toml = λ extra. some "integrity = true";
  to_json = λ configs kinds. some "[]";
}

setup_user_provided_volumes-NeverFails_example :
    NeverFails (
      setup_user_provided_volumes api serde parse_all "/etc/cryptpilot" (some (data0 ∷ data1 ∷ [])))
setup_user_provided_volumes-NeverFails_example =
    setup_user_provided_volumes-NeverFails api serde parse_all "/etc/cryptpilot"
      (data0 ∷ data1 ∷ []) (("integrity = true", refl), (("integrity = true", refl), tt))

auto_open_volumes-open_each_example :
    run machine 0 (auto_open_volumes api (data0 ∷ data1 ∷ []))
    ≡ open_each api machine (selected (data0 ∷ data1 ∷ [])) 0
auto_open_volumes-open_each_example = auto_open_volumes-open_each api machine (data0 ∷ data1 ∷ []) 0

persistent_disk_init-Closed_example :
    Safe mapping Closed none (persistent_disk_init api options data0)
persistent_disk_init-Closed_example = persistent_disk_init-Closed api data0 options

load_volume_configs-Unique_example : Leaves Unique (load_volume_configs parse_all "/etc/cryptpilot")
load_volume_configs-Unique_example = load_volume_configs-Unique parse_all "/etc/cryptpilot"
