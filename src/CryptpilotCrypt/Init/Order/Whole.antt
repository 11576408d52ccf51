-- ===== src/CryptpilotCrypt/Init/Order/Whole.antt =====
-- `persistent_disk_init` of cryptpilot-crypt/src/cmd/init.rs as a whole.
use cryptpilot.Prelude.{true, false, Option, ◌≡◌}
use cryptpilot.CryptpilotCore.Types.{IntegrityType, MakeFsType}
use cryptpilot.CryptpilotCore.Program.Uses.{Uses}
use cryptpilot.CryptpilotCore.Program.Gets.{Gets}
use cryptpilot.CryptpilotCore.Mkfs.{TraceApi}
use cryptpilot.CryptpilotCrypt.Config.{VolumeConfig}
use cryptpilot.CryptpilotCrypt.Init.{init_integrity}
use cryptpilot.CryptpilotCrypt.Init.Order.{Progress, Filled}

module _ (api : TraceApi) (config : VolumeConfig) where
  abbrev integrity : IntegrityType
  integrity = init_integrity config.extra_config.integrity

  -- The key and the file system are there.
  abbrev Made : Option MakeFsType → Progress → Type 0
  Made makefs s = (s.labelled ≡ false) × (s.keyed ≡ true) × Filled api makefs integrity s
