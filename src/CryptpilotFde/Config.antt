-- ===== src/CryptpilotFde/Config.antt =====
-- The configuration of cryptpilot-fde/src/config/fde.rs.
use cryptpilot.Prelude.{Bool, Option, none, some}
use cryptpilot.CryptpilotCore.Types.{KeyProviderConfig}

pub data DeltaLocation : Type 0 where
  disk disk_persist ram : DeltaLocation

pub data DeltaBackend : Type 0 where
  overlayfs dm_snapshot : DeltaBackend

pub record RootFsConfig : Type 0 where
  pub delta_location : Option DeltaLocation
  pub delta_backend : Option DeltaBackend
  pub encrypt : Option KeyProviderConfig

pub record DeltaConfig : Type 0 where
  pub integrity : Bool
  pub encrypt : KeyProviderConfig

pub record FdeConfig : Type 0 where
  pub rootfs : RootFsConfig
  pub delta : DeltaConfig

-- `unwrap_or`.
abbrev pub location_of : Option DeltaLocation → DeltaLocation
location_of none = disk
location_of (some location) = location

-- `unwrap_or_default`.
abbrev pub backend_of : Option DeltaBackend → DeltaBackend
backend_of none = dm_snapshot
backend_of (some backend) = backend
