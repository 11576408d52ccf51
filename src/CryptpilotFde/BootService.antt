-- ===== src/CryptpilotFde/BootService.antt =====
-- cryptpilot-fde/src/cmd/boot_service: the two stages that run in the initrd.
pub mod Metadata
pub mod Snapshot
pub mod BeforeSysroot
pub mod AfterSysroot
