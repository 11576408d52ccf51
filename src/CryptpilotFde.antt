-- ===== src/CryptpilotFde.antt =====
-- cryptpilot-fde/src: full disk encryption, from the initrd on.
pub mod Config
pub mod BootService
mod Tests
