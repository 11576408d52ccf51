-- ===== src/CryptpilotCore.antt =====
-- cryptpilot-core/src: the operations on volumes and devices that the tools share, as programs over
-- calls of the system.
pub mod Types
pub mod System
pub mod Program
pub mod Cmd
pub mod Provider
pub mod Luks2
pub mod Blkid
pub mod Mkfs
pub mod Calls
mod Tests
