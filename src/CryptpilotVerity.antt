-- ===== src/CryptpilotVerity.antt =====
-- The program cryptpilot-verity: the metadata of a directory and the commands on it.
pub mod Answer
pub mod Metadata
pub mod Commands
mod Tests
