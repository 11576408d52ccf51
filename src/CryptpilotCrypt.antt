-- ===== src/CryptpilotCrypt.antt =====
-- cryptpilot-crypt/src: the volumes of the configuration, and the commands on them.
pub mod Config
pub mod Show
pub mod Init
pub mod Open
pub mod Close
pub mod Check
pub mod AutoOpen
mod Tests
