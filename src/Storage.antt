-- ===== src/Storage.antt =====
-- keydesk/storage: the brigade, its users and its statistics, kept in one JSON file.
pub mod Types
pub mod Db
pub mod Names
pub mod VpnConfigs
pub mod Accounts
pub mod Users
pub mod Removal
pub mod Setup
pub mod Brigades
pub mod Replay
