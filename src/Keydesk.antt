-- ===== src/Keydesk.antt =====
-- The handlers of the package keydesk, and internal/maintenance, which they ask first.
pub mod Maintenance
pub mod Users
pub mod Blocking
pub mod Stats
pub mod NewUser
pub mod Answer
pub mod Brigade
