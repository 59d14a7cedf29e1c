-- ===== src/Durable.antt =====
-- What operations of the storage leave of the brigade's files when calls of the file system and of
-- the endpoint fail.
pub mod Files
pub mod Operations
pub mod Replays
pub mod Runs
pub mod Calm
pub mod Peers
pub mod Creation
