-- ===== src/Service.antt =====
-- internal/user: the users' service, which acts on a brigade within a transaction of the storage.
pub mod NewUsers
pub mod Users
pub mod Transactions
pub mod Fresh
pub mod Same
pub mod Creation
pub mod Deletion
