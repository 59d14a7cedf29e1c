-- ===== src/Messages.antt =====
-- internal/messages, pkg/filter and keydesk/messages.go: the messages of a brigade.
pub mod Filter
pub mod Order
pub mod Page
pub mod Cleanup
pub mod Service
pub mod Handlers
