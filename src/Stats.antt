-- ===== src/Stats.antt =====
-- keydesk/storage/stats.go and the stack of counters of keydesk/storage/types.go: what the endpoint's
-- statistics do to the quotas of the users and to the counters of the brigade.
pub mod Traffic
pub mod Activity
pub mod Maps
pub mod Merge
pub mod Stack
pub mod Balance
pub mod Brigade
pub mod Current
pub mod Parse
