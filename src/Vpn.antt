-- ===== src/Vpn.antt =====
-- internal/vpn: the VPN configurations of the users' service, the endpoint client that it calls, and
-- the sets of utils/set.go that it chooses protocols with.
pub mod Sets
pub mod Client
pub mod Protocols
pub mod Types
pub mod Generators
pub mod Generate
