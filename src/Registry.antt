-- ===== src/Registry.antt =====
-- registry/: what the services look up and share.
pub mod Users
pub mod Pauser
pub mod Addresses
pub mod Clients
pub mod Bots
pub mod Chains
