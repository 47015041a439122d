-- ===== src/Config.antt =====
-- config/: the configuration files' contents and their validation.
pub mod Users
pub mod Chains
pub mod Load
pub mod App
