-- ===== src/Utils.antt =====
-- utils: texts that come from the configuration, and slices.
pub mod Http
pub mod Address
pub mod Slices
pub mod Retry
pub mod Examples
