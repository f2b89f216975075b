-- ===== src/Config.antt =====
-- The package config: the stored configuration, and its changes.
pub mod Types
pub mod Keyring
pub mod Global
pub mod Authorities
pub mod Monitor
pub mod Autostart
pub mod Watching
