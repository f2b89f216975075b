-- ===== src/Control.antt =====
-- The package control: the services that the supervisor runs.
pub mod Bus
pub mod State
pub mod Syncer
pub mod Supervisor
pub mod Http
pub mod Messages
pub mod Scheduler
pub mod Updater
pub mod Console
pub mod Spawned
pub mod Volumes
