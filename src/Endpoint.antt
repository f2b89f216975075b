-- ===== src/Endpoint.antt =====
-- The package endpoint: what the endpoints of a sync task are made of.
pub mod Patch
pub mod PatchStore
pub mod Uri
pub mod Snapshots
