-- ===== src/Replication.antt =====
-- Replication (src/server/replication and the reactor of src/server/services/replication_service).
pub mod Registry
pub mod Pump
pub mod Follower
