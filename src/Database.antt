-- ===== src/Database.antt =====
-- The database (src/server/database and wal/recovery.cpp): recovery from the log, the catalog, sessions.
pub mod Recovery
pub mod Catalog
pub mod Session
