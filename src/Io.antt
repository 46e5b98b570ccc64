-- ===== src/Io.antt =====
-- Coroutine locks (src/server/io).
pub mod SharedMutex
