-- ===== src/Lsm.antt =====
-- The log-structured merge tree (src/server/lsm).
pub mod Types
pub mod Codec
pub mod Order
pub mod Range
pub mod Iterator
pub mod MemTable
pub mod Page
pub mod SsTable
pub mod Merge
pub mod Disk
pub mod Source
pub mod KeyIterator
pub mod Tree
