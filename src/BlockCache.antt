-- ===== src/BlockCache.antt =====
-- src/s3ql/block_cache.py: the cache of file blocks, their upload and their removal.
pub mod Entry
pub mod State
pub mod Upload
pub mod Flush
pub mod Access
pub mod Expire
pub mod Refs
pub mod Stored
mod Tests
