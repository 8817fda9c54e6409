-- ===== src/Backend.antt =====
-- src/s3ql/backends: what the backends share.
pub mod Retry
pub mod Escape
mod Tests
