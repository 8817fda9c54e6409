-- ===== src/Comprenc.antt =====
-- src/s3ql/backends/comprenc.py.
pub mod Meta
pub mod Objects
pub mod Signed
pub mod Authentic
pub mod Packets
pub mod Filters
mod Tests
