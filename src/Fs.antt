-- ===== src/Fs.antt =====
-- src/s3ql/fs.py: the file system operations, over the tables of the metadata database.
pub mod State
pub mod Namespace
pub mod Removal
pub mod Attr
pub mod Data
pub mod Size
pub mod XattrCount
mod Tests
