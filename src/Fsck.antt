-- ===== src/Fsck.antt =====
-- src/s3ql/fsck.py.
pub mod State
pub mod Rows
pub mod Paths
pub mod Objects
pub mod Entries
pub mod Attributes
pub mod Inodes
pub mod Unix
pub mod Temp
pub mod Cache
pub mod Loops
pub mod Check
pub mod ObjectCounts
pub mod NameCounts
pub mod Agreement
pub mod Digits
pub mod Free
pub mod Dangling
pub mod PathFrame
pub mod Sizes
pub mod Cleaned
pub mod Idle
pub mod Untouched
pub mod Consistent
pub mod Quiet
pub mod Reached
pub mod Healthy
pub mod Committed
pub mod Crash
mod Tests
