-- ===== src/SyncFile.antt =====
-- `class sync_file` of include/sync_file.h and src/sync_file.cpp, an operation or two to a module.
pub mod State
pub mod Load
pub mod Entry
pub mod Blocks
pub mod Points
pub mod Seek
pub mod Fetch
pub mod Events
