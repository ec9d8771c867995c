-- ===== src/Hardware.antt =====
-- Hardware accesses, include/hardware_access.h, and their files, include/hardware_file.h and
-- src/hardware_file.cpp.
pub mod Access
pub mod File
pub mod Layout
pub mod Loading
pub mod Replay
pub mod Ends
pub mod Cursor
pub mod Print
