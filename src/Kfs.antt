-- ===== src/Kfs.antt =====
-- The file system of ko6 (fs/kfs/kfs.c): Kfs/Bitmap its allocator, Kfs/State its tables, Kfs/Tree the
-- names and directories, and Kfs/Files the pages of files.
pub mod Bitmap
pub mod State
pub mod Tree
pub mod Files
pub mod Links
pub mod Walk
mod Tests
