-- ===== src/Vfs.antt =====
-- The virtual file system (fs/vfs.c): Vfs/State its tables, Vfs/Registry the types of file systems, Vfs/Mount
-- the mounted file systems, and Vfs/Files the inodes and files.
pub mod State
pub mod Registry
pub mod Mount
pub mod Split
pub mod Files
pub mod Kern
mod Tests
