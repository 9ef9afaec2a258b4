-- ===== src/Cstd.antt =====
-- The standard C functions of common/cstd.c that need no system call.
pub mod Bytes
pub mod Strings
pub mod Numbers
pub mod Format
mod Tests
