-- ===== src/Errno.antt =====
-- The error codes of common/errno.h.
pub data Errno : Type 0 where
  failure success : Errno
  e2big eacces eagain ebadf eexist efault einval eperm erofs : Errno
  enomem enobufs efbig enospc edeadlk erange : Errno
  enoent enotdir eisdir enodev enxio enoexec enotty eio ebusy : Errno
  eintr esrch enosys : Errno
