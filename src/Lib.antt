-- ===== src/Lib.antt =====
-- Verification library of ko6, a small teaching kernel for MIPS and RISC-V with its C libraries.
--
-- The parts of the program and their files (paths from the root of the repository):
--
-- - DList: src/soft/common/list.h, intrusive circular lists, over a memory of link cells. DList/Ring is
--   the ring that a sequence of addresses makes, DList/Ops and DList/Walk relate each function to a
--   function on sequences. Every other component uses these lists for its waiting lists.
-- - Thread: src/soft/kernel/kthread.c and kthread.h, the table of threads and the scheduler:
--   sched_insert, sched_unlink, sched_elect, sched_switch, thread_create, thread_yield, thread_exit,
--   thread_join (join_wait before the caller waits, join_finish after), thread_wait, thread_notify,
--   thread_destroy, process_threads_cleanup, and tick_event of src/soft/kernel/klibc.c.
-- - Sync: src/soft/kernel/ksynchro.c, mutexes and barriers, which put threads to sleep and wake them
--   through the scheduler. Their waiting lists are sequences, as DList/Ops allows.
-- - Errno: the error numbers of src/soft/common/errno.h.
-- - Radix: src/soft/common/radix.c, a table of 2^32 pointers: radix_create, radix_get and radix_set.
--   Radix/Tree is the tree of nodes, Radix/Changes the single writes, Radix/Put and Radix/Roots with
--   Radix/Upper the parts of radix_set, and Radix/Law its promise.
-- - Fifo: fifo_push and fifo_pull of src/soft/kernel/klibc.c.
-- - Device: src/soft/kernel/kdev.c, the list of devices, each named by its tag and its minor number.
-- - Ustack: src/soft/kernel/kmemuser.c, the region of the user stacks: malloc_ustack and free_ustack,
--   which thread_create and thread_destroy call.
-- - Heap: src/soft/ulib/memory.c, the heap of user programs: malloc_init, malloc (try_malloc, merge) and
--   free. Heap/Blocks is the heap as a row of blocks, Heap/Lines the rounding to cache lines, Heap/Take
--   and Heap/Merge what the two parts of malloc do with the row, Heap/Law and Heap/Free the promises.
-- - Cstd: src/soft/common/cstd.c, over a memory of bytes. Cstd/Bytes has memset, memcpy, memmove, memcmp
--   and memchr, Cstd/Strings the functions on strings, Cstd/Numbers itoa, atoi and strtoul, and Cstd/Format
--   vsnprintf; below each are the modules of its proofs.
-- - Htopen: src/soft/common/htopen.c, the hash table with open addressing: hto_create, hto_get, hto_set,
--   hto_del, hto_rehash, hto_set_grow, hto_foreach and hto_destroy. A key is a word or a text.
-- - Slab: src/soft/kernel/kmemkernel.c, the allocator of the kernel: kmemkernel_init, kmalloc, kcalloc and
--   kfree, and in Slab/Accessors the functions on the entries of the pages. It clears memory with memset of
--   Cstd. Its free lists are sequences, as DList/Ops allows, and Slab/Links has what the list functions write
--   into the free objects and pages themselves.
-- - Blockio: src/soft/kernel/kblockio.c, blocks of disks in pages: blockio_get, blockio_sync and
--   blockio_release, on kmalloc and kfree of Slab. The functions of a driver are parameters.
-- - Kfs: src/soft/fs/kfs/kfs.c, the file system of ko6, as it is built for the host, where the disk is an array
--   of pages. Kfs/Bitmap is the allocator, Kfs/State the tables, Kfs/Tree the names and directories: kfs_getname,
--   kfs_open, kfs_openat, kfs_readdir and kfs_free_dentry, where a directory is the sequence of its dentries
--   (Kfs/Tree/Invariant). Kfs/Files has the pages: kfs_page, kfs_ppage, kfs_read and kfs_write, with the
--   contents of the first 12 pages of all files as its abstraction (Kfs/Files/Store). Kfs/Links has
--   kfs_link and kfs_unlink, and Kfs/Walk kfs_tree_cb.
-- - Vfs: src/soft/fs/vfs.c, the virtual file system: Vfs/Registry the types of file systems, Vfs/Mount the mount
--   table, a map from places to what is mounted there (Vfs/Mount/Table), Vfs/Kern mounting, Vfs/Files inodes,
--   files and paths, and Vfs/Split strsplit of src/soft/common/cstd.c. The functions of a file system are
--   parameters.
-- - Base: the names of the standard library that are used everywhere, Boolean tests, lists with native
--   lengths, the integers (Base/Int), and the outcome of code (Base/Run): done, panic, which is also an access
--   behind a buffer after which nothing is promised, or out of fuel.
--
-- State is a record for each component, and memory a function from addresses (natural numbers, 0 for
-- NULL) to cells. A pointer, a long and a size_t have 32 bits, as on the targets. Outside of Slab and
-- Blockio, kmalloc and calloc are parameters: the address that they return, or a supply of addresses,
-- which may run out. Interrupts come only where the code enables them, in the second loop of
-- sched_elect; what they do there is a parameter, a list of changes to the state with one change for
-- each round of that loop. A spin lock that is already taken hangs, since the kernel runs on one
-- processor.
--
-- Fuel: the walks along a list take a round more than the list has items, which is proved enough; the
-- waiting loop of sched_elect ends with its list of interrupts; the loops of malloc take two rounds more than
-- there are blocks, which is proved enough; process_threads_cleanup takes fuel. The functions on strings
-- take more rounds than the text has characters, which is proved enough. The loop that cuts a page into
-- objects takes 4096 rounds, one for each byte of the page. hto_set_grow takes fuel, since its loop need not
-- end. kfs_openat and kfs_free_dentry take fuel for the entries of a directory and kfs_tree_cb twice the
-- number of names and two, which are proved enough; strsplit takes a round more than the text has characters.
--
-- Not modelled: the saved registers and stacks of a thread, the drivers and the processor layer
-- (src/soft/hal), libfdt, the real file systems below Vfs, the loading of programs, the system calls, the
-- shell of the kernel, and all code that only prints.
pub mod Base
pub mod Errno
pub mod Cstd
pub mod Htopen
pub mod DList
pub mod Thread
pub mod Sync
pub mod Radix
pub mod Fifo
pub mod Device
pub mod Heap
pub mod Ustack
pub mod Slab
pub mod Blockio
pub mod Kfs
pub mod Vfs
