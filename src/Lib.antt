-- ===== src/Lib.antt =====
-- WeiOS: models and theorems for the parts of the kernel that can be stated without its hardware.
--
-- The kernel runs processes under a two-queue scheduler (`kern/sched.c`) with a process table
-- (`kern/proc.c`); they open files (`kern/file.c`, `kern/sysfile.c`), talk over pipes (`kern/pipe.c`)
-- and reach the disk by a logged (`kern/log.c`) buffer cache (`kern/bio.c`) over a queue of disk
-- requests (`kern/ide.c`). Memory comes from a buddy system (`kern/buddy.c`), object caches
-- (`kern/slab.c`, `kern/kmalloc.c`) and, for a process, from `sbrk` and `brk` (`kern/sysfunc.c`).
--
-- The files, each with the proofs in the folder of its name:
--   Common    bits of words, lists with native indices, Boolean tests.
--   Pipe      `kern/pipe.c`: `pipe_read`, `pipe_write`, `pipe_close`; `Pipe.Queue` has the byte queue.
--   Proc      `kern/proc.c`: `get_pid`, `clear_pid`, `pid2proc`, the descriptor cache.
--   Sched     `kern/sched.c`, `include/sched.h`: the queues and `schedule`, a round of `scheduler`.
--   Files     `kern/file.c` and the descriptor calls of `kern/sysfile.c`.
--   Fs        the state of the block layer; Fs/Buffer is `getblk` to `brelse`, Fs/Log the log's
--             admission and `log_write`, Fs/Recovery its commit, crash and recovery, Fs/Bitmap the
--             block allocator, all of `kern/bio.c` and `kern/log.c`.
--   Ide       the queue of `kern/ide.c`: `update_idequeue`, `ide_intr`.
--   Buddy     `kern/buddy.c`: `rmqueue` is `__rmqueue`, `free_pages_bulk_one` `__free_pages_bulk`.
--   Slab      `kern/slab.c` and the classes of `kern/kmalloc.c`.
--   Heap      `sbrk` and `brk` of `kern/sysfunc.c`.
--   Text      `lib/string.c`.
--   Console   `set_local_attr` of `kern/console.c`.
--   Print     the number printers of `lib/printfmt.c`.
--   Lock      the spin locks of `kern/lock.c`.
--   Paging    `pgdir_walk`, `page_insert`, `page_lookup`, `page_remove` of `kern/pmap.c`.
--   Sleep     `sleep`, `wakeup`, `kill` of `kern/sysfunc.c`, over the queues of Sched.
--   Shell     the tokens, the parser and the search for a command of `user/sh.c`.
--   Sleeplock the sleep locks of `kern/lock.c`.
--   Family    `wait` and the two locked parts of `exit` of `kern/sysfunc.c`.
--   Inode     `kern/inode.c`: the cache with `iget`, `iput` and `ifree`; Inode/Blocks is `bmap`,
--             `readi` and `writei`, Inode/Path `dirlookup` and `namex`.
--   Links     `link`, `unlink`, `creat`, `mknod`, `mkdir`, `chdir` and the inode part of `open` of
--             `kern/sysfile.c`, and `dirlink` and `ialloc` of `kern/inode.c`, over the entries, types,
--             link counts and references of the inodes.
--   Rbtree    `lib/krbfunc.c`, as a store of nodes with pointers; Rbtree/Delete is the deletion, and
--             Rbtree/Shape says which tree a store holds.
--   Ipc       `ipc_try_send` and `ipc_recv` of `kern/sysfunc.c`, and `ipc_send` of `kern/syscall.c`.
--
-- State is a record and an operation a function to the next state; a call that panics, fails or
-- sleeps says so in its result. An object of the kernel is named by a number. A machine word is a
-- native number with its wrap-around written out. Code under a lock is one step. A process that
-- sleeps sees the state again as the others left it, which is a list of wakes for a pipe and a
-- sequence of steps for the log.
--
-- Bounds: the loops of the source that count are recursion on what is left to do, so their fuel is
-- their own bound: the orders of the buddy system, 8 size classes, the 32 bits of a word, the levels
-- of a queue, the bits and blocks of a bitmap. `set_local_attr` has 5 rounds, and its status has
-- come to an end after them. The shell's parser has one more than the length of the line that is left.
-- The loops of the red-black trees have fuel; the search and the place of a new node need one more than
-- the height. The two repairs return nothing where their fuel ends.
-- `readi` and `writei` have a round for each byte, and `namex` one more than the length of the path.
--
-- Not modelled: traps, the context switch, drivers and boot, which are hardware; the inode
-- blocks on the disk; the window of the page tables at UVPT; what `exit` gives back, and its
-- sleeps there; names of 14 bytes and more, which overrun the buffer of `namex`; what `dirlink` does
-- with a file that is no directory; fork and exec; the format loop and the other user programs.
pub mod Paging
pub mod Sleep
pub mod Shell
pub mod Family
pub mod Sleeplock
pub mod Inode
pub mod Links
pub mod Rbtree
pub mod Ipc
pub mod Common
pub mod Pipe
pub mod Proc
pub mod Sched
pub mod Files
pub mod Fs
pub mod Ide
pub mod Buddy
pub mod Slab
pub mod Heap
pub mod Text
pub mod Console
pub mod Print
pub mod Lock
