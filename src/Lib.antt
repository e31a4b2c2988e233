-- ===== src/Lib.antt =====
-- Verification of the programs of the OS course repository.
--
-- The repository holds the exercises of a course: ex2 (buffered file access), ex3 (a producer,
-- dispatcher and editor pipeline over bounded buffers), ex4 (changes to the xv6 kernel: a scheduler
-- with accumulators in part1, semaphores in part2) and ex5 (a tree copy, and file permissions in
-- xv6).
--
-- Sem models ex4/part2/sem.c. `Sem` is `struct sem` without its lock, the table is a list, and
-- `sem_create`, `sem_free`, `sem_down`, `sem_up` keep their names; `sem_down` is cut at its call of
-- `sleep`, and `sem_down_resume` is what runs from the wakeup to the next test of the loop.
-- Sem/System interleaves any number of callers, an event being a stretch of code under the locks.
-- `sem_create` holds only the lock of the array, so it is cut into `sem_create_claim`, which marks a
-- slot as used, and `sem_create_fill`, which writes its values; Sem/System takes the two as one
-- event, for runs in which no call names a slot before its `sem_create` has returned.
--
-- Proc models ex4/part1: proc.h and proc.c in Proc (data), Proc/Sched (`get_min_accumulator`,
-- `scheduler`, `wakeup`), Proc/Kernel (`allocproc`, `freeproc`, `proc_pagetable`, `growproc`,
-- `fork`) and Proc/Life (`reparent`, `exit`, `wait`, `kill`, `sleep`, `yield`); trap.c and sysproc.c
-- in Proc/Trap. Proc/Sched/Passes is about the loop of `wakeup`. A function of proc.c that holds its
-- locks throughout is one step on the table; a pointer to an entry is its index, and `sched` ends the
-- function that calls it. What xv6 provides
-- outside the repository (memory, files, inodes, constants) is the record Proc/Env, an argument.
-- A C `int` is an integer with 32-bit increments (Prelude/Word), a `long long` accumulator wraps at
-- 64 bits, and unsigned sums are taken modulo their width. Loops over a table recur on the number of
-- entries left, which starts at the table's length, so no fuel can run out.
--
-- Buffer models ex3/BoundedBuffer.c and BoundedBuffer.h: the record and the stretches of
-- `insertToBuffer`, `removeFromBuffer` and `tryRemoveFromBuffer` between two calls of a semaphore or
-- of the mutex. Buffer/System interleaves `n` threads that call them; Buffer/Ring counts round the
-- array, Buffer/Count counts threads, Buffer/Keeps is the invariant, Buffer/Fifo what follows.
--
-- Buffered models ex2/buffered_open.c and buffered_open.h over `Os`, a record of the system's
-- calls. Buffered/Open has `buffered_open`. `buffered_write` recurs at most once for each byte and
-- `buffered_read` too, since a turn moves at least one byte, so that many turns are fuel enough.
-- Buffered/Regular states what the manual pages say of a regular file with room left;
-- Buffered/Bytes has the lists, Buffered/Refill the read buffer, Buffered/Prepend the writes of a
-- handle with O_PREAPPEND.
--
-- Pipeline models ex3/main.c: the texts and the searches in them in Pipeline, the threads
-- `producer`, `dispatcherFunc`, `coEditor` and `screenManagerFunc` in Pipeline/System, one step for
-- the code up to a thread's next call of a buffer. There a buffer is a queue, which is what
-- Buffer/Fifo shows of ex3/BoundedBuffer.c. Pipeline/Line, Pipeline/Moves and Pipeline/Flow follow
-- the messages of one producer and category, Pipeline/Sources, Pipeline/Finish, Pipeline/Topics and
-- Pipeline/Screen the way of FINISH_MSG; Pipeline/Order and Pipeline/Complete are what comes of it.
-- Pipeline/Config has `parseConfigFile` over the lines that `getline` gives; what C leaves undefined,
-- as `atoi` of a number that is no `int`, is `undefined` there. Pipeline/Parse has its two
-- passes against each other, Pipeline/Numeral, Pipeline/Layout and Pipeline/Written the files that it
-- is for.
--
-- Fs models the inodes of ex5/bonus/fs.c: `ialloc`, `iget`, `idup`, `ilock` and `iupdate` on the
-- entries of the table and on the inodes that the buffer cache shows, and `check_permission` of
-- ex5/bonus/sysfile.c. Fs/Unique is about the table, Fs/Copy about the two copies of an inode,
-- Fs/Allocate about new inodes and permissions. Fs/Blocks has the bitmap, `bzero`, `balloc` and `bfree`
-- over the blocks of the buffer cache, Fs/Bitmap the bits, Fs/Balloc and Fs/Bfree the blocks in use;
-- `balloc` has a turn as fuel for each block of the disk, and each turn passes over at least one; its
-- `int` is divided as one with a sign, and added to the unsigned bitmap start modulo 2^32.
-- Fs/Content has `bmap`, `itrunc`, `readi` and `writei`, which have one turn more as fuel than there are
-- bytes; Fs/Content/Map says which block holds which byte, and `Mapped` there is a file whose blocks
-- are allocated. Fs/Content/Memory is what they rely on of `either_copyout` and `either_copyin`, which
-- are arguments; Fs/Content/Write and Fs/Content/Read are about the two loops, Fs/Content/Owned and
-- Fs/Content/Truncate about the blocks that `itrunc` frees, Fs/Content/Growth, Fs/Content/Entry,
-- Fs/Content/Indirect and Fs/Content/Allocation about those that `bmap` takes.
--
-- Directory models the rest of ex5/bonus/fs.c on top of those: `dirlookup` and `dirlink` in
-- Directory, `skipelem`, `namex`, `namei` and `nameiparent` in Directory/Paths, with a turn as fuel
-- for each byte of a directory or of a path and one more. Directory/Slots is about one entry,
-- Directory/Lookup about the loop over them, Directory/Empty, Directory/Written, Directory/Named
-- and Directory/Link about `dirlink`, Directory/Elements about the elements of a path,
-- Directory/Turns about the turns of `namex`, Directory/Walk about the walk that they are. A text has no final 0; the arrays of 14 bytes are
-- lists, which `namecmp` reads up to their first 0.
--
-- Exec models ex5/bonus/exec.c over `Machine`, a record of the kernel's functions that it calls; each
-- way to `bad` is an argument of the definition of that name, and the write past the array `ustack`
-- that MAXARG strings lead to is an outcome of its own. `loadseg` has one turn as fuel for each
-- page and one for the last test. Exec/Stack is about the strings, Exec/Loads about the loop of
-- `loadseg`, Exec/Clean and Exec/Starts about how `exec` ends.
--
-- Copytree models ex5/copytree.c over `Posix`, a record of the system's calls: `copy_file` and
-- `copy_directory`, cut into definitions at their branches. Copytree/Tree has the trees, the steps
-- that make a copy of one (`actions`), and what is taken of the system (`Lawful`, `Inside`);
-- Copytree/Blocks is about the loop over a file, Copytree/Entries about the loop over a directory,
-- Copytree/Whole about the recursion. Its fuel is the tree's depth, and a turn for each byte of the
-- longest file and one more. Copytree/Main has `main` of ex5/part3.c, over what `getopt` returns.
--
-- Files models descriptors in ex5/bonus/sysfile.c (`argfd`, `fdalloc`, `sys_dup`, `sys_close`),
-- `sys_open` over a record of the rest of the file system in Files/Open and Files/Permit,
-- `sys_chmod` and `sys_getperm` with `iput` of ex5/bonus/fs.c in Files/Chmod, and
-- the fetching of arguments in ex4/part1/syscall.c, which the other copies of the file share.
-- Files/Links has `sys_link`, `isdirempty`, `sys_unlink`, `create`, `sys_mkdir`, `sys_mknod` and
-- `sys_chdir`, over the record of Files/Open and a record `Links` of what they call besides; the loop
-- of `isdirempty` has as many turns as there are entries after the first two. Files/Balance states
-- what those functions do to the references, locks and transactions that are held, and its modules
-- Link, Unlink and Create add up what a call holds. Files/Spawn has `sys_exec`, `sys_pipe`,
-- `sys_read`, `sys_write` and `sys_fstat` over the functions of file.c, pipe.c, kalloc.c and vm.c that
-- they call; the loop over the arguments has MAXARG turns. Files/Spawn/Pages is about the pages of
-- the arguments, Files/Spawn/Pipe about the descriptors of a pipe.
--
-- Not modelled: interrupts' register writes, boot code, consoles and the test programs; in
-- ex4/part1 the locks themselves; the null handle of ex2/buffered_open.c; the other programs of
-- ex2; the allocations of main in ex3; and of fs.c the superblock as `fsinit` reads it at boot, and `stati`.
pub mod Buffer
pub mod Buffered
pub mod Copytree
pub mod Directory
pub mod Exec
pub mod Files
pub mod Fs
pub mod Pipeline
pub mod Prelude
pub mod Proc
pub mod Sem
