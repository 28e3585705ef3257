-- ===== src/Lib.antt =====
-- A model of the os-lab kernel, an xv6 for x86 with a ticket lock and recorded system calls.
--
-- The parts and how they interact
--   System calls reach the kernel through trap.c and syscall.c. Processes live in one table
--   (proc.c); a process waits by sleeping on an address and is woken by wakeup on that address.
--   Pipes (pipe.c) and the ticket lock (ticket_lock.c) are built on sleep and wakeup. The file
--   system (fs.c) makes its changes in transactions of the log (log.c), which reads and writes
--   blocks through the buffer cache (bio.c). The descriptors of processes (sysfile.c) share the entries
--   of one table of open files (file.c). The console (console.c) edits a line under its interrupt.
--   Pages come from one list (kalloc.c), and page tables (vm.c) map them into the memory of
--   processes. The kernel's string routines (string.c) stand below all of them, and spinlocks
--   (spinlock.c) guard each of the tables. grep.c, sort.c and the shell (sh.c) are user programs.
--
-- Which file models which part
--   Base            Boolean tests, lists and functions with native numbers, signed differences.
--   KString         string.c: memory is a function from addresses to bytes; memmove, memcpy,
--                   memset (with stosb and stosl of x86.h), memcmp, strncmp, strncpy and
--                   safestrcpy take a memory and return one.
--   Pipe            pipe.c: struct pipe as a record with both counters modulo 2^32; pipewrite and
--                   piperead up to where they return or sleep, with the wakeups that they send.
--     Window        the bytes between the counters, and when a pipe is well formed.
--     Refine        a bounded queue of bytes as the meaning of a pipe.
--     Ends, Flow, Stream   writers and readers that take turns, with who is asleep.
--   TicketLock      ticket_lock.c: the lock's record; acquiring up to the sleep, and releasing.
--     System        n processes that call it through sysproc.c, in any order, with wakeups and
--                   kills at any moment.
--     Turns, Invariant, Safety   the tickets that are out, and what follows.
--   Log             log.c: the log's record, the disk and the cached blocks; write_log, write_head,
--                   install_trans, commit, recover_from_log, begin_op, end_op, log_write.
--     Crash, Atomic, Steps       a bound on the block writes that still reach the disk, and what
--                   recovery makes of the rest.
--     Reserve       operations that begin, write and end in any order.
--   Proc            proc.c: the table as a function from indices to entries; allocproc, fork, exit,
--                   wait, sleep, wakeup1, kill, yield and the choice of the scheduler.
--     Search, Exit, Outcomes     what the loops over the table find and change.
--     Steps         the processes of a running system, in any order.
--     Family, Leave, Reaper, Pids   parents and children, and pids, in what can be reached.
--   Grep            grep.c: the matcher on patterns and texts as lists of characters, and the loop over
--                   what read delivers, with the text that is kept in buf.
--     Meaning, Matcher   patterns as pieces that describe stretches of a text.
--     Lines         which lines are seen, by where the reads cut the text.
--   Console         console.c: the indices of input and the memory from input.buf on; consoleintr on
--                   the keys as getc delivers them.
--     Keys, Editing the order of the indices, and what single keys do to the line.
--   Syscall         syscall.c: the arguments, fetched from the bytes of the calling process.
--     Arguments     which arguments are accepted.
--   File            file.c: the file table; filealloc, filedup and fileclose.
--     References    descriptors that open, duplicate and close files in any order.
--   Kalloc          kalloc.c: the free list through the first words of the pages; kalloc and kfree.
--     Pages         owners that take pages, write to them and give them back, in any order.
--   Shell           sh.c: characters of the line by index; gettoken and peek.
--     Parse         the recursive descent parser and nulterminate.
--     Scan, Redirs, Args, Total   how far each loop and call gets in the line.
--     Strings       the words of a command as strings in the line.
--   Fs              fs.c: blocks, the free map and inodes; balloc, bmap, readi, writei.
--     Blocks, Mapping, Direct, Words, Bmap   blocks that are free, and blocks that inodes map.
--     Causes, Logged   the calls of log_write that these functions make, and the log behind them.
--     Contents, Files, Pokes, Writes, Marks, Inodes   a file as its bytes.
--   Names           fs.c: skipelem and namex, over directories as a parameter.
--     Elements, Walk   a path as the list of its elements.
--   Spinlock        spinlock.c: the lock's record and what a CPU keeps for pushcli; acquire and release
--                   cut where other CPUs see the lock change.
--     System        CPUs that take and release locks in any order.
--     Invariant, Claims, Masks, Safety   who has claimed a lock, and how deep interrupts are off.
--   Bcache          bio.c: the buffers by index and the order of their list; bget, bread, bwrite, brelse.
--     Users         users that read, write and release blocks in any order.
--     Lookup, Sound, Reads, Sharing   which buffer has which block, and who uses it.
--   Vm              vm.c: pages by address with their bytes, page tables as words in them; walkpgdir and
--                   mappages.
--     Space, Copy   the operations on user memory, and the kernel's part of an address space.
--     Tree, Walk, Entries   a directory, its tables and the free pages, which stay apart.
--     Stretch, Maps the pages of a stretch, mapped one after the other.
--     Fresh, Added, Grown, Grow   a page taken for an address, and the loop of allocuvm.
--     Freed, Unmap, Shrunk, Shrink, Undone, Resize   a page given back, the loop of deallocuvm, and both
--                   functions as a whole.
--     Memory, Growproc   the memory that a user sees, and growproc of proc.c.
--   Sysfile         sysfile.c: the descriptors of all processes over the table of File; sys_dup, sys_close,
--                   the end of sys_open, and what fork and exit of proc.c do with descriptors.
--     Calls, History   these calls as steps of File.References, by processes in any order.
--   Sort            sort.c: the bubble sort of numbers with their indices.
--     Passes        the part that each pass brings into order.
--
-- How the code is read
--   A stretch of code under a spinlock is one function of the state that the lock guards. A call
--   of sleep splits a function: the model stops there with the state at the sleep, and calling
--   the function again is the way on. A call of panic is the outcome panic. A pointer into a
--   table is an index; a null pointer is none. The functions of fs.c mark the blocks with which they
--   call log_write, and logged_writei runs these calls on the log of Log: a panic is the same at
--   whatever point of the call it comes. filewrite cuts what it writes into pieces of three blocks,
--   which touch four at most, and begin_op keeps ten for each operation. A read of grep gives at most
--   what fits into buf, an empty one ends the program, and a line stops at a NUL. A CPU of Spinlock
--   can be interrupted while it has no cli outstanding, and go on with another value of intena, as
--   sched leaves it.
--
-- Bounds and fuel
--   A uint keeps its wrap-around by a remainder of 2^32. The ticket lock is used by at most 2^31
--   processes, and the table holds 64. Pids count up from 1 in an int of the source, which the model
--   keeps as its bits: they wrap at 2^32, and the statement on pids counts the calls of fork. The
--   string routines are modelled where no address wraps. The log takes an amount of power, one unit
--   for each block that reaches the disk, and stops writing when none is left; a commit that is not cut
--   short is one with power to spare. Loops over a table or a count recurse on what is left of it, so
--   no fuel can run out.
--   The rounds of Control-U are bounded by the end of the line, which is never below its start in the
--   states that are considered. The shell's loops have one unit of fuel more than the line has
--   characters, and the nesting of its calls four units for each character and four more; running out
--   is a result of its own. The loops of readi and writei have a round for each byte, and that of
--   namex one more than the path has characters. The loops of vm.c recurse on the number of their
--   rounds, which that of deallocuvm, where a table may be missing, need not use up.
--
-- What is not modelled
--   Memory that is seen out of order (a stretch under a spinlock is atomic), segment registers and the
--   loading of page tables into a processor, the reading of a program into memory, the inode cache and
--   the locks of inodes, what directories hold, the truncation of files, of sysfile.c all but
--   descriptors, the running of the shell's commands, the other user programs, drivers, boot and
--   assembly. The free map is a test on block numbers and not its bits. The log and the files use of
--   the buffer cache only what bread and bwrite promise; in Bcache the data and the sleep locks of
--   buffers are left out.
pub mod Base
pub mod KString
pub mod Pipe
pub mod TicketLock
pub mod Log
pub mod Proc
pub mod Grep
pub mod Console
pub mod Syscall
pub mod File
pub mod Kalloc
pub mod Shell
pub mod Fs
pub mod Names
pub mod Spinlock
pub mod Bcache
pub mod Vm
pub mod Sysfile
pub mod Sort
