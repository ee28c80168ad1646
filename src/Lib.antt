-- ===== src/Lib.antt =====
-- PugOS: a verification library for the kernel.
--
-- PugOS is a small multiprocessor kernel of the Chickadee family. A process reaches the kernel through
-- `proc::syscall` (kernel.cc), which works on tables of files (k-vfs.hh), on pipes, memory files, the
-- console and inodes behind them (k-vfs.cc), on the disk file system with its buffer cache
-- (k-chkfs.cc, k-chkfsiter.cc), and on memory from the page allocator (k-alloc.cc), which at boot
-- cuts up the physical ranges that k-init.cc enters into a `memrangeset` (k-memrange.hh).
--
-- The parts that are modelled, each in the file named first with its proofs in the folder beside it:
--
--   Alloc      k-alloc.cc, the buddy allocator. `Allocator` holds `pages` and the free lists, which
--              are lists of page numbers; `init_kalloc`, `kalloc` and `kfree` are each one step,
--              since they hold `page_lock`. `none` is a failed assertion or an access that C++
--              leaves undefined; a null pointer is a result. Order (sizes and orders), Buddy, Split
--              and BreakUp (the loop of kalloc), Merge and Coalesce (the loop of kfree), Init (boot, with Filled on what it makes
--              of each range),
--              Kalloc and Kfree (the two calls); Inv is the invariant, which is stated on addresses:
--              the blocks are aligned and disjoint, and the lists hold just the free ones.
--   Pipe       k-vfs.hh `bbuffer`, k-vfs.cc `vnode_pipe`. Ring reads the buffer as a queue, Transfer
--              has the two calls, and Stream puts them into any order that the lock and the wait
--              queues allow. A call begins with its assertion about the end of the pipe, and waits while its `*_ready`
--              condition is false.
--   MemFile    k-devices.hh `memfile`, k-vfs.cc `vnode_memfile`. Of `data_` the model holds whether it
--              points into the image of the kernel or at a block of kalloc, which `kfree` depends on.
--   Files      k-vfs.hh `file`, `vnode` and `fdtable`, `file::deref` and `file::~file` of k-vfs.cc, and
--              the calls of kernel.cc that work on them: close and dup2 (Calls), pipe and, from the
--              search for a descriptor on, open (Create), and lseek (Seek). One state holds all tables,
--              files and vnodes; a freed object stays in it, not `live`, so that a use after free is
--              a `none`. Inv says what the reference counts count.
--              Tables has the copy that a fork makes of a table and the release of one in an exit.
--   Process    kernel.hh `proc`, k-proc.cc `ptable`, and of kernel.cc process_fork (Fork), process_exit
--              (Exit), process_reap (Reap) and the calls waitpid (Waitpid), clone and texit (Threads). One
--              state holds both tables, the procs by their pages, and the tables of files. Family is
--              the invariant, on who is on whose list of children.
--   Wait       k-wait.hh, threads that wait on a queue for a condition, and one that makes it true and
--              wakes the queue, as steps in any order. Awake is on the order that loses no wake-up,
--              Order on that of process_exit.
--   Sched      k-cpu.cc, the run queue of a processor with `cpustate::enqueue` and `cpustate::schedule`, whose
--              loop Picked compares with the first process of the queue that can run.
--   Paging     k-vmiter.cc `vmiter`, over a memory that gives the entries of a page table, and
--              `validate_memory` of kernel.cc. Walk is on the walk and how it is gone on with, Range on
--              the ranges that a process may use.
--   MemRange   k-memrange.hh `memrangeset`, with the starts and the types of its array as functions of
--              the index. Order has what `validate` checks, Cut has `split`, Search and Bounds the
--              bounds of `set`, Fits, Place and Assign the rest of it, and SetRange the whole.
--   Keyboard   k-devices.cc `keyboard_readc` (Scancode) and `keyboardstate`, the buffer between the
--              keyboard interrupt (Typing) and the `read` of the console (Taking, Reading); Queue reads
--              the buffer as a queue.
--   Mem        lib.cc, memcpy, memmove, memset and memcmp on a memory that maps an address to a byte.
--   Text       lib.cc, strlen, strnlen, strcpy, strcmp, strncmp and strchr on the same memory. Held says
--              that a string stands at an address, which is what relates the calls to lists.
--   Number     lib.cc, strtoul and strtol on a string, as the list of its bytes, fill_numbuf, and
--              rand. Digits, Print and Zeros carry RoundTrip; Random is on rand.
--   Printf     lib.cc, `printer_vprintf`, as the characters that it hands to `putc`, in order, each
--              with its color. Layout is on one conversion, Fuel on the loop over the format, Buffer has
--              vsnprintf and Console the console of 25 rows.
--   Chkfs      k-chkfs.cc. Lock is the read/write lock of an inode, at the grain of its atomic accesses:
--              Shares and Exclusive have who holds it, Progress that a reader gets it. Cache is `bufcache`,
--              whose slots are known by their index; its Requests are get_disk_entry and put_entry.
--              Links says what the lists hold, Search, Slots, Load, Fetch and Entries go from the
--              search for a slot to get_disk_entry, Sync and Drop are on `sync`. Inodes has get_inode
--              and put_inode. Blocks goes from an offset in a file to its block: Lookup has get_data_block of
--              k-chkfs.cc, Iter and Find the iterator of k-chkfsiter.cc, Bitmap allocate_block. Reading
--              has `vnode_inode::read` of k-vfs.cc. Inodes, Blocks and Reading see of the cache what its
--              users see: the words of a block, the references to it, and `room`, which says of which
--              blocks get_disk_entry returns an entry.
--   Prelude    the library names, list and arithmetic lemmas and the chains of fallible steps that
--              the parts share.
--
-- Numbers. Every machine word is a natural number, and what wraps around is written with `% 2 ^ w`.
-- The constants are those of the source: 2^13 pages, orders 12 to 24, pipes of 128 bytes, tables of
-- 256 entries.
--
-- Fuel. The loop of `kalloc` gets one round for each order, that of `kfree` one for each order too,
-- since a round lowers (raises) an order between 12 and 24; the loop of `init_kalloc` gets a round for
-- each page of a range and two more, since a round places at least a page; the searches of `memrangeset`
-- get one for each range. The theorems on the calls state that a result is returned, so these are enough. The loops of `pipe` and `open` are bounded by
-- the table, those of the pipe's calls by the size asked for, since a round moves at least a byte.
-- The loops of lib.cc that look for the end of a string, or go through a format, get one round more than
-- it has characters; the theorems name that bound. `fill_numbuf` gets the 23 bytes of its buffer, which
-- hold every 64-bit number in bases 10 and 16, and the loop that scrolls the console one round and the
-- test after it. The search for an empty slot of the cache passes at most twice over its 100 slots;
-- `vnode_inode::read` gets a round for each byte, and a last one. The loops over ptable and over a table of
-- files get a round for each entry; the loop of process_exit over the children gets one for each child,
-- and the theorem on the first process shows that there none is enough. The loop of schedule gets one for
-- each process on the queue and three more. `check_range` gets one round for each byte, since a step goes
-- at least a page on, and one more. What blocks, in waitpid and in
-- process_exit, goes on with what a function `others` makes of the state, a round at a time; where waitpid drops ptable_lock
-- around a process_reap, two functions, its `Gaps`, say what happens meanwhile. How printing ends tells
-- spent fuel from an argument that does not fit the format.
--
-- Not modelled. The log output and `test_kalloc` change no state. Locks are taken as what they are
-- for: what runs under one is a single step; only the lock of an inode is modelled itself. Context switches, the changes of page tables, interrupts, devices and
-- the boot code work on hardware that the sources only reach through assembly; execv and the loading
-- of programs, the directories and the writes of the disk file system are not modelled, nor
-- are the bounds of `rand` that are negative; the user programs (p-*.cc) and the tools in build/ are clients.
pub mod Prelude
pub mod Alloc
pub mod Pipe
pub mod MemFile
pub mod Files
pub mod Keyboard
pub mod MemRange
pub mod Mem
pub mod Text
pub mod Chkfs
pub mod Number
pub mod Printf
pub mod Process
pub mod Wait
pub mod Sched
pub mod Paging
