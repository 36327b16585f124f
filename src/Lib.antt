-- ===== src/Lib.antt =====
-- Verification of johnbeauty-os, a small kernel in C with its own data structures, synchronisation and
-- network stack.
--
-- The parts. Received frames go from the Ethernet layer to ARP (`net/arp.c`) and to IP
-- (`net/ipv4.c`), which hands TCP segments, UDP datagrams and ICMP messages to `net/tcp.c`,
-- `net/udp.c` and `net/icmp.c`; these send through the same layers, with their header fields in the
-- byte order of `net/etherframe.h` and the internet checksum of `net/ipv4.c`. Tasks block and wake on
-- the primitives of `kernel/sync.c`; the message queue of `kernel/ipc.c` posts one of its semaphores
-- for each message, and its pipe for each byte. The scheduler (`kernel/multitask.c`) keeps the ready
-- tasks in run queues; a task's address space (`kernel/vma.c`) is a tree of regions that the calls of
-- `kernel/syscall.c` change. Pages come from the buddy allocator of `kernel/page_frame_allocator.c`, with
-- a cache of single frames for each processor. `dsa/` holds the structures that the kernel shares, of which the byte
-- ring, the binary search, the insertion sort and the bitmap stand here.
--
-- The files. `Prelude` and the files below it are shared helpers: lists measured and indexed by native
-- numbers, arrays, masks, wrap-around of words. Each other file `X` holds the definitions of its part
-- and the files below it what is proved of them, `X/Tests` instances at concrete inputs.
--   * `Dsa/Ringbuf` is `dsa/ringbuf.c`: the operations `jlos_ringbuf_*`, with the record `Ringbuf` for
--     the structure. `Queue` is the bounded queue that it promises, `Index` the arithmetic of the
--     free-running indices, `Moves` the copies, `Refine` the refinement.
--   * `Dsa/Search` is `dsa/search.c`: `lower_bound`, `upper_bound` and `bsearch` over the numbers of
--     the elements, for any comparison.
--   * `Dsa/Bitmap` is `dsa/bitmap.c` up to `jlos_bitmap_find_first_zero`; `Dsa/Bitmap/Digits` reads the
--     array as bits.
--   * `Dsa/Sort` is the insertion sort of `dsa/sort.c`, over the elements as a list, for any comparison
--     that is an order.
--   * `Net/Wire` is the byte order, `Net/Checksum` the sums `csum_partial` and `csum_fold`.
--   * `Net/Tcp` is the sending side of `net/tcp.c` and the records, `Net/Tcp/Receive` the handler from
--     the matched socket on, one function per case of the switch, and `Net/Tcp/Provider` the socket
--     table. A socket is a record that the functions take and return beside the packets that they
--     send; the allocator and the application's callback are parameters.
--   * `Net/Arp` is `net/arp.c`; what `jlos_arp_resolve` sees of the cache at each look is a parameter,
--     since the receive path may fill it in between.
--   * `Net/Ipv4` is the sending and receiving of `net/ipv4.c`: `send` returns the frame, `Routes` says
--     where it goes, `Packets` what arrives. The handlers of the protocols are a parameter.
--   * `Net/Icmp` is the echo of `net/icmp.c`, `Net/Udp` the socket table and the datagrams of
--     `net/udp.c`; what the application would be called with is a result.
--   * `Net/Skbuff` is the pointers of the buffers of `net/skbuff.c`, as addresses.
--   * `Kernel/Sync` is `kernel/sync.c`: a call is one step under its spinlock, and a task is its number
--     with a status.
--   * `Common/Memory` and `Common/Strings` are `common/types.c` on a memory of bytes at addresses.
--   * `Kernel/Scheduler` is the run queues of `kernel/multitask.c`, its child `Switch` the changes of
--     status and the choice of the next task. `Mask` is the mask of the levels, `Levels` and `Order` one
--     run queue, `Linked` and `Moves` who is linked where, `Ready`, `Steps` and `Runs` the steps.
--   * `Kernel/Vma` is `kernel/vma.c`, with its children `Unmap` (regions cut and moved), `Gaps` (the
--     search for an unused range) and `Space` (address spaces made, copied and destroyed). `Layout` says
--     what the tree promises, by the use that each address has. The red-black tree of `dsa/rbtree.c` is
--     taken as the list of its nodes in order.
--   * `Kernel/Syscall` is `brk`, `mmap` and `munmap` of `kernel/syscall.c`.
--   * `Kernel/Pipe` is the pipe of `kernel/ipc.c`: `Ring` its buffer, `Stream` its rounds, `Runs` their
--     interleavings.
--   * `Kernel/Frames` is the buddy allocator of `kernel/page_frame_allocator.c`: the lists of free blocks
--     by order. `Blocks` says what holds of them, `Linked`, `Unlinked` and `Steps` are one block put in
--     and taken out, `Merge` and `Split` the loops over the orders. Its child `Ranges` is
--     `jlos_page_frame_alloc_n` and `buddy_free_range`, `Cached` is `jlos_page_frame_malloc` and the
--     reference counts, with the frames that each processor keeps, and `Bulk` is
--     `jlos_page_frame_free_n`, with `Runs` for what follows one another and
--     `Returned` for what was taken before. `Setup` is the lists that
--     `jlos_page_frame_allocator_init` builds: `Inserted` the frames one by one, `Paired` and `Levels`
--     the blocks that they make.
--   * `Dsa/List` is the removal of an entry from a list of `dsa/list.h`, used by the run queues and the
--     buddy allocator.
--   * `Kernel/MessageQueue` is the message queue of `kernel/ipc.c` on a heap of nodes at addresses.
--
-- Integers are the native numbers with the wrap-around of their width written out. The fuel: the fold
-- of the checksum has two rounds, which is enough for a 32-bit sum; a search has as many rounds as
-- there are elements; a loop to the end of a string has more rounds than the string has bytes; the
-- waiting of `jlos_arp_resolve` has the bound that the source gives its loop. Of the buddy allocator, the
-- merging and the splitting have a round for each order between, the order of a range at most 32, the
-- range itself one for each frame, the filling and emptying of a cache the number of frames moved, and
-- a level of the set-up the pairs of blocks that fit.
--
-- Not modelled: logging and most reference counts, the timers of the scheduler and the life of a
-- process, the slab caches and the heap of the kernel, the boot heap and memory map, page tables, file
-- systems, drivers, the code of the two architectures and the user programs. A node or buffer that the
-- allocator returns is an argument or a parameter.
pub mod Prelude
pub mod Common
pub mod Dsa
pub mod Net
pub mod Kernel
