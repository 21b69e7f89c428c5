-- ===== src/Lib.antt =====
-- DFOS, a 32-bit x86 kernel in C: models of six of its parts and proofs about them.
--
-- The program's parts. The boot information (kernel/kernel/bootinfo.c) tells the physical memory
-- manager (kernel/kernel/pmm.c) which frames exist; paging (kernel/kernel/paging.c) takes frames
-- from it and keeps the areas of each address space in the trees of kernel/kernel/vma.c, where it
-- looks for a gap and then inserts it; the heap, the scheduler and the synchronisation objects
-- build on paging. Drivers register themselves in kernel/kernel/module.c and are activated by
-- kernel/arch/i386/platform.c.
--
-- Base: names of the library passed on, Boolean tests, lists, code that may fault (Partial: `none`
-- is a fault), machine words with their wrap-around (Int, Words), bit masks (Bits), facts by
-- evaluation of every case (Table).
--
-- Vma: kernel/kernel/vma.c and kernel/include/kernel/vma.h. Node has the AVL tree (node_insert,
-- node_remove, rotate_left, rotate_right, rebalance) and the pool of 2048 nodes, Gap the gap search,
-- Tree the operations on a tree (vma_tree_insert, vma_tree_remove, vma_tree_find, vma_tree_find_gap,
-- vma_tree_clear). A pointer into a tree is a value, since no node is shared; the pool is a count,
-- since which free node is handed out is never seen. Heights are int8_t with their wrap-around. The
-- recursion is on the tree and needs no fuel. The other files hold the proofs: InOrder, Balance,
-- Height, Regions, Search and RemoveRegion about the tree, Valid and Spec with the invariant and the
-- list of regions it stands for, Refine and Correct, Align, Walk, FirstFit and FindGap about gaps,
-- ZeroGap about the search from address 0, Lookup and Client about what a caller sees.
--
-- Pmm: kernel/kernel/pmm.c. Bitmap, State, Search and Alloc follow the file's functions; the others
-- hold the proofs. The lock, with interrupts off, makes every operation one step on the state, so
-- it has no place there. An out-parameter that is not written is `none`. The loops over frames and
-- nodes have bounds that are known when they start, and the models recurse on the number of rounds
-- left. Frames are below 2 ^ 20, since the source caps memory below 4 GiB. A frame beyond the
-- managed ones is refused before the bitmap is read.
--
-- Bootinfo: kernel/kernel/bootinfo.c, over a parameter for the structures the loader left in
-- physical memory, with the loop of pmm_init over all regions. Its fuel is the bytes of the map.
--
-- Registry: kernel/kernel/module.c and kernel/include/kernel/module.h. The callbacks act on a world
-- that is a parameter. Both activation loops take fuel; each round attempts one more entry, so more
-- fuel than there are entries not yet attempted is enough, and 33 is always enough. Chosen is about
-- the choice of a candidate, Rounds says what the rounds do, Candidate and Activate are about the
-- loops.
--
-- Scheduler: kernel/kernel/scheduler.c and kernel/include/kernel/scheduler.h. A task is its index in
-- the table of 32; a list is the sequence of the indices on it, head first, which stands for `head`,
-- `tail`, `count` and the links of the tasks. Trace has the counters and latencies, State the
-- records, Select the choice of a processor (scheduler_select_best_cpu_from_view), Queues the run
-- queues, migration and the slots, Balance the load balancer, Dispatch the timers, the switch and
-- the tick, Topology the topology and the start, Tasks the creation of tasks, Waiting the sleeping, waiting,
-- waking, exiting, joining and reaping. The lock with interrupts off makes each locked section one
-- function on the state. A panic is `none`. What the processor and paging answer is a parameter. The interrupts sent to other
-- processors, the kernel stack and the address space that were selected are kept in the state.
-- The loops over a list recurse on the list as it was when they started, those over processors,
-- priorities and slots on the rounds left; reap_from takes as fuel one more than there are zombies,
-- since each round takes one away. Placed states what is right about the lists, by counting how
-- often a task stands on each; Moves, Keeps, Plain and Alike say how one step changes these counts;
-- Wakes, Woken, WakeChannel, Next, Running, Handing, Scheduled, Blocks, Balanced, Ticks, Slots,
-- Created, Detached, Reaping, Configured and Started are about the operations; Yields and Preempts
-- say what a yield and a tick do; Best, Passes and Selected are about the
-- choice of a processor, Latency about the metrics.
--
-- Sync: the reference counts and objects of kernel/kernel/sync.c in Object, and in Counted what a
-- sequence of uses does to an object. An atomic exchange is a function on the value; the release
-- callback acts on a world that is a parameter.
--
-- Not modelled: pmm_init, which reads the boot information and panics, and the statistics reader of
-- kernel/kernel/pmm.c; the plain getters of kernel/kernel/bootinfo.c; the links between the tasks of
-- a list, the snapshots, the names and the self tests of kernel/kernel/scheduler.c; the locks, wait
-- queues, conditions and mutexes of kernel/kernel/sync.c; the file system, the heap, paging and the
-- debugger, which are large and rest on the parts above; drivers, descriptor tables and start-up
-- code, which are port and register access or assembly; the C library; the scripts. Null arguments
-- of the operations, which the source answers by returning at once, are left out where a reference
-- cannot be null in the model.
pub mod Base
pub mod Bootinfo
pub mod Pmm
pub mod Registry
pub mod Scheduler
pub mod Sync
pub mod Vma
