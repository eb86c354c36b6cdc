-- ===== src/Lib.antt =====
-- A verification library for the sharkix kernel: capabilities, kernel objects, memory and scheduling.
--
-- The kernel keeps each kind of object in a hash table under 64-bit handles that it issues in order.
-- A user program names capabilities; a capability stands for one object of one kind and carries
-- rights, and a set of capabilities is what a program may use. System calls resolve a capability
-- through the program's set, check its type and rights, and call the subsystem that owns the object
-- with the object's own handle.
--
-- Table: include/uthash.h, which is vendored. The record UtHash holds the operations that the kernel
--   uses and what they do to the entries in the order of insertion. Table.Assoc is an association
--   list that satisfies it, and the concrete runs use that.
-- Caps: src/kernel/subsystems/kcaps.c with include/sharkix/kernel/subsystems/kcaps.h. Every function
--   has the name that it has in C. Caps.State has the static variables, Caps.CapType and Caps.Rights
--   the tables of include/sharkix/caps.inc and caps-rights.inc, Caps.Global the single capabilities,
--   Caps.Names their names, Caps.Sets the sets, Caps.Resolve the checks. kcap_destroy_obj calls the
--   other subsystems through the record Subsystems, whose fields are their destroy functions.
--   Caps.Valid has the invariant, Caps.Calls whole histories of calls.
-- Ipc: src/kernel/subsystems/kipc.c with include/sharkix/kernel/subsystems/kipc.h. Ipc.Endpoint has
--   what each operation does in one hold of the endpoint's lock, and Ipc.Queue the ring of 64
--   messages. Ipc.Threads has the threads: a thread that blocks leaves the lock with itself counted
--   in waiting_senders or waiting_receivers and then waits for a semaphore, and a destroyer posts
--   after it left the lock, so these are steps of their own, taken in any order. The semaphores are
--   the counts of src/kernel/core/sync.c. Ipc.Lifetime has the reference count of an endpoint, from
--   its entry in the table to its kfree.
-- Ports: src/kernel/subsystems/kportio.c with include/sharkix/kernel/subsystems/kportio.h. The
--   instructions in and out are the parameter Bus.
-- Pmem: src/kernel/subsystems/kpmem.c with include/sharkix/kernel/subsystems/kpmem.h. Pmem has the
--   tests on addresses in kpmem_derive and kpmem_merge and the ranges that they publish,
--   Pmem.Objects the records with their references and every call; what kmalloc and phys_alloc_pages
--   answer are arguments. Pmem.Counts, Pmem.Drain and Pmem.Ends follow the references through
--   kpmem_destroy, Pmem.Valid has the invariant, Pmem.Making, Pmem.Deriving, Pmem.Calls, Pmem.Owned
--   and Pmem.Destroy the calls, Pmem.Lifetime which records stay in memory, and Pmem.Runs all
--   sequences of calls.
-- Sched: src/kernel/core/scheduler.c with the parts of src/kernel/core/thread.c that switch to a
--   thread and end one. The lists linked through scheduler_next are lists of addresses. One field
--   links a thread into the ready queue and into the sleep list; that no thread is in both at once
--   is part of Sched.Coherent, so the lists say all. A call that gives the processor up ends, in the
--   model, when the next thread runs. Sched has the queues and the switch, Sched.Calls the calls of
--   threads; Sched.Queues, Sched.Sleepers, Sched.Switching and Sched.Dispatch what the parts of a
--   switch do, Sched.Events, Sched.Waking and Sched.Blocking the entry points, Sched.Runs and
--   Sched.Served all sequences of them from any coherent state, Sched.Deadlines the comparison of
--   ticks.
-- Kvalloc: src/kernel/core/kvalloc.c. Kvalloc.Sorted has the search for a gap, Kvalloc.Freed the
--   calls, Kvalloc.Runs all sequences of them.
--
-- Memory: the range operations of src/kernel/core/memory.c with include/sharkix/kernel/memory.h. A
--   page table is read and written through physical addresses; the record PageTables has the
--   operations on one page, and what they do to the pages of canonical addresses. Memory.Pages has
--   the loops of address_space_map_range, address_space_unmap_range and address_space_protect_range
--   over it, and Memory.Ranges what they do to a range; Memory.Spaces fills the record
--   AddressSpaces, which is what kvmo.c knows of an address space. The field `held` says which pages
--   phys_page_get lets pass, and map_page_internal may end in its memory_panic (the answer `halts`),
--   which address_space_map_range and kvmo_map pass on. The operations on one page
--   (map_page_internal, unmap_page_internal and the change of protection) are not modelled: the laws
--   of PageTables are assumptions on them, among them that a mapped page can be unmapped, so that
--   phys_page_put does not panic for it. Memory.Flat is a concrete table for the examples, which
--   meets the laws.
-- Kvmo: src/kernel/subsystems/kvmo.c with include/sharkix/kernel/subsystems/kvmo.h. Kvmo has the
--   static variables, Kvmo.Sets the sets of mappings, Kvmo.Objects the memory objects,
--   Kvmo.Anonymous those over pages of their own, which the record PageSource allocates, Kvmo.Maps
--   the calls that change a set and the pages together. Kvmo.Mapped and Kvmo.View read a set as a
--   map from addresses to mappings, Kvmo.Refinement and Kvmo.Removal have what each operation does
--   to that map, Kvmo.Coherent that each recorded mapping has its pages, Kvmo.Targets, Kvmo.Mapping,
--   Kvmo.Unmapping, Kvmo.Emptying, Kvmo.Permissions and Kvmo.Protection what each call does, and
--   Kvmo.Reach all sequences of calls. kpmem_get is the function `backing`.
--
-- Notify: src/kernel/subsystems/knotify.c with include/sharkix/kernel/subsystems/knotify.h. Notify
--   has the calls, Notify.Calls their specification as a map from handles to bits, Notify.Steps that
--   they meet it. Notify.Waiting has one thread in knotify_wait with threads that signal: the parts
--   under the object's lock are steps, and the post of a signaller comes later. With two threads
--   that wait for one object a wakeup can be lost, as its semaphore does not know whose bits were
--   set.
--
-- A function that holds a lock from its test to its last write is one step on the tables, and
-- returns the new tables with its result. Some functions take and leave locks more than once:
-- kcapset_delcap and kcapset_destroy destroy capabilities after they left the locks of the sets,
-- kcap_destroy_obj calls the subsystem after it left the lock of the capabilities, and kvmo_map,
-- kvmo_unmap, kvmo_unmap_at, kvmo_protect, kvmoset_unmap_all and kvmo_create_anon look up, change
-- pages and record in separate parts. Such a function is the composition of its parts here, as it
-- runs when no other call comes between them; that calls interleave there is not modelled, and what
-- is said of the function, or of sequences of calls, is said of whole calls one after the other. The
-- threads of Ipc, the waiter of Notify and the scheduler are modelled in steps that interleave. The
-- arguments `out` and `mem` of a function say whether the result pointer is not NULL and whether
-- kmalloc finds memory. For a status, `true` stands for 0 and `false` for -1; for a handle or a
-- value, `none` stands for -1. Numbers are natural numbers; additions to 64-bit counters wrap,
-- written `% 2 ^ 64`. Capability handles do wrap in the source; where a theorem needs that the
-- counter has not come to its end, it says so. The counts of waiting threads cannot wrap with fewer
-- than 2^64 threads, nor the references to an endpoint with fewer than 2^64 - 2 calls at work. The
-- loop of kvmoset_unmap_all runs on fuel, and a round for each mapping and one more is enough. The
-- drain loop of kpmem_destroy runs on fuel for one round more than there are records, and each round
-- takes a record out of memory. No other loop needs fuel: each is a walk of a list or of the pages
-- of a range, or each of its rounds is a step.
--
-- Not modelled: interleavings inside the calls named above; publishers and notification bindings of
-- kipc.c; the rest of memory.c; scheduler_init, and the making and reaping of threads in thread.c;
-- the other subsystems; system calls and machine code.
pub mod Common
pub mod Table
pub mod Caps
pub mod Ipc
pub mod Ports
pub mod Sched
pub mod Kvalloc
pub mod Pmem
pub mod Memory
pub mod Kvmo
pub mod Notify
