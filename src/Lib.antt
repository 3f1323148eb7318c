-- ===== src/Lib.antt =====
-- dtact: a fiber runtime in Rust and, in dtact-util, the lock-free structures, synchronization
-- primitives and native backends that futures on it use. This development models the scheduler of
-- src/ (fibers, their memory, and the queues that pass them between workers), and dtact-util's
-- structures, primitives, timer wheel and signal registry; the other backends are system calls.
--
-- How the parts build on each other: dtact-util/src/lockfree.rs has rings, queues, stacks and a
-- waker slot. dtact-util/src/sync/wait_queue.rs keeps the tasks that wait in a bounded queue with a
-- stack behind it. Each primitive of dtact-util/src/sync keeps a small atomic state and a wait
-- queue, and each of its futures has one shape: try, register, try again, and take the registration
-- back on success.
--
-- In the scheduler a fiber is a number, the index of its context in the pool. Whoever wakes a parked
-- fiber enqueues it: src/dta_scheduler.rs puts it into the local queue of a worker, into a chunk in the
-- mailbox from one worker to another or in the external one of a worker, or into the warehouse when
-- these are full. A worker drains the warehouse, dispatches its local queue, and polls its mailboxes,
-- where it keeps a chunk or sends it on.
--
-- Which file models what:
--   Base              shared names, tests into Bool, 64-bit words, lists, Result<(), T>
--   Lockfree/Spsc     SpscQueue: new, push, pop, push_slice, pop_slice, run over calls
--   Lockfree/Mpmc     BoundedMpmcQueue: try_push, try_pop, enqueue_snapshot, drain_until
--   Lockfree/Stack    MpmcStack on an explicit heap: push, pop, drain_all, drain_into_vec_deque
--   Lockfree/FreeList  TreiberStack: the tagged free-list of indices
--   Lockfree/BufferPool  BufferPool: an arena of chunks behind a free-list
--   Lockfree/WakerSlot  AtomicWakerSlot: register and take_and_wake, one access a step, any schedule
--   Sync/WaitQueue    WaitQueue: register, cancel, wake_one, wake_all, has_waiters
--   Sync/Protocol     the shape that all waiting futures share, with what others do in between
--   Sync/Mutex        Mutex, its guard's Drop as two accesses
--   Sync/Semaphore    Semaphore, add_permits and the permit's Drop
--   Sync/RwLock       RwLock, the isize state as its word
--   Sync/Notify       Notify: notify_one, notify_waiters, notified
--   Sync/Oneshot      oneshot: the sender as a program of accesses, try_take, poll
--   Sync/OnceCell     OnceCell: the phases, set, get and the wait of get_or_init
--   Sync/Barrier      Barrier: wait up to its first await, and the poll after it
--   Sync/Mpsc         mpsc: bounded and unbounded channels, their order, closure and waiting
--   Sync/Watch        watch: the latest value, its version and changed
--   Sync/Broadcast    broadcast: numbered slots, send, and one receiver's cursor and lag
--   Timer/Wheel       timer/native.rs: the hashed timing wheel, its worker and registration
--   Signal/Registry   signal/registry.rs: listeners, registration and broadcast
--   Scheduler/Fiber   the state word of a fiber: src/future_bridge.rs, dispatch_loop, wake_fiber, and
--                     what dtact_await and yield_to do to the state of the fiber that calls it
--   Scheduler/Pool    src/memory_management.rs: ContextPool, its arena and free list
--   Scheduler/Mailbox   src/dta_scheduler.rs: TaskChunk, Mailbox
--   Scheduler/Warehouse   src/dta_scheduler.rs: Warehouse, its ring and backlog
--   Scheduler/Worker  src/dta_scheduler.rs: Worker, its queue, polling order, load, dispatch_loop
--   Scheduler/Routing   src/dta_scheduler.rs: DtaScheduler: enqueueing, hops, routing, draining;
--                     and wake_fiber of src/lib.rs
--   Scheduler/Polling   src/dta_scheduler.rs: poll_mailboxes
--   Scheduler/Placement   src/api.rs: where spawn puts a future and the stack of a fiber
--   Scheduler/Handle  the handles of src/api.rs and src/c_ffi.rs, and their waiters in src/lib.rs
--   Scheduler/Await   src/c_ffi.rs: a fiber that waits for another in dtact_await, against the
--                     other's generation, state and waiter, each load a step
--
-- How state corresponds: an atomic field is a field of a record; a compare-exchange, a load or a
-- store is one step. An Option of a unit is a guard or a permit. A task is a number, and the wait
-- queue logs the entries whose wakers were called. In a poll, what other tasks do between two of its
-- steps is an argument: a list of accesses of the same primitive. Words are natural numbers below
-- 2^64 with the wrap-around written out. Memory is sequentially consistent, and an operation of the
-- wait queue is one step.
--
-- In the scheduler the state word of a fiber is shared, with one access a step and any number of
-- wakers and workers; a call of DtaScheduler or ContextPool is modelled as it runs with no other thread
-- inside it, and CURRENT_WORKER_ID is an argument. Pointers of the
-- pool are numbers without a bound.
--
-- Fuel: the retry loops of the bounded queue run on fuel; when nobody interferes one turn is enough,
-- and the theorems say so for any fuel above it. Draining takes one round for each element and one
-- more. Walks over a stack take one step for each node. A lone call of AtomicWakerSlot ends within
-- five accesses. push_chunk_with_hop has 256 turns, since the hops of a chunk are a byte. dispatch_loop
-- ends with one turn more than the queue has tasks, when fibers push nothing to it. poll_mailboxes
-- has as many turns for a mailbox as its ring has places, one more than it can hold.
--
-- Not modelled: weak memory orderings, allocation failure, context switching (assembly), the
-- platform backends (system calls), the macros, the C interface and the web site. Of the scheduler,
-- the loop of run_worker_static with its idle waits, the spin locks of the external mailboxes, the
-- other fields of a context that spawn sets, dtact_await on a host thread, and the topology of the
-- machine.
pub mod Base
pub mod Lockfree
pub mod Scheduler
pub mod Signal
pub mod Sync
pub mod Timer
