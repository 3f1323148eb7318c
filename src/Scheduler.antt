-- ===== src/Scheduler.antt =====
-- The scheduler of src/: fibers, the queues that pass them between workers, and their memory.
pub mod Fiber
pub mod Mailbox
pub mod Pool
pub mod Worker
pub mod Warehouse
pub mod Routing
pub mod Polling
pub mod Handle
pub mod Placement
pub mod Await
