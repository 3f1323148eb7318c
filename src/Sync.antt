-- ===== src/Sync.antt =====
-- The synchronisation primitives of dtact-util/src/sync, all built on one list of waiters.
pub mod Poll
pub mod WaitQueue
pub mod Protocol
pub mod Mutex
pub mod Semaphore
pub mod RwLock
pub mod Notify
pub mod Oneshot
pub mod OnceCell
pub mod Barrier
pub mod Broadcast
pub mod Mpsc
pub mod Watch
