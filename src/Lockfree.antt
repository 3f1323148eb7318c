-- ===== src/Lockfree.antt =====
-- The lock-free building blocks of dtact-util/src/lockfree.rs.
pub mod Ring
pub mod Spsc
pub mod Mpmc
pub mod Stack
pub mod WakerSlot
pub mod FreeList
pub mod BufferPool
