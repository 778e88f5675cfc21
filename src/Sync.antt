-- ===== src/Sync.antt =====
-- The synchronisation primitives of FeatherOS/kernel/sync/sync.c. An operation is cut into the
-- accesses it makes to shared memory, and each access is one step, so that a sequence of steps of
-- several threads is an interleaving of their operations on sequentially consistent memory.
mod Threads
pub mod Atomic
pub mod RwLock
pub mod Semaphore
pub mod Mutex
