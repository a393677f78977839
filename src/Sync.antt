-- ===== src/Sync.antt =====
-- Locks, cells that are set once, and sleeping tasks: kernel/src/util.
pub mod IntMutex
pub mod Sleep
pub mod Once
pub mod Mutex
