-- ===== src/Queue.antt =====
-- src/dousi/core/common/concurrent_queue.h, std_locked_queue.h and boost_lock_free_queue.h.
pub mod Interface
pub mod Fifo
pub mod StdLocked
pub mod LockFree
pub mod Sizes
pub mod Listed
mod Tests
