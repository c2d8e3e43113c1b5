-- ===== src/Circular.antt =====
-- lib/circular/: the circular queues.
pub mod Semaphore
pub mod Ring
pub mod Sync
pub mod Queue
pub mod Contents
pub mod Window
pub mod Bounded
pub mod Overwrite
pub mod Limits
