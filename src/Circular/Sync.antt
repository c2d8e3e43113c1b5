-- ===== src/Circular/Sync.antt =====
-- lib/circular/sync.hpp: `CircularQueueSync`, by category, behind one interface.
pub mod Ops
pub mod Laws
pub mod Spsc
pub mod Mpsc
pub mod Spmc
pub mod Mpmc
