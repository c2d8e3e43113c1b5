-- ===== src/MichaelScott.antt =====
-- lib/michael_scott_queue.hpp: `MichaelScottQueue`.
pub mod Queue
pub mod Solo
pub mod Reach
pub mod Meets
pub mod Refine
pub mod Tries
pub mod Mutex
pub mod Measure
pub mod Ends
pub mod Machine
pub mod Chain
pub mod Local
pub mod Moves
pub mod Link
pub mod Progress
pub mod System
pub mod Consistent
pub mod Ledger
pub mod Destroy
pub mod Settle
pub mod Linear
pub mod Alone
