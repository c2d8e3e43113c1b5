-- ===== src/Interface.antt =====
-- lib/message_queue_interface.hpp: the thread roles, and the calls of `IMessageQueue` over the
-- virtual functions that a queue overrides.
pub mod Role
pub mod Call
pub mod History
pub mod Simulation
pub mod Policy
