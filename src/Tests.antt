-- ===== src/Tests.antt =====
-- Runs of the queues on concrete histories, and examples of the theorems.
mod Bench
mod Metrics
mod Cases
mod Common
mod Bounded
mod Circular
mod Roles
mod Limits
mod MichaelScott
