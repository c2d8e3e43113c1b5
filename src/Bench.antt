-- ===== src/Bench.antt =====
-- bin/benchmark_helpers.hpp and bin/benchmark.cpp: the load scenarios that are run over the queues.
pub mod Backoff
pub mod Params
pub mod Adapter
pub mod Scenario
pub mod Sums
pub mod Tally
pub mod Lossless
pub mod Sending
pub mod Reading
pub mod Shares
pub mod Delivery
pub mod Ending
pub mod Stopping
pub mod OnBounded
pub mod OnDeque
pub mod Double
pub mod Percentile
pub mod Ranks
pub mod Metrics
pub mod Fairness
pub mod Samples
pub mod Sampled
pub mod Report
pub mod Environment
pub mod Layout
pub mod Benchmark
pub mod Cases
