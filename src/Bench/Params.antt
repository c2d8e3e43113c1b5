-- ===== src/Bench/Params.antt =====
-- bin/benchmark_helpers.hpp: the parameters of a scenario. `W` stands for `double`. The `int` values are
-- those that are not negative.
use message_queue_practical.Prelude.{ℕ, ◌+◌, ◌/◌, ◌%◌, Bool, ltb, if◌then◌else◌}

pub record BenchmarkMessage : Type 0 where
  pub seq : ℕ
  pub producer_id : ℕ
  pub send_ns : ℕ

pub data LoadProfile : Type 0 where
  balanced fast_producer fast_consumer batch burst priority_mix : LoadProfile

pub data Topology : Type 0 where
  spsc mpsc spmc mpmc : Topology

pub record ThreadLayout (W : Type 0) : Type 0 where
  pub producers : ℕ
  pub consumers : ℕ
  pub hw_threads : ℕ
  pub thread_ratio : W

pub record ScenarioParams (W : Type 0) : Type 0 where
  pub capacity : ℕ
  pub producers : ℕ
  pub consumers : ℕ
  pub hw_threads : ℕ
  pub total_messages : ℕ
  pub profile : LoadProfile
  pub scenario_timeout_sec : ℕ
  pub thread_ratio : W
  pub no_backoff : Bool

-- How many messages a producer sends: `base + extra`.
unfoldable pub local_total : {W : Type 0} → ScenarioParams W → ℕ → ℕ
local_total params idx =
    params.total_messages / params.producers
    + (if ltb idx (params.total_messages % params.producers) then 1 else 0)
