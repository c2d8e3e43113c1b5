-- ===== src/Tests/Cases.antt =====
-- Cases of the benchmark, in an environment where every variable is set to a number, or none is.
use mathlib.Core.List.{mem-cons_self}
use message_queue_practical.Prelude.{
  ℕ, ◌*◌, ◌+◌, ◌^◌, ◌≤◌, ◌<◌, ◌≡◌, refl, arith, false, none, some, [], ◌∷◌, Mem, get_elem?,
}
use message_queue_practical.Interface.Role.{ThreadAccessCategory, DeadlockExceptionPolicy}
use message_queue_practical.Bench.Params.{
  ScenarioParams, LoadProfile, Topology, spsc, mpsc, mpmc, burst, batch,
}
use message_queue_practical.Bench.Environment.{Environment, pos}
use message_queue_practical.Bench.Layout.{
  category_for_topology, threads_for_topology, workers, ratio, hw_threads, split_workers, Suits,
  layout-Suits,
}
use message_queue_practical.Bench.Metrics.{ScenarioMetrics}
use message_queue_practical.Bench.Benchmark.{
  Strategy, deque_bounded, strategies, profiles, topologies, Args, apply_case5_args,
  scenario_params, publish_counters, no_metrics, bm_queue_scenario, iterate,
}
use message_queue_practical.Bench.Cases.{
  case5-Mem, scenario_params_ready, metrics_of, last_metrics, published_in_time,
}
use message_queue_practical.Bench.Backoff.{
  Waited, BacksOff, precise_delay_us, spin_until, spin_wait_backoff, spin_wait_backoff_ends,
}
use message_queue_practical.Tests.Metrics.{hundredths}

abbrev all_set : Environment ℕ
all_set = record {
  getenv = λ name. some "3";
  atoi = λ text. pos 3;
  atof = λ text. 300;
  same_text = λ a b. false;
  hardware_concurrency = 8;
}

abbrev none_set : Environment ℕ
none_set = record all_set { getenv = λ name. none }

layout-Suits_example :
    Suits
      (category_for_topology mpsc)
      (threads_for_topology hundredths none_set mpsc).producers
      (threads_for_topology hundredths none_set mpsc).consumers
    × ((threads_for_topology hundredths none_set mpsc).producers
          + (threads_for_topology hundredths none_set mpsc).consumers
        ≤ workers hundredths none_set)
layout-Suits_example = layout-Suits hundredths none_set mpsc tt tt

-- With half of eight threads there are three producers and a consumer; the overrides give three of
-- each, also to queues for a single producer and a single consumer.
test_layout :
    ((threads_for_topology hundredths none_set mpsc).producers ≡ 3)
    × ((threads_for_topology hundredths all_set spsc).producers ≡ 3)
    × ((threads_for_topology hundredths all_set spsc).consumers ≡ 3)
unfolding threads_for_topology workers ratio hw_threads split_workers
test_layout = (refl, refl, refl)

case5-Mem_example :
    (args : Args) × Mem args apply_case5_args
    × (get_elem? strategies args.strategy ≡ some deque_bounded)
    × (get_elem? profiles args.profile ≡ some batch)
    × (get_elem? topologies args.topology ≡ some mpmc)
    × (args.capacity ≡ 64)
    × (args.total_messages ≡ 100000)
case5-Mem_example = case5-Mem deque_bounded batch mpmc 64 mem-cons_self

scenario_params_ready_example :
    let params = scenario_params hundredths all_set mpmc burst 64 100000 in
    (1 ≤ params.producers)
    × (1 ≤ params.consumers)
    × (1 ≤ params.capacity)
    × (1 ≤ params.scenario_timeout_sec)
    × (params.total_messages < 2 ^ 31)
scenario_params_ready_example =
    scenario_params_ready hundredths all_set mpmc burst 64 100000 (λ text. omega arith)
      (omega arith) (omega arith)

abbrev one_case : Args
one_case = record { strategy = 2; profile = 3; topology = 0; capacity = 64; total_messages = 10 }

abbrev quiet :
    ℕ
    → Strategy
    → ThreadAccessCategory
    → DeadlockExceptionPolicy
    → ScenarioParams ℕ
    → ScenarioMetrics ℕ
quiet n s c p params = no_metrics hundredths

published_in_time_example :
    (s : Strategy) × (p : LoadProfile) × (t : Topology) × (get_elem? strategies 2 ≡ some s)
    × (get_elem? profiles 3 ≡ some p)
    × (get_elem? topologies 0 ≡ some t)
    × (publish_counters hundredths (no_metrics hundredths)
        ≡ publish_counters hundredths (
            last_metrics hundredths none_set quiet s
              (scenario_params hundredths none_set t p 64 10)
              t
              2
              (no_metrics hundredths)))
    × ((i : ℕ)
        → i < 2
        → (metrics_of hundredths none_set quiet s
            (scenario_params hundredths none_set t p 64 10)
            t
            i).timed_out
          ≡ false)
unfolding bm_queue_scenario iterate
published_in_time_example =
    published_in_time hundredths none_set quiet 2 one_case (0 ∷ 0 ∷ [])
      (publish_counters hundredths (no_metrics hundredths)) refl

-- A clock that shows 400 nanoseconds more at each look; at the 100th attempt the thread spins for one
-- microsecond, which takes it four looks.
abbrev clock : ℕ → ℕ
clock k = k * 400

abbrev not_yet : Waited
not_yet = record { looks = 0; yields = 0; slept_us = 0 }

test_backoff :
    spin_wait_backoff clock 30 100 not_yet ≡ some (record { looks = 4; yields = 0; slept_us = 0 })
unfolding spin_wait_backoff precise_delay_us spin_until
test_backoff = refl

spin_wait_backoff_ends_example :
    (w' : Waited) × (spin_wait_backoff clock 30 100 not_yet ≡ some w')
    × BacksOff clock 100 not_yet w'
spin_wait_backoff_ends_example =
    spin_wait_backoff_ends clock 30 100 25 not_yet (omega arith) (omega arith)
