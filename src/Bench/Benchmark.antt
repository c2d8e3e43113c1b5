-- ===== src/Bench/Benchmark.antt =====
-- bin/benchmark.cpp: the cases of the benchmark, and one of them. What the benchmark library is told is a value;
-- how long a run takes, and so what its metrics are, is a parameter.
use mathlib.Core.List.{flat_map}
use mathlib.Core.Option.{bind}
use message_queue_practical.Prelude.{
  ℕ, zero, suc, Bool, false, String, Option, some, List, [], ◌∷◌, ◌++◌, ltb, if◌then◌else◌,
  get_elem?,
}
use message_queue_practical.Interface.Role.{
  ThreadAccessCategory, DeadlockExceptionPolicy, no_exception,
}
use message_queue_practical.Bench.Params.{
  BenchmarkMessage, LoadProfile, balanced, fast_producer, fast_consumer, batch, burst, priority_mix,
  Topology, spsc, mpsc, spmc, mpmc, ScenarioParams,
}
use message_queue_practical.Bench.Double.{Double, nought, one}
use message_queue_practical.Bench.Environment.{
  Environment, negsuc, max_int, env_read, env_flag, overridden, pos,
}
use message_queue_practical.Bench.Layout.{category_for_topology, threads_for_topology}
use message_queue_practical.Bench.Metrics.{ScenarioMetrics}

-- `BenchmarkMessageComparator`.
abbrev pub compare_messages : BenchmarkMessage → BenchmarkMessage → Bool
compare_messages lhs rhs = ltb lhs.seq rhs.seq

pub data Strategy : Type 0 where
  circular_bounded circular_overwrite deque_bounded michael_scott priority_stub : Strategy

-- `static_cast<int>` of the enumerators, and back.
abbrev pub strategy_int : Strategy → ℕ
strategy_int circular_bounded = 0
strategy_int circular_overwrite = 1
strategy_int deque_bounded = 2
strategy_int michael_scott = 3
strategy_int priority_stub = 4

abbrev pub profile_int : LoadProfile → ℕ
profile_int balanced = 0
profile_int fast_producer = 1
profile_int fast_consumer = 2
profile_int batch = 3
profile_int burst = 4
profile_int priority_mix = 5

abbrev pub topology_int : Topology → ℕ
topology_int spsc = 0
topology_int mpsc = 1
topology_int spmc = 2
topology_int mpmc = 3

abbrev pub strategies : List Strategy
strategies =
    circular_bounded ∷ circular_overwrite ∷ deque_bounded ∷ michael_scott ∷ priority_stub ∷ []

abbrev pub profiles : List LoadProfile
profiles = balanced ∷ fast_producer ∷ fast_consumer ∷ batch ∷ burst ∷ priority_mix ∷ []

abbrev pub topologies : List Topology
topologies = spsc ∷ mpsc ∷ spmc ∷ mpmc ∷ []

pub record Args : Type 0 where
  pub strategy : ℕ
  pub profile : ℕ
  pub topology : ℕ
  pub capacity : ℕ
  pub total_messages : ℕ

abbrev pub capacities : List ℕ
capacities = 64 ∷ 1024 ∷ 4096 ∷ []

-- The five loops, from the innermost.
abbrev pub with_total : Strategy → LoadProfile → Topology → ℕ → ℕ → List Args
with_total strategy profile topology capacity total =
    record {
      strategy = strategy_int strategy;
      profile = profile_int profile;
      topology = topology_int topology;
      capacity = capacity;
      total_messages = total;
    }
    ∷ []

abbrev pub with_capacity : Strategy → LoadProfile → Topology → ℕ → List Args
with_capacity strategy profile topology capacity =
    flat_map (with_total strategy profile topology capacity) (100000 ∷ [])

abbrev pub with_topology : Strategy → LoadProfile → Topology → List Args
with_topology strategy profile topology =
    flat_map (with_capacity strategy profile topology) capacities

abbrev pub with_profile : Strategy → LoadProfile → List Args
with_profile strategy profile = flat_map (with_topology strategy profile) topologies

abbrev pub with_strategy : Strategy → List Args
with_strategy strategy = flat_map (with_profile strategy) profiles

unfoldable pub apply_case5_args : List Args
apply_case5_args = flat_map with_strategy strategies

module _ {W : Type 0} (d : Double W) (env : Environment W) where
  unfoldable pub scenario_params :
      Topology → LoadProfile → (capacity total_messages : ℕ) → ScenarioParams W
  scenario_params topology profile capacity total_messages =
      let layout = threads_for_topology d env topology in
      record {
        capacity = overridden (env_read env "MQ_BENCH_CAPACITY" (negsuc 0)) capacity;
        producers = layout.producers;
        consumers = layout.consumers;
        hw_threads = layout.hw_threads;
        total_messages = overridden (env_read env "MQ_BENCH_MESSAGES" (negsuc 0)) total_messages;
        profile = profile;
        scenario_timeout_sec = max_int 1 (env_read env "MQ_BENCH_TIMEOUT_SEC" (pos 120));
        thread_ratio = layout.thread_ratio;
        no_backoff = env_flag env "MQ_BENCH_NO_BACKOFF" false;
      }

-- What the benchmark library is told at the end.
pub record Counters (W : Type 0) : Type 0 where
  pub items_processed : ℕ
  pub counters : List (String × W)

pub data Result (W : Type 0) : Type 0 where
  published : Counters W → Result W
  skipped : String → Result W

module _ {W : Type 0} (d : Double W) where
  unfoldable pub publish_counters : ScenarioMetrics W → Counters W
  publish_counters metrics = record {
    items_processed = metrics.delivered;
    counters =
        ("msg_per_s", metrics.consume_per_s)
        ∷ ("produce_per_s", metrics.produce_per_s)
        ∷ ("consume_per_s", metrics.consume_per_s)
        ∷ ("send_p50_ns", metrics.send_p50_ns)
        ∷ ("send_p99_ns", metrics.send_p99_ns)
        ∷ ("read_p50_ns", metrics.read_p50_ns)
        ∷ ("read_p99_ns", metrics.read_p99_ns)
        ∷ ("lost_messages", d.of_integer metrics.lost)
        ∷ ("seq_gaps", d.of_integer metrics.seq_gaps)
        ∷ ("producer_fairness", metrics.producer_fairness)
        ∷ ("consumer_fairness", metrics.consumer_fairness)
        ∷ ("fairness_ratio", metrics.fairness_ratio)
        ∷ ("blocked_send_attempts", d.of_integer metrics.blocked_send_attempts)
        ∷ ("blocked_read_attempts", d.of_integer metrics.blocked_read_attempts)
        ∷ ("cas_retries", d.of_integer metrics.cas_retries)
        ∷ ("timed_out", if metrics.timed_out then one d else nought d)
        ∷ ("queue_size_at_end", d.of_integer metrics.queue_size_at_end)
        ∷ ("producer_threads", metrics.producer_threads)
        ∷ ("consumer_threads", metrics.consumer_threads)
        ∷ ("hw_threads", metrics.hw_threads)
        ∷ ("thread_ratio", metrics.thread_ratio)
        ∷ [];
  }

  -- The metrics with which `last_run` starts.
  abbrev pub no_metrics : ScenarioMetrics W
  no_metrics = record {
    produced = 0;
    delivered = 0;
    lost = 0;
    seq_gaps = 0;
    blocked_send_attempts = 0;
    blocked_read_attempts = 0;
    cas_retries = 0;
    elapsed_sec = nought d;
    produce_per_s = nought d;
    consume_per_s = nought d;
    send_p50_ns = nought d;
    send_p99_ns = nought d;
    read_p50_ns = nought d;
    read_p99_ns = nought d;
    producer_fairness = one d;
    consumer_fairness = one d;
    fairness_ratio = one d;
    timed_out = false;
    queue_size_at_end = 0;
    producer_threads = one d;
    consumer_threads = one d;
    hw_threads = one d;
    thread_ratio = d.ratio 1 2;
  }

-- The category and the policy that `RunStrategy` gives the queue of a topology.
abbrev pub run_strategy :
    {W A : Type 0}
    → (Strategy → ThreadAccessCategory → DeadlockExceptionPolicy → ScenarioParams W → A)
    → Strategy
    → ScenarioParams W
    → Topology
    → A
run_strategy run strategy params topology =
    run strategy (category_for_topology topology) no_exception params

module _ {W : Type 0} (d : Double W) (env : Environment W)
    (run : ℕ
      → Strategy
      → ThreadAccessCategory
      → DeadlockExceptionPolicy
      → ScenarioParams W
      → ScenarioMetrics W) where
  -- The iterations of the library; `run n` is the run when `n` more are to come.
  unfoldable pub iterate :
      Strategy
      → ScenarioParams W
      → Topology
      → (iterations : ℕ) → ScenarioMetrics W
      → List W
      → List W × Result W
  unfolding publish_counters
  iterate strategy params topology zero last_run times =
      (times, published (publish_counters d last_run))
  iterate strategy params topology (suc n) last_run times =
      let metrics = run_strategy (run n) strategy params topology in
      let times' = times ++ metrics.elapsed_sec ∷ [] in
      let rest = iterate strategy params topology n metrics times' in
      if metrics.timed_out
      then (times', skipped "Scenario timed out: possible deadlock or livelock")
      else rest

  -- The times of the iterations and the end of the case, if its enumerators are such.
  unfoldable pub bm_queue_scenario : (iterations : ℕ) → Args → Option (List W × Result W)
  unfolding iterate scenario_params bind
  bm_queue_scenario iterations args = bind (get_elem? strategies args.strategy) (λ strategy.
      bind (get_elem? profiles args.profile) (λ profile.
        bind (get_elem? topologies args.topology) (λ topology. some (
          iterate strategy
            (scenario_params d env topology profile args.capacity args.total_messages) topology
            iterations (no_metrics d) []))))
