-- ===== src/Bench/Layout.antt =====
-- bin/benchmark_helpers.hpp: `ThreadsForTopology` and `CategoryForTopology`.
use message_queue_practical.Prelude.{
  ℕ, ◌+◌, ◌-◌, ◌/◌, ◌≤◌, ◌≡◌, refl, arith, false, ltb, if◌then◌else◌,
}
use message_queue_practical.Interface.Role.{
  ThreadAccessCategory, single_producer_single_consumer, multiple_producer_single_consumer,
  single_producer_multiple_consumer, multiple_producer_multiple_consumer,
}
use message_queue_practical.Bench.Params.{Topology, spsc, mpsc, spmc, mpmc, ThreadLayout}
use message_queue_practical.Bench.Double.{Double, clamp}
use message_queue_practical.Bench.Environment.{
  Environment, ℤ, pos, negsuc, to_int, max_int, env_read, env_read_double, env_flag, overridden,
}

abbrev pub category_for_topology : Topology → ThreadAccessCategory
category_for_topology spsc = single_producer_single_consumer
category_for_topology mpsc = multiple_producer_single_consumer
category_for_topology spmc = single_producer_multiple_consumer
category_for_topology mpmc = multiple_producer_multiple_consumer

-- `std::max(1, n)` on values that are not negative.
abbrev at_least : ℕ → ℕ → ℕ
at_least least n = if ltb least n then n else least

-- The threads of each kind, for so many workers.
unfoldable pub split_workers : Topology → ℕ → ℕ × ℕ
split_workers spsc workers = (1, 1)
split_workers mpsc workers = (at_least 1 (workers - 1), 1)
split_workers spmc workers = (1, at_least 1 (workers - 1))
split_workers mpmc workers =
    let producers = at_least 1 (workers / 2) in (producers, at_least 1 (workers - producers))

-- Numbers of threads that a queue of the category is made for.
abbrev pub Suits : ThreadAccessCategory → (producers consumers : ℕ) → Type 0
Suits single_producer_single_consumer producers consumers = (producers ≡ 1) × (consumers ≡ 1)
Suits multiple_producer_single_consumer producers consumers = consumers ≡ 1
Suits single_producer_multiple_consumer producers consumers = producers ≡ 1
Suits multiple_producer_multiple_consumer producers consumers = Unit

split_workers-Suits :
    (topology : Topology) (n : ℕ)
    → 2 ≤ n
    → Suits
        (category_for_topology topology)
        (split_workers topology n).0
        (split_workers topology n).1
      × ((split_workers topology n).0 + (split_workers topology n).1 ≤ n)
unfolding split_workers
split_workers-Suits spsc n h = ((refl, refl), h)
split_workers-Suits mpsc n h = (refl, ground arith)
split_workers-Suits spmc n h = (refl, ground arith)
split_workers-Suits mpmc n h = (tt, ground arith)

split_workers-positive :
    (topology : Topology) (n : ℕ)
    → (1 ≤ (split_workers topology n).0) × (1 ≤ (split_workers topology n).1)
unfolding split_workers
split_workers-positive spsc n = ground arith
split_workers-positive mpsc n = ground arith
split_workers-positive spmc n = ground arith
split_workers-positive mpmc n = ground arith

pub overridden-positive : (m : ℤ) (n : ℕ) → 1 ≤ n → 1 ≤ overridden m n
overridden-positive (pos m) n h = ground arith
overridden-positive (negsuc m) n h = h

-- The override is not set, or not to a positive value.
abbrev pub IsUnset : ℤ → Type 0
IsUnset (pos n) = n ≡ 0
IsUnset (negsuc n) = Unit

overridden_unset : (m : ℤ) (n : ℕ) → IsUnset m → overridden m n ≡ n
overridden_unset (pos m) n h = ground (arith, h)
overridden_unset (negsuc m) n h = refl

module _ {W : Type 0} (d : Double W) (env : Environment W) where
  unfoldable pub ratio : W
  ratio =
      let use_all_threads = env_flag env "MQ_BENCH_USE_ALL_THREADS" false in
      let ratio_default = if use_all_threads then d.ratio 1 1 else d.ratio 1 2 in
      clamp d (env_read_double env "MQ_BENCH_THREAD_RATIO" ratio_default) (d.ratio 1 10)
        (d.ratio 1 1)

  unfoldable pub hw_threads : ℕ
  hw_threads = max_int 1 (to_int env.hardware_concurrency)

  unfoldable pub workers : ℕ
  workers = at_least 2 (d.floor (d.mul (d.of_integer (hw_threads)) ratio))

  unfoldable pub threads_for_topology : Topology → ThreadLayout W
  unfolding split_workers ratio hw_threads workers
  threads_for_topology topology =
      let (producers, consumers) = split_workers topology workers in
      record {
        producers = overridden (env_read env "MQ_BENCH_PRODUCERS" (negsuc 0)) producers;
        consumers = overridden (env_read env "MQ_BENCH_CONSUMERS" (negsuc 0)) consumers;
        hw_threads = hw_threads;
        thread_ratio = ratio;
      }

  two_workers : 2 ≤ workers
  unfolding workers
  two_workers = ground arith

  -- Whatever the environment says, there are a producer, a consumer and a hardware thread at least.
  pub layout_positive :
      (topology : Topology)
      → (1 ≤ (threads_for_topology topology).producers)
        × (1 ≤ (threads_for_topology topology).consumers)
        × (1 ≤ (threads_for_topology topology).hw_threads)
  unfolding threads_for_topology hw_threads
  layout_positive topology =
      let (p, c) = split_workers-positive topology workers in
      (
        overridden-positive (env_read env "MQ_BENCH_PRODUCERS" (negsuc 0)) _ p,
        overridden-positive (env_read env "MQ_BENCH_CONSUMERS" (negsuc 0)) _ c,
        ground arith,
      )

  -- Without overrides a topology has one producer, or one consumer, where the category of its
  -- queues allows only one, and there are no more threads than workers.
  pub layout-Suits :
      (topology : Topology)
      → IsUnset (env_read env "MQ_BENCH_PRODUCERS" (negsuc 0))
      → IsUnset (env_read env "MQ_BENCH_CONSUMERS" (negsuc 0))
      → Suits
          (category_for_topology topology)
          (threads_for_topology topology).producers
          (threads_for_topology topology).consumers
        × ((threads_for_topology topology).producers + (threads_for_topology topology).consumers
            ≤ workers)
  unfolding threads_for_topology
  layout-Suits topology p c =
      rw
        (overridden_unset (env_read env "MQ_BENCH_PRODUCERS" (negsuc 0))
          (split_workers topology workers).0 p)
        (rw
          (overridden_unset (env_read env "MQ_BENCH_CONSUMERS" (negsuc 0))
            (split_workers topology workers).1 c)
          (split_workers-Suits topology workers two_workers))
