-- ===== src/Bench/Metrics.antt =====
-- bin/benchmark_helpers.hpp: `FairnessRatio`, and the metrics that `RunScenario` returns.
use message_queue_practical.Prelude.{
  ℕ, zero, suc, ◌+◌, ◌-◌, ◌^◌, Bool, ◌||◌, Option, none, some, List, [], ◌∷◌, ◌++◌, ok, faults, M,
  ◌>>=◌, pure, ltb, leb, ◌==◌, if◌then◌else◌,
}
use message_queue_practical.Bench.Params.{ScenarioParams}
use message_queue_practical.Bench.Adapter.{Adapter}
use message_queue_practical.Bench.Scenario.{Shared, on_queue}
use message_queue_practical.Bench.Double.{Double, nought, one, min_double}
use message_queue_practical.Bench.Percentile.{Sort, percentile}

pub record ScenarioMetrics (W : Type 0) : Type 0 where
  pub produced : ℕ
  pub delivered : ℕ
  pub lost : ℕ
  pub seq_gaps : ℕ
  pub blocked_send_attempts : ℕ
  pub blocked_read_attempts : ℕ
  pub cas_retries : ℕ
  pub elapsed_sec : W
  pub produce_per_s : W
  pub consume_per_s : W
  pub send_p50_ns : W
  pub send_p99_ns : W
  pub read_p50_ns : W
  pub read_p99_ns : W
  pub producer_fairness : W
  pub consumer_fairness : W
  pub fairness_ratio : W
  pub timed_out : Bool
  pub queue_size_at_end : ℕ
  pub producer_threads : W
  pub consumer_threads : W
  pub hw_threads : W
  pub thread_ratio : W

-- The least and the greatest of the counts, and of those before them.
abbrev pub range_of : List ℕ → ℕ → ℕ → ℕ × ℕ
range_of [] min_value max_value = (min_value, max_value)
range_of (loaded ∷ counts) min_value max_value =
    range_of counts (if ltb loaded min_value then loaded else min_value)
      (if ltb max_value loaded then loaded else max_value)

-- The entries of the first `n` threads, in order.
abbrev pub counts_of : (ℕ → ℕ) → ℕ → List ℕ
counts_of f zero = []
counts_of f (suc n) = counts_of f n ++ f n ∷ []

abbrev pub samples_of : (ℕ → List ℕ) → ℕ → List ℕ
samples_of f zero = []
samples_of f (suc n) = samples_of f n ++ f n

module _ {W : Type 0} (d : Double W) where
  unfoldable pub ratio_of : ℕ × ℕ → W
  ratio_of (min_value, max_value) =
      if (max_value == 0) || (min_value == 2 ^ 64 - 1)
      then one d
      else d.div (d.of_integer min_value) (d.of_integer max_value)

  unfoldable pub fairness_of : List ℕ → W
  unfolding ratio_of
  fairness_of [] = one d
  fairness_of (n ∷ counts) = ratio_of (range_of (n ∷ counts) (2 ^ 64 - 1) 0)

  abbrev pub k_tail_percentile : W
  k_tail_percentile = d.ratio 99 100

-- A value that is read within a vector.
abbrev pub within : {S : Type 0} {A : Type 0} → Option A → M S A
within none s = faults
within (some a) s = ok a s

module _ {Q W : Type 0} (d : Double W) (sort : Sort) (adapter : Adapter Q)
    (params : ScenarioParams W) (elapsed : W) where
  -- How many of `n` in a second, if time has passed.
  abbrev per_second : ℕ → W
  per_second n = if d.less (nought d) elapsed then d.div (d.of_integer n) elapsed else nought d

  -- The metrics, from the four percentiles and the size of the queue.
  unfoldable pub filled :
      Shared Q → (send_p50 send_p99 read_p50 read_p99 : W) → ℕ → ScenarioMetrics W
  filled s send_p50 send_p99 read_p50 read_p99 n =
      let lost = if leb s.delivered s.produced then s.produced - s.delivered else 0 in
      let producer_fairness = fairness_of d (counts_of s.producer_counts params.producers) in
      let consumer_fairness = fairness_of d (counts_of s.consumer_counts params.consumers) in
      record {
        produced = s.produced;
        delivered = s.delivered;
        lost = lost;
        seq_gaps = lost;
        blocked_send_attempts = s.blocked_send_attempts;
        blocked_read_attempts = s.blocked_read_attempts;
        cas_retries = adapter.cas_retries s.queue;
        elapsed_sec = elapsed;
        produce_per_s = per_second s.produced;
        consume_per_s = per_second s.delivered;
        send_p50_ns = send_p50;
        send_p99_ns = send_p99;
        read_p50_ns = read_p50;
        read_p99_ns = read_p99;
        producer_fairness = producer_fairness;
        consumer_fairness = consumer_fairness;
        fairness_ratio = min_double d producer_fairness consumer_fairness;
        timed_out = s.stop_requested;
        queue_size_at_end = n;
        producer_threads = d.of_integer params.producers;
        consumer_threads = d.of_integer params.consumers;
        hw_threads = d.of_integer params.hw_threads;
        thread_ratio = params.thread_ratio;
      }

  -- After the threads have been joined, at `elapsed` seconds. The main thread has the last number.
  unfoldable pub gather : M (Shared Q) (ScenarioMetrics W)
  unfolding filled
  gather s =
      let send_samples = samples_of s.send_samples_by_producer params.producers in
      let read_samples = samples_of s.read_samples_by_consumer params.consumers in
      (do
        send_p50 ← within (percentile d sort send_samples (d.ratio 1 2))
        send_p99 ← within (percentile d sort send_samples (k_tail_percentile d))
        read_p50 ← within (percentile d sort read_samples (d.ratio 1 2))
        read_p99 ← within (percentile d sort read_samples (k_tail_percentile d))
        n ← on_queue (adapter.size (params.producers + params.consumers))
        pure (filled s send_p50 send_p99 read_p50 read_p99 n))
        s
