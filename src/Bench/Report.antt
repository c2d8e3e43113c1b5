-- ===== src/Bench/Report.antt =====
-- bin/benchmark_helpers.hpp: the metrics of a scenario that has ended.
use message_queue_practical.Prelude.{
  ℕ, ◌+◌, ◌^◌, ◌≤◌, ◌<◌, ◌≡◌, refl, ◌∙◌, inl, arith, false, List, ok, length, leb, if◌then◌else◌,
  ◌-◌,
}
use message_queue_practical.Bench.Params.{ScenarioParams, local_total}
use message_queue_practical.Bench.Adapter.{Adapter}
use message_queue_practical.Bench.Scenario.{
  Shared, finished, left, System, Turn, at_start, interleave,
}
use message_queue_practical.Bench.Lossless.{IsLossless}
use message_queue_practical.Bench.Delivery.{start-Inv, scenario_delivers_all}
use message_queue_practical.Bench.Shares.{shares_total}
use message_queue_practical.Bench.Sums.{sum}
use message_queue_practical.Bench.Sampled.{samples_few}
use message_queue_practical.Bench.Double.{Double, IsIeee}
use message_queue_practical.Bench.Percentile.{Sort}
use message_queue_practical.Bench.Ranks.{percentile_in_range}
use message_queue_practical.Bench.Metrics.{
  ScenarioMetrics, k_tail_percentile, samples_of, gather, filled,
}

module _ {Q W : Type 0} (d : Double W) (sort : Sort) (adapter : Adapter Q)
    (params : ScenarioParams W) (Holds : Q → ℕ → Type 0)
    (lossless : IsLossless adapter params.producers Holds) (ieee : IsIeee d) where
  -- The metrics are gathered from the counters and the queue.
  gather_goes :
      (elapsed : W) (s : Shared Q) (n : ℕ)
      → Holds s.queue n
      → length (samples_of s.send_samples_by_producer params.producers) ≤ 2 ^ 53
      → length (samples_of s.read_samples_by_consumer params.consumers) ≤ 2 ^ 53
      → (m : ScenarioMetrics W) × (s' : Shared Q) × (gather d sort adapter params elapsed s
          ≡ ok m s')
        × (m.produced ≡ s.produced)
        × (m.delivered ≡ s.delivered)
        × (m.lost ≡ (if leb s.delivered s.produced then s.produced - s.delivered else 0))
        × (m.seq_gaps ≡ m.lost)
        × (m.queue_size_at_end ≡ n)
        × (m.timed_out ≡ s.stop_requested)
  unfolding gather filled
  gather_goes elapsed s n holds few_sent few_read =
      let half = ieee.ratio_below 1 2 (omega arith) (omega arith) in
      let tail = ieee.ratio_below 99 100 (omega arith) (omega arith) in
      let (a, e1) = percentile_in_range d sort _ (d.ratio 1 2) ieee (inl half) few_sent in
      let (b, e2) = percentile_in_range d sort _ (k_tail_percentile d) ieee (inl tail) few_sent in
      let (c, e3) = percentile_in_range d sort _ (d.ratio 1 2) ieee (inl half) few_read in
      let (f, e4) = percentile_in_range d sort _ (k_tail_percentile d) ieee (inl tail) few_read in
      let (q, e5, after) =
        lossless.sizes s.queue n (params.producers + params.consumers) (omega arith) holds in
      (
        filled d sort adapter params elapsed s a b c f n,
        record s { queue = q },
        ground (arith, e1, e2, e3, e4, e5),
        refl,
        refl,
        refl,
        refl,
        refl,
        refl,
      )

-- After a scenario that has ended without a stop the metrics can be gathered, and they say that all messages are sent and
-- read, none is lost or missing, the queue is empty and no time ran out. The queue loses no message
-- and starts empty, there are a producer and a consumer, the messages fit an `int`, and
-- doubles are those of IEEE.
pub complete_report :
    {Q W : Type 0} (d : Double W) (sort : Sort) (adapter : Adapter Q) (params : ScenarioParams W)
    (stride : ℕ) (Holds : Q → ℕ → Type 0) (q : Q) (ts : List Turn) (s : System Q) (elapsed : W)
    → IsLossless adapter params.producers Holds
    → IsIeee d
    → Holds q 0
    → 0 < params.producers
    → 0 < params.consumers
    → params.total_messages < 2 ^ 31
    → interleave adapter params stride ts (at_start q) ≡ ok tt s
    → ((i : ℕ) → i < params.producers → s.producers i ≡ finished)
    → ((i : ℕ) → i < params.consumers → s.consumers i ≡ left)
    → s.shared.stop_requested ≡ false
    → (m : ScenarioMetrics W) × (s' : Shared Q) × (gather d sort adapter params elapsed s.shared
        ≡ ok m s')
      × (m.produced ≡ params.total_messages)
      × (m.delivered ≡ params.total_messages)
      × (m.lost ≡ 0)
      × (m.seq_gaps ≡ 0)
      × (m.queue_size_at_end ≡ 0)
      × (m.timed_out ≡ false)
complete_report d sort adapter params stride Holds q ts s elapsed lossless ieee empty p c small runs
      ps cs open_still =
    let (sent_all, read_all, own, got, empty_again) =
      scenario_delivers_all adapter params stride Holds q ts s lossless empty p c small runs ps cs
        open_still in
    let shares = shares_total params p in
    let fits : sum (local_total params) params.producers < 2 ^ 64 = omega (arith, shares, small) in
    let (few_sent, few_read) =
      samples_few adapter params stride Holds lossless fits ts q s
        (start-Inv adapter params stride Holds q empty) runs open_still in
    let (m, s', e, a, b, l, g, n, t) =
      gather_goes d sort adapter params Holds lossless ieee elapsed s.shared 0 empty_again
        (omega (arith, few_sent, shares, small)) (omega (arith, few_read, got, small)) in
    let none_lost : m.lost ≡ 0 = ground (arith, l, sent_all, read_all) in
    (m, s', e, a ∙ sent_all, b ∙ read_all, none_lost, g ∙ none_lost, n, t ∙ open_still)
