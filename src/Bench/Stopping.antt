-- ===== src/Bench/Stopping.antt =====
-- bin/benchmark_helpers.hpp: a scenario ends once its watchdog has requested a stop.
use message_queue_practical.Prelude.{
  ℕ, ◌^◌, ◌≤◌, ◌<◌, ◌≡◌, refl, ◌∙◌, arith, true, List, [], ◌∷◌, ◌++◌, ok,
}
use message_queue_practical.Bench.Params.{ScenarioParams, local_total}
use message_queue_practical.Bench.Adapter.{Adapter}
use message_queue_practical.Bench.Scenario.{
  Producer, finished, Consumer, left, System, Turn, expire, at_start, turn, interleave,
}
use message_queue_practical.Bench.Sums.{sum}
use message_queue_practical.Bench.Lossless.{IsLossless}
use message_queue_practical.Bench.Shares.{shares_total}
use message_queue_practical.Bench.Delivery.{Inv, start-Inv, turn-Inv}
use message_queue_practical.Bench.Ending.{
  producer_rank, consumer_rank, producer_turn_of, consumer_turn_of, turns_of, Nearer, turn-Nearer,
}

producer_ended : (pc : Producer) → producer_rank pc ≤ 0 → pc ≡ finished
producer_ended pc h = ground (arith, h)

consumer_ended : (pc : Consumer) → consumer_rank pc ≤ 0 → pc ≡ left
consumer_ended pc h = ground (arith, h)

producer_rank-le : (pc : Producer) → producer_rank pc ≤ 5
producer_rank-le pc = ground arith

consumer_rank-le : (pc : Consumer) → consumer_rank pc ≤ 8
consumer_rank-le pc = ground arith

module _ {Q W : Type 0} (adapter : Adapter Q) (params : ScenarioParams W) (stride : ℕ)
    (Holds : Q → ℕ → Type 0) (lossless : IsLossless adapter params.producers Holds)
    (small : sum (local_total params) params.producers < 2 ^ 64) where
  -- The turns `ts` go on, and bring the threads nearer to their ends.
  abbrev Ends : List Turn → System Q → Type 0
  Ends ts s =
      (s' : System Q) × (interleave adapter params stride ts s ≡ ok tt s')
      × Nearer adapter params stride (λ i. turns_of (producer_turn_of i) ts)
          (λ i. turns_of (consumer_turn_of i) ts) s s'

  interleave-Ends :
      (ts : List Turn) (s : System Q)
      → Inv adapter params stride Holds s
      → s.shared.stop_requested ≡ true
      → Ends ts s
  unfolding interleave
  interleave-Ends [] s inv stop = (s, refl, (stop, λ i k. omega arith, λ i k. omega arith))
  interleave-Ends (t ∷ ts) s inv stop =
      let (s1, e1, inv1) = turn-Inv adapter params stride Holds lossless small t s inv in
      let (stop1, p1, c1) = turn-Nearer adapter params stride t s s1 e1 stop in
      let (s2, e2, near) = interleave-Ends ts s1 inv1 stop1 in
      let (stop2, p2, c2) = near in
      (
        s2,
        ground (arith, e1, e2),
        (stop2, λ i k. omega (arith, p1 i k, p2 i k), λ i k. omega (arith, c1 i k, c2 i k)),
      )

  -- Some turns go on, and leave the others to be run.
  interleave-Inv-append :
      (before rest : List Turn) (s : System Q)
      → Inv adapter params stride Holds s
      → (s1 : System Q) × (interleave adapter params stride (before ++ rest) s
          ≡ interleave adapter params stride rest s1)
        × Inv adapter params stride Holds s1
  unfolding interleave
  interleave-Inv-append [] rest s inv = (s, refl, inv)
  interleave-Inv-append (t ∷ before) rest s inv =
      let (s1, e1, inv1) = turn-Inv adapter params stride Holds lossless small t s inv in
      let (s2, e2, inv2) = interleave-Inv-append before rest s1 inv1 in
      (s2, ground (arith, e1, e2), inv2)

-- When the watchdog has requested a stop, the scenario ends: a producer is at its end after five
-- turns of its own, a consumer after eight, whatever the others do, and no step throws or blocks. The queue loses no message and
-- starts empty, there is a producer, and the number of messages fits an `int`.
pub scenario_stops :
    {Q W : Type 0} (adapter : Adapter Q) (params : ScenarioParams W) (stride : ℕ)
    (Holds : Q → ℕ → Type 0) (q : Q) (before after : List Turn)
    → IsLossless adapter params.producers Holds
    → Holds q 0
    → 0 < params.producers
    → params.total_messages < 2 ^ 31
    → (s : System Q) × (interleave adapter params stride (before ++ expire ∷ after) (at_start q)
        ≡ ok tt s)
      × ((i : ℕ)
          → i < params.producers
          → 5 ≤ turns_of (producer_turn_of i) after
          → s.producers i ≡ finished)
      × ((i : ℕ)
          → i < params.consumers
          → 8 ≤ turns_of (consumer_turn_of i) after
          → s.consumers i ≡ left)
unfolding interleave turn
scenario_stops adapter params stride Holds q before after lossless empty p small =
    let fits : sum (local_total params) params.producers < 2 ^ 64 =
      omega (arith, shares_total params p, small) in
    let (s1, e1, (held, holds, tally)) =
      interleave-Inv-append adapter params stride Holds lossless fits before (expire ∷ after)
        (at_start q) (start-Inv adapter params stride Holds q empty) in
    let (s2, e2, (stop, ps, cs)) =
      interleave-Ends adapter params stride Holds lossless fits after
        (record s1 { shared = record s1.shared { stop_requested = true } })
        (held, holds, λ open_still. absurd (ground (arith, open_still))) refl in
    (
      s2,
      e1 ∙ e2,
      λ i h n.
          producer_ended (s2.producers i)
            (omega (arith, ps i h, n, producer_rank-le (s1.producers i))),
      λ i h n.
          consumer_ended (s2.consumers i)
            (omega (arith, cs i h, n, consumer_rank-le (s1.consumers i))),
    )
