-- ===== src/Bench/Delivery.antt =====
-- bin/benchmark_helpers.hpp: a scenario from its start to its end.
use message_queue_practical.Prelude.{
  ℕ, ◌+◌, ◌^◌, ◌<◌, ◌≡◌, refl, sym, ◌∙◌, ap, subst, arith, true, false, List, [], ◌∷◌, ok, dec_lt,
}
use message_queue_practical.Interface.History.{update}
use message_queue_practical.Bench.Params.{ScenarioParams, local_total}
use message_queue_practical.Bench.Adapter.{Adapter}
use message_queue_practical.Bench.Scenario.{
  Shared, Producer, finished, Consumer, left, System, Turn, producer_turn, consumer_turn, expire,
  at_start, turn, interleave, produced_to, consumed_to,
}
use message_queue_practical.Bench.Sums.{sum, sum-zero, sum-cong}
use message_queue_practical.Bench.Lossless.{IsLossless}
use message_queue_practical.Bench.Tally.{owed, sent, unread, uncounted, Stage, Knows}
use message_queue_practical.Bench.Sending.{Counts, produces}
use message_queue_practical.Bench.Reading.{consumes}
use message_queue_practical.Bench.Shares.{shares_total}

module _ {Q W : Type 0} (adapter : Adapter Q) (params : ScenarioParams W) (stride : ℕ)
    (Holds : Q → ℕ → Type 0) where
  -- The queue holds some number of messages, and the counters are right while no stop is requested.
  abbrev pub Inv : System Q → Type 0
  Inv s =
      (held : ℕ) × Holds s.shared.queue held
      × (s.shared.stop_requested ≡ false → Counts params held s.shared s.producers s.consumers)

  -- The step `t` goes on and keeps that.
  abbrev GoesOn : Turn → System Q → Type 0
  GoesOn t s = (s' : System Q) × (turn adapter params stride t s ≡ ok tt s') × Inv s'

  pub start-Inv : (q : Q) → Holds q 0 → Inv (at_start q)
  start-Inv q h = (
    0,
    h,
    λ _.
        let zeros = λ (n : ℕ). sum-zero (λ i. 0) n (λ i k. refl) in
        record {
          stage = λ i k. (refl, omega arith);
          own = omega (arith, zeros params.producers);
          balance = omega (arith, zeros params.producers, zeros params.consumers);
          ended = sym (zeros params.producers);
          counted = omega (arith, zeros params.consumers);
          known = λ i k. tt;
        },
  )

  module _ (lossless : IsLossless adapter params.producers Holds)
      (small : sum (local_total params) params.producers < 2 ^ 64) where
    pub turn-Inv : (t : Turn) (s : System Q) → Inv s → GoesOn t s
    unfolding turn produced_to consumed_to
    turn-Inv (producer_turn idx now) s (held, holds, tally) = elim (dec_lt idx params.producers) [
      | yes h ↦
          let step =
            produces adapter params stride Holds lossless small idx now s.shared held s.producers
              s.consumers holds tally h (s.producers idx) refl in
          (
            record s { shared = step.s'; producers = update s.producers idx step.pc' },
            ground (arith, step.goes),
            (step.held', step.holds', λ open_still. step.tally' (sym step.stop_same ∙ open_still)),
          )
      | no h ↦ (s, ground arith, (held, holds, tally))
    ]
    turn-Inv (consumer_turn idx now) s (held, holds, tally) = elim (dec_lt idx params.consumers) [
      | yes h ↦
          let step =
            consumes adapter params stride Holds lossless small idx now s.shared held s.producers
              s.consumers holds tally h (s.consumers idx) refl in
          (
            record s { shared = step.s'; consumers = update s.consumers idx step.pc' },
            ground (arith, step.goes),
            (step.held', step.holds', λ open_still. step.tally' (sym step.stop_same ∙ open_still)),
          )
      | no h ↦ (s, ground arith, (held, holds, tally))
    ]
    turn-Inv expire s (held, holds, tally) = (
      record s { shared = record s.shared { stop_requested = true } },
      refl,
      (held, holds, λ open_still. absurd (ground (arith, open_still))),
    )

    pub interleave-Inv :
        (ts : List Turn) (s : System Q)
        → Inv s
        → (s' : System Q) × (interleave adapter params stride ts s ≡ ok tt s') × Inv s'
    unfolding interleave
    interleave-Inv [] s h = (s, refl, h)
    interleave-Inv (t ∷ ts) s h =
        let (s1, e1, h1) = turn-Inv t s h in
        let (s2, e2, h2) = interleave-Inv ts s1 h1 in (s2, ground (arith, e1, e2), h2)

-- What the counters say once every thread has ended.
ended :
    {Q W : Type 0} (params : ScenarioParams W) (Holds : Q → ℕ → Type 0) (s : Shared Q) (held : ℕ)
    (ps : ℕ → Producer) (cs : ℕ → Consumer)
    → 0 < params.producers
    → 0 < params.consumers
    → Counts params held s ps cs
    → Holds s.queue held
    → ((i : ℕ) → i < params.producers → ps i ≡ finished)
    → ((i : ℕ) → i < params.consumers → cs i ≡ left)
    → (s.produced ≡ params.total_messages)
      × (s.delivered ≡ params.total_messages)
      × (sum s.producer_counts params.producers ≡ params.total_messages)
      × (sum s.consumer_counts params.consumers ≡ params.total_messages)
      × Holds s.queue 0
ended params Holds s held ps cs p c t holds fs ls =
    let (done, none_held) =
      subst (Knows params.producers held s.produced s.producers_done) (ls 0 c) (t.known 0 c) in
    let shares = shares_total params p in
    let own = sum-cong s.producer_counts (local_total params) params.producers (λ i h.
      subst (λ pc. Stage (local_total params i) pc (s.producer_counts i)) (fs i h) (t.stage i h)) in
    let no_owed = sum-zero (λ i. owed (ps i)) params.producers (λ i h. ap owed (fs i h)) in
    let no_unread = sum-zero (λ i. unread (cs i)) params.consumers (λ i h. ap unread (ls i h)) in
    let no_uncounted =
      sum-zero (λ i. uncounted (cs i)) params.consumers (λ i h. ap uncounted (ls i h)) in
    let balance =
      sum-cong (λ i. s.producer_counts i + sent (ps i)) s.producer_counts params.producers
        (λ i h. omega (arith, ap sent (fs i h))) in
    let (a, b, d, e) : (s.produced ≡ params.total_messages)
        × (s.delivered ≡ params.total_messages)
        × (sum s.producer_counts params.producers ≡ params.total_messages)
        × (sum s.consumer_counts params.consumers ≡ params.total_messages) =
      omega (
        arith, t.own, t.balance, t.counted, none_held, shares, own, no_owed, no_unread,
        no_uncounted, balance,
      ) in
    (a, b, d, e, subst (Holds s.queue) none_held holds)

-- Once every thread has ended and no stop was requested, every message of the scenario is sent and
-- read: `produced`, `delivered` and the sums of the counts are `total_messages`, and the queue is empty.
-- The queue loses no message and starts empty, there are a producer and a consumer, the number of
-- messages fits an `int`, and the threads take their steps in any order.
pub scenario_delivers_all :
    {Q W : Type 0} (adapter : Adapter Q) (params : ScenarioParams W) (stride : ℕ)
    (Holds : Q → ℕ → Type 0) (q : Q) (ts : List Turn) (s : System Q)
    → IsLossless adapter params.producers Holds
    → Holds q 0
    → 0 < params.producers
    → 0 < params.consumers
    → params.total_messages < 2 ^ 31
    → interleave adapter params stride ts (at_start q) ≡ ok tt s
    → ((i : ℕ) → i < params.producers → s.producers i ≡ finished)
    → ((i : ℕ) → i < params.consumers → s.consumers i ≡ left)
    → s.shared.stop_requested ≡ false
    → (s.shared.produced ≡ params.total_messages)
      × (s.shared.delivered ≡ params.total_messages)
      × (sum s.shared.producer_counts params.producers ≡ params.total_messages)
      × (sum s.shared.consumer_counts params.consumers ≡ params.total_messages)
      × Holds s.shared.queue 0
scenario_delivers_all adapter params stride Holds q ts s lossless empty p c small runs ps cs
      open_still =
    let shares = shares_total params p in
    let (s', e, inv) =
      interleave-Inv adapter params stride Holds lossless (omega (arith, shares, small)) ts
        (at_start q) (start-Inv adapter params stride Holds q empty) in
    let same : s' ≡ s = cc (e, runs) in
    let (held, holds, tally) = subst (Inv adapter params stride Holds) same inv in
    ended params Holds s.shared held s.producers s.consumers p c (tally open_still) holds ps cs
