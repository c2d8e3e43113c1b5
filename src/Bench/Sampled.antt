-- ===== src/Bench/Sampled.antt =====
-- bin/benchmark_helpers.hpp: a scenario takes no more samples than it has messages.
use message_queue_practical.Prelude.{
  ℕ, zero, suc, ◌^◌, ◌≤◌, ◌<◌, ◌≡◌, refl, sym, ◌∙◌, ap, subst, arith, true, false, List, [], ◌∷◌,
  ok, length, length-append, ℕ_discrete, dec_lt,
}
use message_queue_practical.Interface.History.{update}
use message_queue_practical.Bench.Params.{ScenarioParams, local_total}
use message_queue_practical.Bench.Adapter.{Adapter}
use message_queue_practical.Bench.Scenario.{
  Producer, System, Turn, producer_turn, consumer_turn, expire, at_start, turn, interleave, produce,
  consume,
}
use message_queue_practical.Bench.Metrics.{samples_of}
use message_queue_practical.Bench.Sums.{sum, sum-le, update_here, update_other}
use message_queue_practical.Bench.Lossless.{IsLossless}
use message_queue_practical.Bench.Reading.{count_read-le}
use message_queue_practical.Bench.Delivery.{Inv, turn-Inv}
use message_queue_practical.Bench.Ending.{after_producer, after_consumer}
use message_queue_practical.Bench.Samples.{
  SampleStage, produce_samples, consume_samples, consume_keeps,
}

length-samples_of : (f : ℕ → List ℕ) (n : ℕ) → length (samples_of f n) ≡ sum (λ i. length (f i)) n
length-samples_of f zero = refl
length-samples_of f (suc n) =
    omega (arith, length-append (samples_of f n) (f n), length-samples_of f n)

SampleStage-le : (share taken : ℕ) (pc : Producer) → SampleStage share taken pc → taken ≤ share
SampleStage-le share taken pc h = ground (arith, h)

module _ {Q W : Type 0} (adapter : Adapter Q) (params : ScenarioParams W) (stride : ℕ)
    (Holds : Q → ℕ → Type 0) (lossless : IsLossless adapter params.producers Holds)
    (small : sum (local_total params) params.producers < 2 ^ 64) where
  -- While no stop is requested, every thread has no more samples than messages.
  pub record Few (s : System Q) : Type 0 where
    pub sends :
        (i : ℕ)
        → i < params.producers
        → SampleStage
            (local_total params i)
            (length (s.shared.send_samples_by_producer i))
            (s.producers i)
    pub reads :
        s.shared.stop_requested ≡ false
        → (i : ℕ) → i < params.consumers
        → length (s.shared.read_samples_by_consumer i) ≤ s.shared.consumer_counts i

  turn-Few :
      (t : Turn) (s s' : System Q)
      → Inv adapter params stride Holds s
      → turn adapter params stride t s ≡ ok tt s'
      → Few s
      → Few s'
  unfolding turn
  turn-Few (producer_turn idx now) s s' (held, holds, tally) e few =
      elim (dec_lt idx params.producers) [
        | yes h ↦
            let (pc, p, goes, same) =
              after_producer adapter params stride idx s s'
                (produce adapter params stride idx now (s.producers idx) s.shared)
                (ground (arith, e)) in
            let (stage, others, reads, counts, stop) =
              produce_samples adapter params stride idx now s.shared (s.producers idx) pc p goes
                (few.sends idx h) in
            subst Few (sym same) (record {
              sends = λ i k. elim (ℕ_discrete idx i) [
                | yes n ↦
                    subst
                      (λ j.
                        SampleStage (local_total params j) (length (p.send_samples_by_producer j))
                          (update s.producers idx pc j))
                      n
                      (subst
                        (SampleStage (local_total params idx)
                          (length (p.send_samples_by_producer idx)))
                        (sym (update_here s.producers idx pc)) stage)
                | no n ↦
                    subst
                      (SampleStage (local_total params i) (length (p.send_samples_by_producer i)))
                      (sym (update_other s.producers idx pc i n))
                      (subst (λ xs. SampleStage (local_total params i) (length xs) (s.producers i))
                        (sym (others i n)) (few.sends i k))
              ];
              reads = λ open_still i k. omega (
                arith,
                few.reads (sym stop ∙ open_still) i k,
                ap (λ f. length (f i)) reads,
                ap (λ f. f i) counts,
              );
            })
        | no h ↦ let same : s ≡ s' = ground (arith, e) in subst Few same few
      ]
  turn-Few (consumer_turn idx now) s s' (held, holds, tally) e few =
      elim (dec_lt idx params.consumers) [
        | yes h ↦
            let (pc, p, goes, same) =
              after_consumer adapter params stride idx s s'
                (consume adapter params stride idx now (s.consumers idx) s.shared)
                (ground (arith, e)) in
            let (sends, stop) =
              consume_keeps adapter params stride idx now s.shared (s.consumers idx) pc p goes in
            subst Few (sym same) (record {
              sends = λ i k.
                  subst (λ f. SampleStage (local_total params i) (length (f i)) (s.producers i))
                    (sym sends) (few.sends i k);
              reads = λ open_still i k.
                  let before = few.reads (sym stop ∙ open_still) in
                  let (more, others) =
                    consume_samples adapter params stride idx now s.shared (s.consumers idx) pc p
                      goes
                      (λ m at here.
                        count_read-le adapter params stride Holds lossless small idx now s.shared
                          held s.producers s.consumers holds tally h m at
                          (tally (sym stop ∙ open_still)) here)
                      (before idx h) in
                  elim (ℕ_discrete idx i) [
                    | yes n ↦
                        subst (λ j. length (p.read_samples_by_consumer j) ≤ p.consumer_counts j) n
                          more
                    | no n ↦ omega (arith, before i k, ap length (others i n).0, (others i n).1)
                  ];
            })
        | no h ↦ let same : s ≡ s' = ground (arith, e) in subst Few same few
      ]
  turn-Few expire s s' inv e few =
      let same : s' ≡ record s { shared = record s.shared { stop_requested = true } } = cc e in
      subst Few (sym same)
        (record { sends = few.sends; reads = λ open_still. absurd (ground (arith, open_still)) })

  interleave-Few :
      (ts : List Turn) (s s' : System Q)
      → Inv adapter params stride Holds s
      → interleave adapter params stride ts s ≡ ok tt s'
      → Few s
      → Few s'
  unfolding interleave
  interleave-Few [] s s' inv e few = subst Few (cc e) few
  interleave-Few (t ∷ ts) s s' inv e few =
      let (s1, e1, inv1) = turn-Inv adapter params stride Holds lossless small t s inv in
      interleave-Few ts s1 s' inv1 (ground (arith, e, e1)) (turn-Few t s s1 inv e1 few)

  start-Few : (q : Q) → Few (at_start q)
  start-Few q = record { sends = λ i h. (omega arith, omega arith); reads = λ o i h. omega arith }

  -- As many samples at most as messages.
  pub samples_few :
      (ts : List Turn) (q : Q) (s : System Q)
      → Inv adapter params stride Holds (at_start q)
      → interleave adapter params stride ts (at_start q) ≡ ok tt s
      → s.shared.stop_requested ≡ false
      → (length (samples_of s.shared.send_samples_by_producer params.producers)
          ≤ sum (local_total params) params.producers)
        × (length (samples_of s.shared.read_samples_by_consumer params.consumers)
            ≤ sum s.shared.consumer_counts params.consumers)
  samples_few ts q s inv e open_still =
      let few = interleave-Few ts (at_start q) s inv e (start-Few q) in
      let sends =
        sum-le (λ i. length (s.shared.send_samples_by_producer i)) (local_total params)
          params.producers (λ i h. SampleStage-le _ _ (s.producers i) (few.sends i h)) in
      let reads =
        sum-le (λ i. length (s.shared.read_samples_by_consumer i)) s.shared.consumer_counts
          params.consumers (few.reads open_still) in
      (
        omega (arith, length-samples_of s.shared.send_samples_by_producer params.producers, sends),
        omega (arith, length-samples_of s.shared.read_samples_by_consumer params.consumers, reads),
      )
