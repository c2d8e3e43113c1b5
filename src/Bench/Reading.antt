-- ===== src/Bench/Reading.antt =====
-- bin/benchmark_helpers.hpp: each step of a consumer goes on, and keeps the counters right.
use message_queue_practical.Prelude.{
  ℕ, suc, ◌+◌, ◌^◌, ◌≤◌, ◌<◌, ◌≡◌, inl, inr, refl, sym, ◌∙◌, ap, subst, arith, false, ok, ltb, leb,
  ==_iff, ne→==-false, inc_size, ℕ_discrete, Bool-cases, Option-cases, ◌&&◌,
}
use message_queue_practical.Interface.History.{update}
use message_queue_practical.Bench.Params.{BenchmarkMessage, ScenarioParams, local_total}
use message_queue_practical.Bench.Adapter.{Adapter}
use message_queue_practical.Bench.Scenario.{
  Shared, Producer, next_message, take_sequence, test_stop, offer, back_off, test_again, count_own,
  count_produced, finish, finished, Consumer, check_stop, check_done, check_size, check_produced,
  check_delivered, pull, wait, count_delivered, count_read, left, consume, consumer_should_stop,
  sample,
}
use message_queue_practical.Bench.Sums.{
  sum, sum-le, sum-cong, sum-full, sum-zero, le-sum, update_here, update_other, update_same,
}
use message_queue_practical.Bench.Lossless.{IsLossless, Leaves}
use message_queue_practical.Bench.Tally.{
  sent, owed, is_finished, is_finished-le, unread, uncounted, Knows, sent-Stage, Tally-consumer,
}
use message_queue_practical.Bench.Sending.{Counts}

sent_finished : (pc : Producer) → is_finished pc ≡ 1 → (sent pc ≡ 0) × (owed pc ≡ 0)
sent_finished finished e = (refl, refl)
sent_finished (next_message i) e = absurd (omega arith)
sent_finished (take_sequence i) e = absurd (omega arith)
sent_finished (test_stop i msg a) e = absurd (omega arith)
sent_finished (offer i msg a) e = absurd (omega arith)
sent_finished (back_off i msg a) e = absurd (omega arith)
sent_finished (test_again i msg) e = absurd (omega arith)
sent_finished (count_own i msg t) e = absurd (omega arith)
sent_finished (count_produced i msg t) e = absurd (omega arith)
sent_finished finish e = absurd (omega arith)

module _ {Q W : Type 0} (adapter : Adapter Q) (params : ScenarioParams W) (stride : ℕ)
    (Holds : Q → ℕ → Type 0) (lossless : IsLossless adapter params.producers Holds)
    (small : sum (local_total params) params.producers < 2 ^ 64) where
  module _ (idx now : ℕ) (s : Shared Q) (held : ℕ) (ps : ℕ → Producer) (cs : ℕ → Consumer)
      (holds : Holds s.queue held)
      (tally : s.stop_requested ≡ false → Counts params held s ps cs) where
    pub record Consumed (pc : Consumer) : Type 0 where
      pub pc' : Consumer
      pub s' : Shared Q
      pub held' : ℕ
      pub goes : consume adapter params stride idx now pc s ≡ ok pc' s'
      pub holds' : Holds s'.queue held'
      pub stop_same : s'.stop_requested ≡ s.stop_requested
      pub tally' : s.stop_requested ≡ false → Counts params held' s' ps (update cs idx pc')

    -- Once all producers are done, what is produced is what was taken by the queue.
    pub all_produced :
        Counts params held s ps cs
        → s.producers_done ≡ params.producers
        → held + s.delivered + sum (λ i. unread (cs i)) params.consumers ≡ s.produced
    all_produced t e =
        let ended = λ (i : ℕ) (k : i < params.producers). sent_finished (ps i) (
          sum-full (λ j. is_finished (ps j)) params.producers i (λ j. is_finished-le (ps j))
            (sym t.ended ∙ e) k) in
        let a =
          sum-cong (λ i. s.producer_counts i + sent (ps i)) s.producer_counts params.producers
            (λ i k. omega (arith, (ended i k).0)) in
        let b = sum-cong (λ i. owed (ps i)) (λ i. 0) params.producers (λ i k. (ended i k).1) in
        let z = sum-zero (λ i. 0) params.producers (λ i k. refl) in
        omega (arith, t.balance, t.own, a, b, z)

    fit :
        Counts params held s ps cs
        → sum (λ i. s.producer_counts i + sent (ps i)) params.producers < 2 ^ 64
    fit t =
        let a =
          sum-le (λ i. s.producer_counts i + sent (ps i)) (local_total params) params.producers
            (λ i k. sent-Stage (local_total params i) (ps i) (s.producer_counts i) (t.stage i k)) in
        omega (arith, small, a)

    module _ (h : idx < params.consumers) where
      -- A consumer that is to count its message has room to.
      pub count_read-le :
          (m : BenchmarkMessage) (at : ℕ)
          → Counts params held s ps cs
          → cs idx ≡ count_read m at
          → suc (s.consumer_counts idx) < 2 ^ 64
      count_read-le m at t here =
          let own = le-sum (λ i. uncounted (cs i)) params.consumers idx h in
          let mine = le-sum s.consumer_counts params.consumers idx h in
          omega (arith, fit t, t.balance, t.counted, own, mine, ap uncounted here)

      -- A step that changes the point of the consumer, and what no counter depends on.
      goes_to :
          (pc pc' : Consumer) (q : Q) (b : ℕ)
          → cs idx ≡ pc
          → consume adapter params stride idx now pc s
            ≡ ok pc' (record s { queue = q; blocked_read_attempts = b })
          → Holds q held
          → (s.stop_requested ≡ false
              → Counts params held s ps cs
              → Knows params.producers held s.produced s.producers_done pc
              → Knows params.producers held s.produced s.producers_done pc'
                × (unread pc' ≡ unread pc)
                × (uncounted pc' ≡ uncounted pc))
          → Consumed pc
      goes_to pc pc' q b here goes holds_still f = record {
        pc' = pc';
        s' = record s { queue = q; blocked_read_attempts = b };
        held' = held;
        goes = goes;
        holds' = holds_still;
        stop_same = refl;
        tally' = λ open_still.
            let t = tally open_still in
            let (k, n, m) = f open_still t (
              subst (λ z. Knows params.producers held s.produced s.producers_done z) here
                (t.known idx h)) in
            Tally-consumer params.producers params.consumers (local_total params) t idx held
              s.delivered s.consumer_counts pc' h (omega arith) (λ i e. refl) k
              (omega (arith, n, ap unread here)) (omega (arith, m, ap uncounted here));
      }

      checks_size : (a : ℕ) → cs idx ≡ check_size a → Consumed (check_size a)
      unfolding consume consumer_should_stop
      checks_size a here =
          let (q, e, after) =
            lossless.sizes s.queue held (params.producers + idx) (omega arith) holds in
          elim (ℕ_discrete held 0) [
            | yes empty ↦
                goes_to (check_size a) left q s.blocked_read_attempts here (ground (arith, e)) after
                  (λ open_still t k. ((k, empty), refl, refl))
            | no some_left ↦
                goes_to (check_size a) (check_produced a) q s.blocked_read_attempts here
                  (ground (arith, e)) after (λ open_still t k. (k, refl, refl))
          ]

      checks_delivered : (a p : ℕ) → cs idx ≡ check_delivered a p → Consumed (check_delivered a p)
      unfolding consume consumer_should_stop
      checks_delivered a p here = elim (Bool-cases (ltb 0 p && leb p s.delivered)) [
        | inl all ↦
            goes_to (check_delivered a p) left s.queue s.blocked_read_attempts here (rw all refl)
              holds
              (λ open_still t k.
                let caught_up : p ≤ s.delivered = ground arith in
                ((k.0, omega (arith, all_produced t k.0, k.1)), refl, refl))
        | inr more ↦
            goes_to (check_delivered a p) (pull a) s.queue s.blocked_read_attempts here
              (rw more refl) holds (λ open_still t k. (tt, refl, refl))
      ]

      pulls : (a : ℕ) → cs idx ≡ pull a → Consumed (pull a)
      unfolding consume consumer_should_stop
      pulls a here =
          let (o, q, rest, e, leaves, after) =
            lossless.reads s.queue held (params.producers + idx) (omega arith) holds in
          elim (Option-cases o) [
            | inl nothing ↦
                let same : held ≡ rest = subst (λ x. Leaves held x rest) nothing leaves in
                goes_to (pull a) (wait a) q s.blocked_read_attempts here
                  (ground (arith, e, nothing)) (subst (λ n. Holds q n) (sym same) after)
                  (λ open_still t k. (tt, refl, refl))
            | inr (m, got) ↦
                let fewer : held ≡ suc rest = subst (λ x. Leaves held x rest) got leaves in
                record {
                  pc' = count_delivered m now;
                  s' = record s { queue = q };
                  held' = rest;
                  goes = ground (arith, e, got);
                  holds' = after;
                  stop_same = refl;
                  tally' = λ open_still.
                      Tally-consumer params.producers params.consumers (local_total params)
                        (tally open_still) idx rest s.delivered s.consumer_counts
                        (count_delivered m now) h (omega arith) (λ i n. refl) tt
                        (omega (arith, ap unread here)) (omega (arith, ap uncounted here));
                }
          ]

      counts_delivered :
          (m : BenchmarkMessage) (at : ℕ)
          → cs idx ≡ count_delivered m at
          → Consumed (count_delivered m at)
      unfolding consume consumer_should_stop
      counts_delivered m at here = record {
        pc' = count_read m at;
        s' = record s { delivered = inc_size s.delivered };
        held' = held;
        goes = refl;
        holds' = holds;
        stop_same = refl;
        tally' = λ open_still.
            let t = tally open_still in
            let own = le-sum (λ i. unread (cs i)) params.consumers idx h in
            let one : inc_size s.delivered ≡ suc s.delivered =
              omega (arith, fit t, t.balance, own, ap unread here) in
            Tally-consumer params.producers params.consumers (local_total params) t idx held
              (inc_size s.delivered) s.consumer_counts (count_read m at) h (omega arith)
              (λ i n. refl) tt (omega (arith, one, ap unread here))
              (omega (arith, one, ap uncounted here));
      }

      counts_read :
          (m : BenchmarkMessage) (at : ℕ) → cs idx ≡ count_read m at → Consumed (count_read m at)
      unfolding consume consumer_should_stop
      counts_read m at here = record {
        pc' = check_stop 0;
        s' = record s {
          consumer_counts = update s.consumer_counts idx (inc_size (s.consumer_counts idx));
          read_samples_by_consumer =
              update s.read_samples_by_consumer idx
                (sample stride m.seq m.send_ns at (s.read_samples_by_consumer idx));
        };
        held' = held;
        goes = refl;
        holds' = holds;
        stop_same = refl;
        tally' = λ open_still.
            let t = tally open_still in
            let one : inc_size (s.consumer_counts idx) ≡ suc (s.consumer_counts idx) =
              omega (arith, count_read-le m at t here) in
            let now_own : update s.consumer_counts idx (inc_size (s.consumer_counts idx)) idx
                ≡ suc (s.consumer_counts idx) =
              update_here s.consumer_counts idx (inc_size (s.consumer_counts idx)) ∙ one in
            Tally-consumer params.producers params.consumers (local_total params) t idx held
              s.delivered (update s.consumer_counts idx (inc_size (s.consumer_counts idx)))
              (check_stop 0) h (omega arith)
              (update_other s.consumer_counts idx (inc_size (s.consumer_counts idx))) tt
              (omega (arith, ap unread here)) (omega (arith, now_own, ap uncounted here));
      }

      pub consumes : (pc : Consumer) → cs idx ≡ pc → Consumed pc
      unfolding consume consumer_should_stop
      consumes (check_stop a) here = elim (Bool-cases s.stop_requested) [
        | inl stop ↦
            goes_to (check_stop a) left s.queue s.blocked_read_attempts here (rw stop refl) holds
              (λ open_still. absurd (cc (stop, open_still)))
        | inr go ↦
            goes_to (check_stop a) (check_done a) s.queue s.blocked_read_attempts here (rw go refl)
              holds (λ open_still t k. (tt, refl, refl))
      ]
      consumes (check_done a) here = elim (ℕ_discrete s.producers_done params.producers) [
        | yes e ↦
            goes_to (check_done a) (check_size a) s.queue s.blocked_read_attempts here
              (rw ((==_iff s.producers_done params.producers).1 e) refl) holds
              (λ open_still t k. (e, refl, refl))
        | no n ↦
            goes_to (check_done a) (pull a) s.queue s.blocked_read_attempts here
              (rw (ne→==-false s.producers_done params.producers n) refl) holds
              (λ open_still t k. (tt, refl, refl))
      ]
      consumes (check_size a) here = checks_size a here
      consumes (check_produced a) here =
          goes_to (check_produced a) (check_delivered a s.produced) s.queue s.blocked_read_attempts
            here refl holds (λ open_still t k. ((k, refl), refl, refl))
      consumes (check_delivered a p) here = checks_delivered a p here
      consumes (pull a) here = pulls a here
      consumes (wait a) here =
          goes_to (wait a) (check_stop (inc_size a)) s.queue (inc_size s.blocked_read_attempts) here
            refl holds (λ open_still t k. (tt, refl, refl))
      consumes (count_delivered m at) here = counts_delivered m at here
      consumes (count_read m at) here = counts_read m at here
      consumes left here = record {
        pc' = left;
        s' = s;
        held' = held;
        goes = refl;
        holds' = holds;
        stop_same = refl;
        tally' = λ open_still.
            subst (λ x. Counts params held s ps x) (sym (update_same cs idx left here))
              (tally open_still);
      }
