-- ===== src/Bench/Sending.antt =====
-- bin/benchmark_helpers.hpp: each step of a producer goes on, and keeps the counters right.
use message_queue_practical.Prelude.{
  ℕ, suc, ◌+◌, ◌^◌, ◌≤◌, ◌<◌, ◌≡◌, inl, inr, refl, sym, ◌∙◌, ap, subst, arith, false, ok, inc_size,
  dec_lt, Bool-cases, if◌then◌else◌,
}
use message_queue_practical.Interface.History.{update}
use message_queue_practical.Bench.Params.{BenchmarkMessage, ScenarioParams, local_total}
use message_queue_practical.Bench.Adapter.{Adapter}
use message_queue_practical.Bench.Scenario.{
  Shared, Producer, next_message, take_sequence, test_stop, offer, back_off, test_again, count_own,
  count_produced, finish, finished, Consumer, produce, sample,
}
use message_queue_practical.Bench.Sums.{sum, sum-le, le-sum, update_here, update_other, update_same}
use message_queue_practical.Bench.Lossless.{IsLossless}
use message_queue_practical.Bench.Tally.{
  sent, owed, is_finished, Stage, sent-Stage, Tally, Tally-producer,
}

-- The counters are right, with `held` messages in the queue.
abbrev pub Counts :
    {Q W : Type 0} → ScenarioParams W → ℕ → Shared Q → (ℕ → Producer) → (ℕ → Consumer) → Type 0
Counts params held s ps cs =
    Tally params.producers params.consumers (local_total params) held s.delivered s.produced
      s.producers_done s.producer_counts s.consumer_counts ps cs

module _ {Q W : Type 0} (adapter : Adapter Q) (params : ScenarioParams W) (stride : ℕ)
    (Holds : Q → ℕ → Type 0) (lossless : IsLossless adapter params.producers Holds)
    (small : sum (local_total params) params.producers < 2 ^ 64) where
  module _ (idx now : ℕ) (s : Shared Q) (held : ℕ) (ps : ℕ → Producer) (cs : ℕ → Consumer)
      (holds : Holds s.queue held)
      (tally : s.stop_requested ≡ false → Counts params held s ps cs) where
    pub record Produced (pc : Producer) : Type 0 where
      pub pc' : Producer
      pub s' : Shared Q
      pub held' : ℕ
      pub goes : produce adapter params stride idx now pc s ≡ ok pc' s'
      pub holds' : Holds s'.queue held'
      pub stop_same : s'.stop_requested ≡ s.stop_requested
      pub tally' : s.stop_requested ≡ false → Counts params held' s' (update ps idx pc') cs

    module _ (h : idx < params.producers) where
      abbrev share : ℕ
      share = local_total params idx

      -- What has been counted fits the sums.
      sums_fit :
          Counts params held s ps cs
          → (sum (λ i. s.producer_counts i + sent (ps i)) params.producers < 2 ^ 64)
            × (sum s.producer_counts params.producers < 2 ^ 64)
            × (s.producer_counts idx < 2 ^ 64)
            × (s.produced ≤ sum s.producer_counts params.producers)
      sums_fit t =
          let a =
            sum-le (λ i. s.producer_counts i + sent (ps i)) (local_total params) params.producers
              (λ i k.
                sent-Stage (local_total params i) (ps i) (s.producer_counts i) (t.stage i k)) in
          let b =
            sum-le s.producer_counts (λ i. s.producer_counts i + sent (ps i)) params.producers
              (λ i k. omega arith) in
          let c = le-sum s.producer_counts params.producers idx h in
          omega (arith, small, a, b, c, t.own)

      -- A step that changes the point of the producer, and what no counter depends on.
      goes_to :
          (pc pc' : Producer) (a b : ℕ)
          → ps idx ≡ pc
          → produce adapter params stride idx now pc s
            ≡ ok pc' (record s { next_seq = a; blocked_send_attempts = b })
          → (s.stop_requested ≡ false
              → Stage share pc (s.producer_counts idx)
              → (is_finished pc ≡ 0)
                × (is_finished pc' ≡ 0)
                × Stage share pc' (s.producer_counts idx)
                × (owed pc' ≡ owed pc)
                × (sent pc' ≡ sent pc))
          → Produced pc
      goes_to pc pc' a b here goes f = record {
        pc' = pc';
        s' = record s { next_seq = a; blocked_send_attempts = b };
        held' = held;
        goes = goes;
        holds' = holds;
        stop_same = refl;
        tally' = λ open_still.
            let t = tally open_still in
            let (x, y, stage, o, n) =
              f open_still
                (subst (λ z. Stage share z (s.producer_counts idx)) here (t.stage idx h)) in
            Tally-producer params.producers params.consumers (local_total params) t idx held
              s.produced s.producers_done s.producer_counts pc' h (ap is_finished here ∙ x)
              (λ i k. refl) stage (omega (arith, o, ap owed here)) (omega (arith, n, ap sent here))
              (omega (arith, y));
      }

      -- The queue takes the message, or it does not.
      offers :
          (i : ℕ) (msg : BenchmarkMessage) (a : ℕ)
          → ps idx ≡ offer i msg a
          → Produced (offer i msg a)
      unfolding produce
      offers i msg a here =
          let timed : BenchmarkMessage = record msg { send_ns = now } in
          let (b, q', e, after) = lossless.sends s.queue held idx timed h holds in
          elim (Bool-cases b) [
            | inl took ↦ record {
              pc' = test_again i timed;
              s' = record s { queue = q' };
              held' = suc held;
              goes = ground (arith, e, took);
              holds' = subst (λ x. Holds q' (if x then suc held else held)) took after;
              stop_same = refl;
              tally' = λ open_still.
                  let t = tally open_still in
                  Tally-producer params.producers params.consumers (local_total params) t idx
                    (suc held) s.produced s.producers_done s.producer_counts (test_again i timed) h
                    (ap is_finished here) (λ j k. refl)
                    (subst (λ z. Stage share z (s.producer_counts idx)) here (t.stage idx h))
                    (omega (arith, ap owed here)) (omega (arith, ap sent here)) (omega arith);
            }
            | inr refused ↦ record {
              pc' = back_off i timed a;
              s' = record s { queue = q' };
              held' = held;
              goes = ground (arith, e, refused);
              holds' = subst (λ x. Holds q' (if x then suc held else held)) refused after;
              stop_same = refl;
              tally' = λ open_still.
                  let t = tally open_still in
                  Tally-producer params.producers params.consumers (local_total params) t idx held
                    s.produced s.producers_done s.producer_counts (back_off i timed a) h
                    (ap is_finished here) (λ j k. refl)
                    (subst (λ z. Stage share z (s.producer_counts idx)) here (t.stage idx h))
                    (omega (arith, ap owed here)) (omega (arith, ap sent here)) (omega arith);
            }
          ]

      counts_own :
          (i : ℕ) (msg : BenchmarkMessage) (at : ℕ)
          → ps idx ≡ count_own i msg at
          → Produced (count_own i msg at)
      unfolding produce
      counts_own i msg at here = record {
        pc' = count_produced i msg at;
        s' = record s {
          producer_counts = update s.producer_counts idx (inc_size (s.producer_counts idx));
        };
        held' = held;
        goes = refl;
        holds' = holds;
        stop_same = refl;
        tally' = λ open_still.
            let t = tally open_still in
            let (e, k) = subst (λ z. Stage share z (s.producer_counts idx)) here (t.stage idx h) in
            let fit = sums_fit t in
            let own = le-sum (λ i. s.producer_counts i + sent (ps i)) params.producers idx h in
            let one : inc_size (s.producer_counts idx) ≡ suc (s.producer_counts idx) =
              omega (arith, fit.0, own, ap sent here) in
            let now_own : update s.producer_counts idx (inc_size (s.producer_counts idx)) idx
                ≡ suc (s.producer_counts idx) =
              update_here s.producer_counts idx (inc_size (s.producer_counts idx)) ∙ one in
            Tally-producer params.producers params.consumers (local_total params) t idx held
              s.produced s.producers_done
              (update s.producer_counts idx (inc_size (s.producer_counts idx)))
              (count_produced i msg at) h (ap is_finished here)
              (update_other s.producer_counts idx (inc_size (s.producer_counts idx)))
              (now_own ∙ ap suc e, k) (omega (arith, now_own, ap owed here))
              (omega (arith, now_own, ap sent here)) (omega arith);
      }

      adds_to_total :
          (i : ℕ) (msg : BenchmarkMessage) (at : ℕ)
          → ps idx ≡ count_produced i msg at
          → Produced (count_produced i msg at)
      unfolding produce
      adds_to_total i msg at here = record {
        pc' = next_message (suc i);
        s' = record s {
          produced = inc_size s.produced;
          send_samples_by_producer =
              update s.send_samples_by_producer idx
                (sample stride msg.seq msg.send_ns at (s.send_samples_by_producer idx));
        };
        held' = held;
        goes = refl;
        holds' = holds;
        stop_same = refl;
        tally' = λ open_still.
            let t = tally open_still in
            let (e, k) = subst (λ z. Stage share z (s.producer_counts idx)) here (t.stage idx h) in
            let fit = sums_fit t in
            let own = le-sum (λ i. owed (ps i)) params.producers idx h in
            let one : inc_size s.produced ≡ suc s.produced =
              omega (arith, fit.1, own, ap owed here, t.own) in
            Tally-producer params.producers params.consumers (local_total params) t idx held
              (inc_size s.produced) s.producers_done s.producer_counts (next_message (suc i)) h
              (ap is_finished here) (λ j n. refl) (e, k) (omega (arith, one, ap owed here))
              (omega (arith, ap sent here)) (omega arith);
      }

      pub produces : (pc : Producer) → ps idx ≡ pc → Produced pc
      unfolding produce
      produces (next_message i) here = elim (Bool-cases s.stop_requested) [
        | inl stop ↦
            goes_to (next_message i) finish s.next_seq s.blocked_send_attempts here (ground arith)
              (λ open_still. absurd (cc (stop, open_still)))
        | inr go ↦ elim (dec_lt i share) [
          | yes more ↦
              goes_to (next_message i) (take_sequence i) s.next_seq s.blocked_send_attempts here
                (ground arith) (λ open_still (e, k). (refl, refl, (e, more), refl, refl))
          | no over ↦
              goes_to (next_message i) finish s.next_seq s.blocked_send_attempts here (ground arith)
                (λ open_still (e, k). (refl, refl, omega arith, refl, refl))
        ]
      ]
      produces (take_sequence i) here =
          goes_to (take_sequence i) _ (inc_size s.next_seq) s.blocked_send_attempts here refl
            (λ open_still k. (refl, refl, k, refl, refl))
      produces (test_stop i msg a) here = elim (Bool-cases s.stop_requested) [
        | inl stop ↦
            goes_to (test_stop i msg a) (test_again i msg) s.next_seq s.blocked_send_attempts here
              (rw stop refl) (λ open_still. absurd (cc (stop, open_still)))
        | inr go ↦
            goes_to (test_stop i msg a) (offer i msg a) s.next_seq s.blocked_send_attempts here
              (rw go refl) (λ open_still k. (refl, refl, k, refl, refl))
      ]
      produces (offer i msg a) here = offers i msg a here
      produces (back_off i msg a) here =
          goes_to (back_off i msg a) (test_stop i msg (inc_size a)) s.next_seq
            (inc_size s.blocked_send_attempts) here refl
            (λ open_still k. (refl, refl, k, refl, refl))
      produces (test_again i msg) here = elim (Bool-cases s.stop_requested) [
        | inl stop ↦
            goes_to (test_again i msg) finish s.next_seq s.blocked_send_attempts here (rw stop refl)
              (λ open_still. absurd (cc (stop, open_still)))
        | inr go ↦
            goes_to (test_again i msg) (count_own i msg now) s.next_seq s.blocked_send_attempts here
              (rw go refl) (λ open_still k. (refl, refl, k, refl, refl))
      ]
      produces (count_own i msg t) here = counts_own i msg t here
      produces (count_produced i msg t) here = adds_to_total i msg t here
      produces finish here = record {
        pc' = finished;
        s' = record s { producers_done = suc s.producers_done };
        held' = held;
        goes = refl;
        holds' = holds;
        stop_same = refl;
        tally' = λ open_still.
            let t = tally open_still in
            Tally-producer params.producers params.consumers (local_total params) t idx held
              s.produced (suc s.producers_done) s.producer_counts finished h (ap is_finished here)
              (λ j k. refl)
              (subst (λ z. Stage share z (s.producer_counts idx)) here (t.stage idx h))
              (omega (arith, ap owed here)) (omega (arith, ap sent here)) (omega arith);
      }
      produces finished here = record {
        pc' = finished;
        s' = s;
        held' = held;
        goes = refl;
        holds' = holds;
        stop_same = refl;
        tally' = λ open_still.
            subst (λ x. Counts params held s x cs) (sym (update_same ps idx finished here))
              (tally open_still);
      }
