-- ===== src/Bench/Scenario.antt =====
-- bin/benchmark_helpers.hpp: `RunScenario`, its producers and consumers one access to what they share at a
-- time. A call of the queue is one step. When a thread goes on, and what the clock then says, is for
-- the turns to choose: a back-off only lets time pass. The watchdog may expire at any time.
use message_queue_practical.Prelude.{
  ℕ, suc, ◌+◌, ◌-◌, ◌%◌, Bool, true, false, ◌&&◌, none, some, List, [], ◌∷◌, ◌++◌, Outcome, ok,
  throws, blocks, faults, M, ◌>>=◌, ◌>>◌, ltb, leb, ◌==◌, inc_size, if◌then◌else◌,
}
use message_queue_practical.Interface.History.{update}
use message_queue_practical.Bench.Params.{BenchmarkMessage, ScenarioParams, local_total}
use message_queue_practical.Bench.Adapter.{Adapter}

-- What the threads of a scenario share, and the samples that each of them takes.
pub record Shared (Q : Type 0) : Type 0 where
  pub queue : Q
  pub next_seq : ℕ
  pub produced : ℕ
  pub delivered : ℕ
  pub blocked_send_attempts : ℕ
  pub blocked_read_attempts : ℕ
  pub producers_done : ℕ
  pub stop_requested : Bool
  pub producer_counts : ℕ → ℕ
  pub consumer_counts : ℕ → ℕ
  pub send_samples_by_producer : ℕ → List ℕ
  pub read_samples_by_consumer : ℕ → List ℕ

-- Where a producer stands, in its message `i`.
pub data Producer : Type 0 where
  next_message take_sequence : (i : ℕ) → Producer
  test_stop offer back_off : (i : ℕ) → BenchmarkMessage → (send_attempts : ℕ) → Producer
  test_again : (i : ℕ) → BenchmarkMessage → Producer
  count_own count_produced : (i : ℕ) → BenchmarkMessage → (send_end : ℕ) → Producer
  finish finished : Producer

-- Where a consumer stands: in `ConsumerShouldStop`, at its read or after it.
pub data Consumer : Type 0 where
  check_stop check_done check_size check_produced : (read_attempts : ℕ) → Consumer
  check_delivered : (read_attempts produced_count : ℕ) → Consumer
  pull wait : (read_attempts : ℕ) → Consumer
  count_delivered count_read : BenchmarkMessage → (now : ℕ) → Consumer
  left : Consumer

abbrev pub at_least_one : ℕ → ℕ
at_least_one n = if n == 0 then 1 else n

-- A latency, if the message is one to sample and the clock has not gone back.
abbrev pub sample : ℕ → ℕ → ℕ → ℕ → List ℕ → List ℕ
sample stride sequence begun ended samples =
    if (sequence % stride == 0) && leb begun ended
    then samples ++ at_least_one (ended - begun) ∷ []
    else samples

abbrev pub on_queue : {Q A : Type 0} → M Q A → M (Shared Q) A
on_queue m s = elim (m s.queue) [
  | ok a q ↦ ok a (record s { queue = q })
  | throws e q ↦ throws e (record s { queue = q })
  | blocks q ↦ blocks (record s { queue = q })
  | faults ↦ faults
]

module _ {Q W : Type 0} (adapter : Adapter Q) (params : ScenarioParams W) (stride : ℕ) where
  -- One step of the producer `idx`, with the time `now`.
  unfoldable pub produce : ℕ → ℕ → Producer → M (Shared Q) Producer
  unfolding local_total
  produce idx now (next_message i) s =
      ok
        (if ltb i (local_total params idx)
          then if s.stop_requested then finish else take_sequence i
          else finish)
        s
  produce idx now (take_sequence i) s =
      ok (test_stop i (record { seq = s.next_seq; producer_id = idx; send_ns = 0 }) 0)
        (record s { next_seq = inc_size s.next_seq })
  produce idx now (test_stop i msg attempts) s =
      ok (if s.stop_requested then test_again i msg else offer i msg attempts) s
  produce idx now (offer i msg attempts) s =
      let timed = record msg { send_ns = now } in
      (on_queue (adapter.try_send idx timed) >>= λ sent p.
      ok (if sent then test_again i timed else back_off i timed attempts) p)
        s
  produce idx now (back_off i msg attempts) s =
      ok (test_stop i msg (inc_size attempts))
        (record s { blocked_send_attempts = inc_size s.blocked_send_attempts })
  produce idx now (test_again i msg) s =
      ok (if s.stop_requested then finish else count_own i msg now) s
  produce idx now (count_own i msg send_end) s = ok (count_produced i msg send_end) (record s {
    producer_counts = update s.producer_counts idx (inc_size (s.producer_counts idx));
  })
  produce idx now (count_produced i msg send_end) s = ok (next_message (suc i)) (record s {
    produced = inc_size s.produced;
    send_samples_by_producer =
        update s.send_samples_by_producer idx
          (sample stride msg.seq msg.send_ns send_end (s.send_samples_by_producer idx));
  })
  produce idx now finish s = ok finished (record s { producers_done = suc s.producers_done })
  produce idx now finished s = ok finished s

  -- The tests of a consumer, whose calls of the queue come after those of the producers' threads.
  unfoldable pub consumer_should_stop : ℕ → Consumer → M (Shared Q) Consumer
  consumer_should_stop idx (check_stop attempts) s =
      ok (if s.stop_requested then left else check_done attempts) s
  consumer_should_stop idx (check_done attempts) s =
      ok (if s.producers_done == params.producers then check_size attempts else pull attempts) s
  consumer_should_stop idx (check_size attempts) s =
      (on_queue (adapter.size (params.producers + idx)) >>= λ n p.
      ok (if n == 0 then left else check_produced attempts) p)
        s
  consumer_should_stop idx (check_produced attempts) s = ok (check_delivered attempts s.produced) s
  consumer_should_stop idx (check_delivered attempts produced_count) s =
      ok (if ltb 0 produced_count && leb produced_count s.delivered then left else pull attempts) s
  consumer_should_stop idx pc s = ok pc s

  -- One step of the consumer `idx`.
  unfoldable pub consume : ℕ → ℕ → Consumer → M (Shared Q) Consumer
  unfolding consumer_should_stop
  consume idx now (pull attempts) s =
      (on_queue (adapter.try_read (params.producers + idx)) >>= λ message p.
      ok (elim message [ some m ↦ count_delivered m now | none ↦ wait attempts ]) p)
        s
  consume idx now (wait attempts) s =
      ok (check_stop (inc_size attempts))
        (record s { blocked_read_attempts = inc_size s.blocked_read_attempts })
  consume idx now (count_delivered message read_at) s =
      ok (count_read message read_at) (record s { delivered = inc_size s.delivered })
  consume idx now (count_read message read_at) s = ok (check_stop 0) (record s {
    consumer_counts = update s.consumer_counts idx (inc_size (s.consumer_counts idx));
    read_samples_by_consumer =
        update s.read_samples_by_consumer idx
          (sample stride message.seq message.send_ns read_at (s.read_samples_by_consumer idx));
  })
  consume idx now left s = ok left s
  consume idx now pc s = consumer_should_stop idx pc s

pub record System (Q : Type 0) : Type 0 where
  pub shared : Shared Q
  pub producers : ℕ → Producer
  pub consumers : ℕ → Consumer

-- The next step of a thread, or of the watchdog once the time is up.
pub data Turn : Type 0 where
  producer_turn consumer_turn : (idx now : ℕ) → Turn
  expire : Turn

abbrev pub at_start : {Q : Type 0} → Q → System Q
at_start queue = record {
  shared = record {
    queue = queue;
    next_seq = 0;
    produced = 0;
    delivered = 0;
    blocked_send_attempts = 0;
    blocked_read_attempts = 0;
    producers_done = 0;
    stop_requested = false;
    producer_counts = λ i. 0;
    consumer_counts = λ i. 0;
    send_samples_by_producer = λ i. [];
    read_samples_by_consumer = λ i. [];
  };
  producers = λ i. next_message 0;
  consumers = λ i. check_stop 0;
}

module _ {Q W : Type 0} (adapter : Adapter Q) (params : ScenarioParams W) (stride : ℕ) where
  unfoldable pub produced_to :
      ℕ → System Q → Outcome (Shared Q) Producer → Outcome (System Q) (Unit {0})
  produced_to idx s (ok pc p) =
      ok tt (record s { shared = p; producers = update s.producers idx pc })
  produced_to idx s (throws e p) = throws e (record s { shared = p })
  produced_to idx s (blocks p) = blocks (record s { shared = p })
  produced_to idx s faults = faults

  unfoldable pub consumed_to :
      ℕ → System Q → Outcome (Shared Q) Consumer → Outcome (System Q) (Unit {0})
  consumed_to idx s (ok pc p) =
      ok tt (record s { shared = p; consumers = update s.consumers idx pc })
  consumed_to idx s (throws e p) = throws e (record s { shared = p })
  consumed_to idx s (blocks p) = blocks (record s { shared = p })
  consumed_to idx s faults = faults

  -- There are as many threads of each kind as the parameters say.
  unfoldable pub turn : Turn → M (System Q) (Unit {0})
  unfolding produced_to consumed_to
  turn (producer_turn idx now) s =
      if ltb idx params.producers
      then produced_to idx s (produce adapter params stride idx now (s.producers idx) s.shared)
      else ok tt s
  turn (consumer_turn idx now) s =
      if ltb idx params.consumers
      then consumed_to idx s (consume adapter params stride idx now (s.consumers idx) s.shared)
      else ok tt s
  turn expire s = ok tt (record s { shared = record s.shared { stop_requested = true } })

  unfoldable pub interleave : List Turn → M (System Q) (Unit {0})
  interleave [] s = ok tt s
  interleave (t ∷ ts) s = (do turn t; interleave ts) s
