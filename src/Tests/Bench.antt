-- ===== src/Tests/Bench.antt =====
-- Runs of a load scenario on the bounded deque of capacity 2: three messages, two producers and a consumer.
use message_queue_practical.Prelude.{
  ℕ, zero, suc, ◌<◌, ◌≤◌, ◌≡◌, refl, arith, Bool, true, false, List, [], ◌∷◌, ◌++◌, Outcome, ok,
  throws, blocks, faults, none, inl, inr, ◌⊎◌, subst, sym,
}
use message_queue_practical.Interface.Role.{
  multiple_producer_single_consumer, no_exception, get_thread_role,
}
use message_queue_practical.Interface.History.{World, step, perform}
use message_queue_practical.Interface.Call
use message_queue_practical.Interface.Call.{
  account_threads, check_read, check_send, handle_deadlock,
}
use message_queue_practical.Deque
use message_queue_practical.Deque.{Deque, Container}
use message_queue_practical.Deque.Refine.{Stands}
use message_queue_practical.Bench.Params.{BenchmarkMessage, ScenarioParams, balanced, local_total}
use message_queue_practical.Bench.Adapter.{
  Adapter, adapter, as_flag, as_number, as_option, send_by, read_by, size_by,
}
use message_queue_practical.Bench.Scenario.{
  Shared, turn, produce, consume, consumer_should_stop, produced_to, consumed_to, System, Turn,
  producer_turn, consumer_turn, expire, at_start, interleave, finished, left,
}
use message_queue_practical.Bench.Sums.{sum}
use message_queue_practical.Bench.Lossless.{IsLossless, IsFifo, Counted, IsFifo-IsLossless}
use message_queue_practical.Bench.OnBounded.{no_extras, HoldsOpen}
use message_queue_practical.Bench.OnDeque.{deque_adapter-IsFifo, construct-HoldsOpen}
use message_queue_practical.Bench.Delivery.{scenario_delivers_all}
use message_queue_practical.Bench.Report.{complete_report}
use message_queue_practical.Bench.Metrics.{ScenarioMetrics, gather}
use message_queue_practical.Tests.Metrics.{hundredths, hundredths-IsIeee, inserting}
use message_queue_practical.Bench.Stopping.{scenario_stops}
use message_queue_practical.Bench.Ending.{turns_of, producer_turn_of, consumer_turn_of}

abbrev three_messages : ScenarioParams ℕ
three_messages = record {
  capacity = 2;
  producers = 2;
  consumers = 1;
  hw_threads = 4;
  total_messages = 3;
  profile = balanced;
  scenario_timeout_sec = 120;
  thread_ratio = 50;
  no_backoff = true;
}

abbrev calm_messages : Container BenchmarkMessage
calm_messages = record { push_back_throws = λ _ _. false; move_throws = λ _. false }

abbrev empty_world : World (Deque BenchmarkMessage)
empty_world = record {
  tables = λ t p. none;
  queue = record { locked = false; capacity = 2; free = 2; used = 0; buffer = []; closed = false };
}

abbrev deque_adapter : Adapter (World (Deque BenchmarkMessage))
deque_adapter =
    adapter no_exception 9 (Deque.hooks multiple_producer_single_consumer calm_messages) no_extras

abbrev turns : ℕ → Turn → List Turn
turns zero t = []
turns (suc n) t = t ∷ turns n t

-- The first producer fills the queue, so that the second one is refused; then both go on while the
-- consumer reads, to its end.
abbrev schedule : List Turn
schedule =
    turns 17 (producer_turn 0 10)
    ++ turns 5 (producer_turn 1 20)
    ++ turns 6 (consumer_turn 0 30)
    ++ turns 9 (producer_turn 1 40)
    ++ turns 2 (producer_turn 0 50)
    ++ turns 24 (consumer_turn 0 60)

abbrev system_after :
    Outcome (System (World (Deque BenchmarkMessage))) (Unit {0})
    → System (World (Deque BenchmarkMessage))
system_after (ok x s) = s
system_after (throws e s) = s
system_after (blocks s) = s
system_after faults = at_start empty_world

abbrev goes_on : Outcome (System (World (Deque BenchmarkMessage))) (Unit {0}) → Bool
goes_on (ok x s) = true
goes_on _ = false

goes_on-ok :
    (r : Outcome (System (World (Deque BenchmarkMessage))) (Unit {0}))
    → goes_on r ≡ true
    → r ≡ ok tt (system_after r)
goes_on-ok (ok x s) e = refl
goes_on-ok (throws x s) e = absurd (ground (arith, e))
goes_on-ok (blocks s) e = absurd (ground (arith, e))
goes_on-ok faults e = absurd (ground (arith, e))

abbrev outcome : Outcome (System (World (Deque BenchmarkMessage))) (Unit {0})
outcome = interleave deque_adapter three_messages 1 schedule (at_start empty_world)

abbrev final : System (World (Deque BenchmarkMessage))
final = system_after outcome

-- The schedule takes every thread to its end.
all_end :
    (goes_on outcome ≡ true)
    × (final.producers 0 ≡ finished)
    × (final.producers 1 ≡ finished)
    × (final.consumers 0 ≡ left)
    × (final.shared.stop_requested ≡ false)
    × (final.shared.blocked_send_attempts ≡ 1)
unfolding interleave turn produce consume consumer_should_stop adapter step account_threads
    check_read check_send Deque.check_read_deadlock_possibility Deque.try_sync_and_underflow_prework
    Deque.check_send_deadlock_possibility Deque.try_sync_and_overflow_prework Deque.store_message
    Deque.send_postwork Deque.pop_message Deque.read_postwork Deque.size as_flag as_number as_option
    read_by send_by size_by local_total consumed_to produced_to handle_deadlock perform
    Call.try_read Call.try_send get_thread_role
all_end = (refl, refl, refl, refl, refl, refl)

abbrev HoldsMessages : World (Deque BenchmarkMessage) → List BenchmarkMessage → Type 0
HoldsMessages =
    HoldsOpen no_exception 9 2 2 (Deque.hooks multiple_producer_single_consumer calm_messages)
      Stands

abbrev HoldsHere : World (Deque BenchmarkMessage) → ℕ → Type 0
HoldsHere = Counted HoldsMessages

lossless : IsLossless deque_adapter 2 HoldsHere
lossless = IsFifo-IsLossless deque_adapter 2 2 HoldsMessages (
    deque_adapter-IsFifo no_exception multiple_producer_single_consumer calm_messages 9 2 2
      (record { stores = λ _ _. refl; moves = λ _. refl }))

below_two : (i : ℕ) → i < 2 → (i ≡ 0) ⊎ (i ≡ 1)
below_two i h = ground (arith, h)

deque_adapter-IsFifo_example : IsFifo deque_adapter 2 2 HoldsMessages
deque_adapter-IsFifo_example =
    deque_adapter-IsFifo no_exception multiple_producer_single_consumer calm_messages 9 2 2
      (record { stores = λ _ _. refl; moves = λ _. refl })

messages-start : HoldsMessages empty_world []
unfolding Deque.construct get_thread_role
messages-start =
    construct-HoldsOpen no_exception multiple_producer_single_consumer calm_messages 9 2 2
      empty_world.queue empty_world.tables (omega arith) refl (λ t. inl refl)

HoldsHere-start : HoldsHere empty_world 0
HoldsHere-start = ([], messages-start, refl)

producers_end : (i : ℕ) → i < 2 → final.producers i ≡ finished
producers_end i h = elim (below_two i h) [
  | inl e ↦ subst (λ j. final.producers j ≡ finished) (sym e) all_end.1
  | inr e ↦ subst (λ j. final.producers j ≡ finished) (sym e) all_end.2
]

consumers_end : (i : ℕ) → i < 1 → final.consumers i ≡ left
consumers_end i h = subst (λ j. final.consumers j ≡ left) (omega (arith, h)) all_end.3

scenario_delivers_all_example :
    (final.shared.produced ≡ 3)
    × (final.shared.delivered ≡ 3)
    × (sum final.shared.producer_counts 2 ≡ 3)
    × (sum final.shared.consumer_counts 1 ≡ 3)
    × HoldsHere final.shared.queue 0
scenario_delivers_all_example =
    scenario_delivers_all deque_adapter three_messages 1 HoldsHere empty_world schedule final
      lossless HoldsHere-start (omega arith) (omega arith) (omega arith)
      (goes_on-ok outcome all_end.0) producers_end consumers_end all_end.4

scenario_stops_example :
    (s : System (World (Deque BenchmarkMessage))) × (interleave deque_adapter three_messages 1
        (turns 7 (producer_turn 0 10) ++ expire ∷ turns 5 (producer_turn 0 20))
        (at_start empty_world)
      ≡ ok tt s)
    × ((i : ℕ)
        → i < 2
        → 5 ≤ turns_of (producer_turn_of i) (turns 5 (producer_turn 0 20))
        → s.producers i ≡ finished)
    × ((i : ℕ)
        → i < 1
        → 8 ≤ turns_of (consumer_turn_of i) (turns 5 (producer_turn 0 20))
        → s.consumers i ≡ left)
scenario_stops_example =
    scenario_stops deque_adapter three_messages 1 HoldsHere empty_world
      (turns 7 (producer_turn 0 10)) (turns 5 (producer_turn 0 20)) lossless HoldsHere-start
      (omega arith) (omega arith)

complete_report_example :
    (m : ScenarioMetrics ℕ) × (s' : Shared (World (Deque BenchmarkMessage))) × (gather hundredths
        inserting deque_adapter three_messages 500 final.shared
      ≡ ok m s')
    × (m.produced ≡ 3)
    × (m.delivered ≡ 3)
    × (m.lost ≡ 0)
    × (m.seq_gaps ≡ 0)
    × (m.queue_size_at_end ≡ 0)
    × (m.timed_out ≡ false)
complete_report_example =
    complete_report hundredths inserting deque_adapter three_messages 1 HoldsHere empty_world
      schedule final 500 lossless hundredths-IsIeee HoldsHere-start (omega arith) (omega arith)
      (omega arith) (goes_on-ok outcome all_end.0) producers_end consumers_end all_end.4
