-- ===== src/Bench/Ending.antt =====
-- bin/benchmark_helpers.hpp: a scenario once its watchdog has requested a stop.
use message_queue_practical.Prelude.{
  ℕ, ◌+◌, ◌-◌, ◌≤◌, ◌<◌, ◌≡◌, refl, sym, ◌∙◌, ap, subst, arith, true, List, [], ◌∷◌, Outcome, ok,
  throws, blocks, faults, dec_lt, ◌==◌, ℕ_discrete, if◌then◌else◌,
}
use message_queue_practical.Interface.History.{update}
use message_queue_practical.Bench.Params.{ScenarioParams}
use message_queue_practical.Bench.Adapter.{Adapter}
use message_queue_practical.Bench.Scenario.{
  Shared, Producer, next_message, take_sequence, test_stop, offer, back_off, test_again, count_own,
  count_produced, finish, finished, Consumer, check_stop, check_done, check_size, check_produced,
  check_delivered, pull, wait, count_delivered, count_read, left, System, Turn, producer_turn,
  consumer_turn, expire, turn, produced_to, consumed_to, produce, consume, consumer_should_stop,
}
use message_queue_practical.Bench.Sums.{update_here, update_other}

-- How many more steps a producer makes at most once a stop is requested.
abbrev pub producer_rank : Producer → ℕ
producer_rank (next_message i) = 2
producer_rank (take_sequence i) = 4
producer_rank (test_stop i msg a) = 3
producer_rank (offer i msg a) = 5
producer_rank (back_off i msg a) = 4
producer_rank (test_again i msg) = 2
producer_rank (count_own i msg t) = 4
producer_rank (count_produced i msg t) = 3
producer_rank finish = 1
producer_rank finished = 0

-- The same of a consumer.
abbrev pub consumer_rank : Consumer → ℕ
consumer_rank (check_stop a) = 1
consumer_rank (check_done a) = 8
consumer_rank (check_size a) = 7
consumer_rank (check_produced a) = 6
consumer_rank (check_delivered a p) = 5
consumer_rank (pull a) = 4
consumer_rank (wait a) = 2
consumer_rank (count_delivered m t) = 3
consumer_rank (count_read m t) = 2
consumer_rank left = 0

module _ {Q W : Type 0} (adapter : Adapter Q) (params : ScenarioParams W) (stride : ℕ) (idx now : ℕ)
    (s : Shared Q) where
  -- A step that goes on leaves the request for a stop, and brings the thread nearer to its end.
  abbrev Lowers : (rank rank' : ℕ) → Shared Q → Type 0
  Lowers rank rank' s' =
      (s'.stop_requested ≡ s.stop_requested) × (s.stop_requested ≡ true → rank' ≤ rank - 1)

  produce-Lowers :
      (pc pc' : Producer) (s' : Shared Q)
      → produce adapter params stride idx now pc s ≡ ok pc' s'
      → Lowers (producer_rank pc) (producer_rank pc') s'
  unfolding produce
  produce-Lowers (next_message i) pc' s' e = ground (arith, e)
  produce-Lowers (take_sequence i) pc' s' e = ground (arith, e)
  produce-Lowers (test_stop i msg a) pc' s' e = ground (arith, e)
  produce-Lowers (offer i msg a) pc' s' e = ground (arith, e)
  produce-Lowers (back_off i msg a) pc' s' e = ground (arith, e)
  produce-Lowers (test_again i msg) pc' s' e = ground (arith, e)
  produce-Lowers (count_own i msg t) pc' s' e = ground (arith, e)
  produce-Lowers (count_produced i msg t) pc' s' e = ground (arith, e)
  produce-Lowers finish pc' s' e = ground (arith, e)
  produce-Lowers finished pc' s' e = ground (arith, e)

  consume-Lowers :
      (pc pc' : Consumer) (s' : Shared Q)
      → consume adapter params stride idx now pc s ≡ ok pc' s'
      → Lowers (consumer_rank pc) (consumer_rank pc') s'
  unfolding consume consumer_should_stop
  consume-Lowers (check_stop a) pc' s' e = ground (arith, e)
  consume-Lowers (check_done a) pc' s' e = ground (arith, e)
  consume-Lowers (check_size a) pc' s' e = ground (arith, e)
  consume-Lowers (check_produced a) pc' s' e = ground (arith, e)
  consume-Lowers (check_delivered a p) pc' s' e = ground (arith, e)
  consume-Lowers (pull a) pc' s' e = ground (arith, e)
  consume-Lowers (wait a) pc' s' e = ground (arith, e)
  consume-Lowers (count_delivered m t) pc' s' e = ground (arith, e)
  consume-Lowers (count_read m t) pc' s' e = ground (arith, e)
  consume-Lowers left pc' s' e = ground (arith, e)

-- The number of turns that `ts` gives to a thread.
abbrev pub producer_turn_of : ℕ → Turn → ℕ
producer_turn_of i (producer_turn idx now) = if idx == i then 1 else 0
producer_turn_of i (consumer_turn idx now) = 0
producer_turn_of i expire = 0

abbrev pub consumer_turn_of : ℕ → Turn → ℕ
consumer_turn_of i (producer_turn idx now) = 0
consumer_turn_of i (consumer_turn idx now) = if idx == i then 1 else 0
consumer_turn_of i expire = 0

abbrev pub turns_of : (Turn → ℕ) → List Turn → ℕ
turns_of f [] = 0
turns_of f (t ∷ ts) = f t + turns_of f ts

module _ {Q W : Type 0} (adapter : Adapter Q) (params : ScenarioParams W) (stride : ℕ) where
  -- From `s` to `s'`, both with a stop requested, a thread is as much nearer to its end as these turns.
  abbrev pub Nearer : (ℕ → ℕ) → (ℕ → ℕ) → System Q → System Q → Type 0
  Nearer ps cs s s' =
      (s'.shared.stop_requested ≡ true)
      × ((i : ℕ)
          → i < params.producers
          → producer_rank (s'.producers i) ≤ producer_rank (s.producers i) - ps i)
      × ((i : ℕ)
          → i < params.consumers
          → consumer_rank (s'.consumers i) ≤ consumer_rank (s.consumers i) - cs i)

  pub after_producer :
      (idx : ℕ) (s s' : System Q) (r : Outcome (Shared Q) Producer)
      → produced_to adapter params stride idx s r ≡ ok tt s'
      → (pc : Producer) × (p : Shared Q) × (r ≡ ok pc p)
        × (s' ≡ record s { shared = p; producers = update s.producers idx pc })
  unfolding produced_to
  after_producer idx s s' (ok pc p) e = (pc, p, refl, cc e)
  after_producer idx s s' (throws x p) e = absurd (ground (arith, e))
  after_producer idx s s' (blocks p) e = absurd (ground (arith, e))
  after_producer idx s s' faults e = absurd (ground (arith, e))

  pub after_consumer :
      (idx : ℕ) (s s' : System Q) (r : Outcome (Shared Q) Consumer)
      → consumed_to adapter params stride idx s r ≡ ok tt s'
      → (pc : Consumer) × (p : Shared Q) × (r ≡ ok pc p)
        × (s' ≡ record s { shared = p; consumers = update s.consumers idx pc })
  unfolding consumed_to
  after_consumer idx s s' (ok pc p) e = (pc, p, refl, cc e)
  after_consumer idx s s' (throws x p) e = absurd (ground (arith, e))
  after_consumer idx s s' (blocks p) e = absurd (ground (arith, e))
  after_consumer idx s s' faults e = absurd (ground (arith, e))

  -- The ranks of a family of threads, one of which has made a step.
  lowered :
      {A : Type 0} (rank : A → ℕ) (f : ℕ → A) (idx i : ℕ) (pc : A)
      → rank pc ≤ rank (f idx) - 1
      → rank (update f idx pc i) ≤ rank (f i) - (if idx == i then 1 else 0)
  lowered rank f idx i pc h = elim (ℕ_discrete idx i) [
    | yes e ↦ ground (
      arith,
      ap rank (update_here f idx pc),
      ap (λ j. rank (update f idx pc j)) e,
      ap (λ j. rank (f j)) e,
    )
    | no n ↦ ground (arith, ap rank (update_other f idx pc i n))
  ]

  pub turn-Nearer :
      (t : Turn) (s s' : System Q)
      → turn adapter params stride t s ≡ ok tt s'
      → s.shared.stop_requested ≡ true
      → Nearer (λ i. producer_turn_of i t) (λ i. consumer_turn_of i t) s s'
  unfolding turn
  turn-Nearer (producer_turn idx now) s s' e stop = elim (dec_lt idx params.producers) [
    | yes h ↦
        let (pc, p, goes, same) =
          after_producer idx s s' (produce adapter params stride idx now (s.producers idx) s.shared)
            (ground (arith, e)) in
        let (still, lower) =
          produce-Lowers adapter params stride idx now s.shared (s.producers idx) pc p goes in
        subst (Nearer _ _ s) (sym same) (
          still ∙ stop,
          λ i k. lowered producer_rank s.producers idx i pc (lower stop),
          λ i k. omega arith,
        )
    | no h ↦
        let same : s' ≡ s = ground (arith, e) in
        subst (Nearer _ _ s) (sym same) (stop, λ i k. ground arith, λ i k. omega arith)
  ]
  turn-Nearer (consumer_turn idx now) s s' e stop = elim (dec_lt idx params.consumers) [
    | yes h ↦
        let (pc, p, goes, same) =
          after_consumer idx s s' (consume adapter params stride idx now (s.consumers idx) s.shared)
            (ground (arith, e)) in
        let (still, lower) =
          consume-Lowers adapter params stride idx now s.shared (s.consumers idx) pc p goes in
        subst (Nearer _ _ s) (sym same) (
          still ∙ stop,
          λ i k. omega arith,
          λ i k. lowered consumer_rank s.consumers idx i pc (lower stop),
        )
    | no h ↦
        let same : s' ≡ s = ground (arith, e) in
        subst (Nearer _ _ s) (sym same) (stop, λ i k. omega arith, λ i k. ground arith)
  ]
  turn-Nearer expire s s' e stop =
      let same : s' ≡ record s { shared = record s.shared { stop_requested = true } } = cc e in
      subst (Nearer _ _ s) (sym same) (refl, λ i k. omega arith, λ i k. omega arith)
