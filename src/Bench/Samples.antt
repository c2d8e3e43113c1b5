-- ===== src/Bench/Samples.antt =====
-- bin/benchmark_helpers.hpp: how many samples a scenario takes.
use message_queue_practical.Prelude.{
  ℕ, suc, ◌-◌, ◌%◌, ◌^◌, ◌≤◌, ◌<◌, ◌≡◌, ◌≢◌, refl, sym, ◌∙◌, ap, subst, arith, Bool-cases, ◌&&◌,
  ◌==◌, leb, inl, inr, List, [], ◌∷◌, ok, length, length-append, if◌then◌else◌, inc_size,
}
use message_queue_practical.Interface.History.{update}
use message_queue_practical.Bench.Params.{BenchmarkMessage, ScenarioParams, local_total}
use message_queue_practical.Bench.Adapter.{Adapter}
use message_queue_practical.Bench.Scenario.{
  Shared, Producer, next_message, take_sequence, test_stop, offer, back_off, test_again, count_own,
  count_produced, finish, finished, Consumer, check_stop, check_done, check_size, check_produced,
  check_delivered, pull, wait, count_delivered, count_read, left, produce, consume,
  consumer_should_stop, sample,
}
use message_queue_practical.Bench.Sums.{update_here, update_other}

-- A producer takes at most one sample for each message that it has sent.
abbrev pub SampleStage : ℕ → ℕ → Producer → Type 0
SampleStage share taken (next_message i) = (taken ≤ i) × (i ≤ share)
SampleStage share taken (take_sequence i) = (taken ≤ i) × (i < share)
SampleStage share taken (test_stop i msg a) = (taken ≤ i) × (i < share)
SampleStage share taken (offer i msg a) = (taken ≤ i) × (i < share)
SampleStage share taken (back_off i msg a) = (taken ≤ i) × (i < share)
SampleStage share taken (test_again i msg) = (taken ≤ i) × (i < share)
SampleStage share taken (count_own i msg t) = (taken ≤ i) × (i < share)
SampleStage share taken (count_produced i msg t) = (taken ≤ i) × (i < share)
SampleStage share taken finish = taken ≤ share
SampleStage share taken finished = taken ≤ share

length-sample :
    (stride seq begun ended : ℕ) (samples : List ℕ)
    → length (sample stride seq begun ended samples) ≤ suc (length samples)
length-sample stride seq begun ended samples =
    elim (Bool-cases ((seq % stride == 0) && leb begun ended)) [
      | inl e ↦ rw e (
          omega
            (arith, length-append samples ((if ended - begun == 0 then 1 else ended - begun) ∷ [])))
      | inr e ↦ rw e (omega arith)
    ]

module _ {Q W : Type 0} (adapter : Adapter Q) (params : ScenarioParams W) (stride idx now : ℕ)
    (s : Shared Q) where
  -- A step of a producer takes no sample, or one more at the end of a message.
  pub produce_samples :
      (pc pc' : Producer) (s' : Shared Q)
      → produce adapter params stride idx now pc s ≡ ok pc' s'
      → SampleStage (local_total params idx) (length (s.send_samples_by_producer idx)) pc
      → SampleStage (local_total params idx) (length (s'.send_samples_by_producer idx)) pc'
        × ((j : ℕ) → idx ≢ j → s'.send_samples_by_producer j ≡ s.send_samples_by_producer j)
        × (s'.read_samples_by_consumer ≡ s.read_samples_by_consumer)
        × (s'.consumer_counts ≡ s.consumer_counts)
        × (s'.stop_requested ≡ s.stop_requested)
  unfolding produce
  produce_samples (next_message i) pc' s' e h = ground (arith, e, h)
  produce_samples (take_sequence i) pc' s' e h = ground (arith, e, h)
  produce_samples (test_stop i msg a) pc' s' e h = ground (arith, e, h)
  produce_samples (offer i msg a) pc' s' e h = ground (arith, e, h)
  produce_samples (back_off i msg a) pc' s' e h = ground (arith, e, h)
  produce_samples (test_again i msg) pc' s' e h = ground (arith, e, h)
  produce_samples (count_own i msg t) pc' s' e h = ground (arith, e, h)
  produce_samples (count_produced i msg t) pc' s' e h =
      let more = sample stride msg.seq msg.send_ns t (s.send_samples_by_producer idx) in
      let few = length-sample stride msg.seq msg.send_ns t (s.send_samples_by_producer idx) in
      let here = ap length (update_here s.send_samples_by_producer idx more) in
      let others = update_other s.send_samples_by_producer idx more in
      let at_next : pc' ≡ next_message (suc i) = cc e in
      let sends : s'.send_samples_by_producer ≡ update s.send_samples_by_producer idx more = cc e in
      let reads : s'.read_samples_by_consumer ≡ s.read_samples_by_consumer = cc e in
      let stage : SampleStage (local_total params idx) (length (s'.send_samples_by_producer idx))
          (next_message (suc i)) =
        (omega (arith, ap (λ f. length (f idx)) sends, here, few, h), omega (arith, h)) in
      (
        subst (SampleStage (local_total params idx) (length (s'.send_samples_by_producer idx)))
            (sym at_next) stage,
        λ j n. ap (λ f. f j) sends ∙ others j n,
        reads,
        cc e,
        cc e,
      )
  produce_samples finish pc' s' e h = ground (arith, e, h)
  produce_samples finished pc' s' e h = ground (arith, e, h)

  -- A step of a consumer takes no sample, or one with the message that it counts.
  pub consume_samples :
      (pc pc' : Consumer) (s' : Shared Q)
      → consume adapter params stride idx now pc s ≡ ok pc' s'
      → ((m : BenchmarkMessage) (t : ℕ)
          → pc ≡ count_read m t
          → suc (s.consumer_counts idx) < 2 ^ 64)
      → length (s.read_samples_by_consumer idx) ≤ s.consumer_counts idx
      → (length (s'.read_samples_by_consumer idx) ≤ s'.consumer_counts idx)
        × ((j : ℕ)
            → idx ≢ j
            → (s'.read_samples_by_consumer j ≡ s.read_samples_by_consumer j)
              × (s'.consumer_counts j ≡ s.consumer_counts j))
  unfolding consume consumer_should_stop
  consume_samples (check_stop a) pc' s' e k h = ground (arith, e, h)
  consume_samples (check_done a) pc' s' e k h = ground (arith, e, h)
  consume_samples (check_size a) pc' s' e k h = ground (arith, e, h)
  consume_samples (check_produced a) pc' s' e k h = ground (arith, e, h)
  consume_samples (check_delivered a p) pc' s' e k h = ground (arith, e, h)
  consume_samples (pull a) pc' s' e k h = ground (arith, e, h)
  consume_samples (wait a) pc' s' e k h = ground (arith, e, h)
  consume_samples (count_delivered m t) pc' s' e k h = ground (arith, e, h)
  consume_samples (count_read m t) pc' s' e k h =
      let more = sample stride m.seq m.send_ns t (s.read_samples_by_consumer idx) in
      let few = length-sample stride m.seq m.send_ns t (s.read_samples_by_consumer idx) in
      let here = ap length (update_here s.read_samples_by_consumer idx more) in
      let count = inc_size (s.consumer_counts idx) in
      let reads : s'.read_samples_by_consumer ≡ update s.read_samples_by_consumer idx more = cc e in
      let counts : s'.consumer_counts ≡ update s.consumer_counts idx count = cc e in
      let counted = update_here s.consumer_counts idx count in
      (
        omega (
          arith,
          ap (λ f. length (f idx)) reads,
          ap (λ f. f idx) counts,
          here,
          counted,
          few,
          h,
          k m t refl,
        ),
        λ j n. (
          ap (λ f. f j) reads ∙ update_other s.read_samples_by_consumer idx more j n,
          ap (λ f. f j) counts ∙ update_other s.consumer_counts idx count j n,
        ),
      )
  consume_samples left pc' s' e k h = ground (arith, e, h)

  -- What a step of a consumer leaves alone.
  pub consume_keeps :
      (pc pc' : Consumer) (s' : Shared Q)
      → consume adapter params stride idx now pc s ≡ ok pc' s'
      → (s'.send_samples_by_producer ≡ s.send_samples_by_producer)
        × (s'.stop_requested ≡ s.stop_requested)
  unfolding consume consumer_should_stop
  consume_keeps (check_stop a) pc' s' e = ground (arith, e)
  consume_keeps (check_done a) pc' s' e = ground (arith, e)
  consume_keeps (check_size a) pc' s' e = ground (arith, e)
  consume_keeps (check_produced a) pc' s' e = ground (arith, e)
  consume_keeps (check_delivered a p) pc' s' e = ground (arith, e)
  consume_keeps (pull a) pc' s' e = ground (arith, e)
  consume_keeps (wait a) pc' s' e = ground (arith, e)
  consume_keeps (count_delivered m t) pc' s' e = ground (arith, e)
  consume_keeps (count_read m t) pc' s' e = ground (arith, e)
  consume_keeps left pc' s' e = ground (arith, e)
