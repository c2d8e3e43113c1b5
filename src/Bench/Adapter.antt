-- ===== src/Bench/Adapter.antt =====
-- bin/benchmark_helpers.hpp: `IMessageQueueAdapter`. A call also takes the thread that makes it, which the
-- interface asks for its roles.
use message_queue_practical.Prelude.{
  ℕ, Bool, Option, none, some, Outcome, ok, throws, blocks, faults, M,
}
use message_queue_practical.Interface.Role.{DeadlockExceptionPolicy}
use message_queue_practical.Interface.Call.{Hooks}
use message_queue_practical.Interface.History.{
  try_send, try_read, size, Reply, waits, flag, option, number, raised, World, step,
}
use message_queue_practical.Bench.Params.{BenchmarkMessage}

-- What a scenario uses of an adapter.
pub record Adapter (Q : Type 0) : Type 0 where
  pub try_send : ℕ → BenchmarkMessage → M Q Bool
  pub try_read : ℕ → M Q (Option BenchmarkMessage)
  pub size : ℕ → M Q ℕ
  pub cas_retries : Q → ℕ

-- The functions that a queue may have beside the interface.
pub record Extras (S : Type 0) : Type 0 where
  pub try_enqueue : Option (BenchmarkMessage → M S Bool)
  pub try_dequeue : Option (M S (Option BenchmarkMessage))
  pub stats_cas_retries : Option (S → ℕ)

module _ {S : Type 0} where
  -- An action on the queue alone.
  abbrev pub beside : {A : Type 0} → M S A → M (World S) A
  beside m w = elim (m w.queue) [
    | ok a s ↦ ok a (record w { queue = s })
    | throws e s ↦ throws e (record w { queue = s })
    | blocks s ↦ blocks (record w { queue = s })
    | faults ↦ faults
  ]

  unfoldable pub as_flag : Reply BenchmarkMessage × World S → Outcome (World S) Bool
  as_flag (flag b, w) = ok b w
  as_flag (raised e, w) = throws e w
  as_flag (waits, w) = blocks w
  as_flag _ = faults

  unfoldable pub as_option :
      Reply BenchmarkMessage × World S → Outcome (World S) (Option BenchmarkMessage)
  as_option (option o, w) = ok o w
  as_option (raised e, w) = throws e w
  as_option (waits, w) = blocks w
  as_option _ = faults

  unfoldable pub as_number : Reply BenchmarkMessage × World S → Outcome (World S) ℕ
  as_number (number n, w) = ok n w
  as_number (raised e, w) = throws e w
  as_number (waits, w) = blocks w
  as_number _ = faults

  module _ (policy : DeadlockExceptionPolicy) (this : ℕ) (hooks : Hooks S BenchmarkMessage) where
    unfoldable pub send_by :
        Option (BenchmarkMessage → M S Bool) → ℕ → BenchmarkMessage → M (World S) Bool
    unfolding as_flag
    send_by (some enqueue) t message w = beside (enqueue message) w
    send_by none t message w = as_flag (step policy this hooks w t (try_send message))

    unfoldable pub read_by :
        Option (M S (Option BenchmarkMessage)) → ℕ → M (World S) (Option BenchmarkMessage)
    unfolding as_option
    read_by (some dequeue) t w = beside dequeue w
    read_by none t w = as_option (step policy this hooks w t try_read)

    unfoldable pub size_by : ℕ → M (World S) ℕ
    unfolding as_number
    size_by t w = as_number (step policy this hooks w t size)

    retries_by : Option (S → ℕ) → World S → ℕ
    retries_by (some stats) w = stats w.queue
    retries_by none w = 0

    -- `if constexpr` on what the queue has.
    unfoldable pub adapter : Extras S → Adapter (World S)
    unfolding send_by read_by size_by retries_by
    adapter extras = record {
      try_send = send_by extras.try_enqueue;
      try_read = read_by extras.try_dequeue;
      size = size_by;
      cas_retries = retries_by extras.stats_cas_retries;
    }
