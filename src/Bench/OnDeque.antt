-- ===== src/Bench/OnDeque.antt =====
-- bin/benchmark_helpers.hpp and bin/benchmark.cpp: the adapter of the bounded deque.
use message_queue_practical.Prelude.{ℕ, ◌^◌, ◌<◌, ◌≡◌, arith, [], queue_error, ok}
use message_queue_practical.Interface.Role.{ThreadAccessCategory, DeadlockExceptionPolicy, Roles}
use message_queue_practical.Interface.Simulation.{Sticks}
use message_queue_practical.Deque.{Deque, Container, hooks, construct}
use message_queue_practical.Deque.Refine.{IsQuiet, Stands, deque_simulation}
use message_queue_practical.Bench.Params.{BenchmarkMessage}
use message_queue_practical.Bench.Adapter.{adapter}
use message_queue_practical.Bench.Lossless.{IsFifo}
use message_queue_practical.Bench.OnBounded.{no_extras, role_in, HoldsOpen, adapter-IsFifo}

-- The bounded deque behind its adapter is a queue of its capacity, in each category and under each
-- policy: a try to send puts the message last and reports so exactly if there is room, and keeps
-- the contents otherwise; a try to read takes out and returns the first message, or nothing exactly if there is
-- none; and the size is the number of messages. The container and the messages throw nothing, the queue is
-- open, and each thread only sends or only reads.
pub deque_adapter-IsFifo :
    (policy : DeadlockExceptionPolicy) (category : ThreadAccessCategory)
    (c : Container BenchmarkMessage) (this producers capacity : ℕ)
    → IsQuiet c
    → IsFifo
        (adapter policy this (hooks category c) no_extras)
        producers
        capacity
        (HoldsOpen policy this producers capacity (hooks category c) Stands)
deque_adapter-IsFifo policy category c this producers capacity quiet =
    adapter-IsFifo policy this producers capacity (hooks category c) Stands
      (queue_error "send on closed queue") (queue_error "read on closed empty queue")
      (deque_simulation policy category c quiet)

-- A deque just made is open and empty.
pub construct-HoldsOpen :
    (policy : DeadlockExceptionPolicy) (category : ThreadAccessCategory)
    (c : Container BenchmarkMessage) (this producers capacity : ℕ) (s : Deque BenchmarkMessage)
    (tables : ℕ → Roles)
    → capacity < 2 ^ 64
    → construct capacity ≡ ok s tt
    → ((t : ℕ) → Sticks this (role_in producers t) (tables t))
    → HoldsOpen policy this producers capacity
        (hooks category c)
        Stands
        (record { tables = tables; queue = s })
        []
unfolding construct
construct-HoldsOpen policy category c this producers capacity s tables small made sticks = record {
  sticks = sticks;
  stands = ground (arith, made);
}
