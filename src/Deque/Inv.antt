-- ===== src/Deque/Inv.antt =====
-- lib/deque_bounded_message_queue.hpp: the counters against the buffer, at each point of a call.
use message_queue_practical.Prelude.{◌+◌, ◌^◌, ◌<◌, ◌≡◌, false, length}
use message_queue_practical.Deque.{Deque}

-- Between calls: the mutex is free, and the counters say how much of the buffer is in use.
pub record IsValid {V : Type 0} (q : Deque V) : Type 0 where
  pub unlocked : q.locked ≡ false
  pub counted : q.used ≡ length q.buffer
  pub room : q.free + q.used ≡ q.capacity
  pub small : q.capacity < 2 ^ 64
