-- ===== src/Deque/Safety.antt =====
-- lib/deque_bounded_message_queue.hpp: what every call keeps, whatever throws, and how a call of a
-- thread that both sends and reads fails.
use message_queue_practical.Prelude.{ℕ, ◌≢◌}
use message_queue_practical.Interface.Role.{ThreadAccessCategory, DeadlockExceptionPolicy}
use message_queue_practical.Interface.History.{Request, undefined, perform}
use message_queue_practical.Interface.Call
use message_queue_practical.Interface.Call.{Object}
use message_queue_practical.Deque.{Deque, Container, hooks, construct}
use message_queue_practical.Deque
use message_queue_practical.Deque.Inv.{IsValid}

module _ {V : Type 0} (policy : DeadlockExceptionPolicy) (this : ℕ)
    (category : ThreadAccessCategory) (c : Container V) (o : Object (Deque V))
    (h : IsValid o.queue) where
  abbrev Safe : Request V → Type 0
  Safe r =
      ((perform policy this (hooks category c) o r).0 ≢ undefined)
      × IsValid (perform policy this (hooks category c) o r).1.queue
