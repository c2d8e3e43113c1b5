-- ===== src/Deque/Refine.antt =====
-- lib/deque_bounded_message_queue.hpp: the queue against the abstract bounded queue.
use message_queue_practical.Prelude.{
  ℕ, ◌^◌, ◌<◌, ◌≡◌, inl, inr, List-cases, false, List, [], ◌∷◌, queue_error, ok, arith,
  length-append,
}
use message_queue_practical.Interface.Role.{
  ThreadAccessCategory, DeadlockExceptionPolicy, ThreadRole, Roles,
}
use message_queue_practical.Interface.History.{
  Request, send, try_send, read, try_read, size, empty, close, Reply, run,
}
use message_queue_practical.Interface.Simulation.{
  bare, Simulation, replies, Sticks, IsPlain, Follows, run_simulates,
}
use message_queue_practical.Spec.Bounded.{Bounded, bounded, append}
use message_queue_practical.Deque.{Deque, Container, hooks, construct}
use message_queue_practical.Deque
use message_queue_practical.Deque.Inv.{IsValid}

-- The container and the value type throw nothing.
pub record IsQuiet {V : Type 0} (c : Container V) : Type 0 where
  pub stores : (xs : List V) (v : V) → c.push_back_throws xs v ≡ false
  pub moves : (v : V) → c.move_throws v ≡ false

-- The state `s` is valid and holds the abstract queue `q`.
pub record Stands {V : Type 0} (s : Deque V) (q : Bounded V) : Type 0 where
  pub valid : IsValid s
  pub same_capacity : s.capacity ≡ q.capacity
  pub same_items : s.buffer ≡ q.items
  pub same_closed : s.closed ≡ q.closed

abbrev pub spec : {V : Type 0} → Bounded V → Request V → Reply V × Bounded V
spec =
    bounded append (queue_error "send on closed queue") (queue_error "read on closed empty queue")

module _ {V : Type 0} (policy : DeadlockExceptionPolicy) (category : ThreadAccessCategory)
    (c : Container V) where
  -- The call `r` replies as the abstract queue does, and keeps the two together.
  abbrev Meets : Deque V → Bounded V → Request V → Type 0
  Meets s q r =
      ((bare policy (hooks category c) s r).0 ≡ (spec q r).0)
      × Stands (bare policy (hooks category c) s r).1 (spec q r).1

  size-Meets : (s : Deque V) (q : Bounded V) → Stands s q → Meets s q size
  unfolding bare bounded Deque.size
  size-Meets s q h = ground arith

  empty-Meets : (s : Deque V) (q : Bounded V) → Stands s q → Meets s q empty
  unfolding bare bounded Deque.empty
  empty-Meets s q h = elim (List-cases s.buffer) [
    | inl e ↦ ground arith
    | inr (v, rest, e) ↦ ground arith
  ]

  close-Meets : (s : Deque V) (q : Bounded V) → Stands s q → Meets s q close
  unfolding bare bounded Deque.close
  close-Meets s q h = ground arith

  module _ (quiet : IsQuiet c) where
    send-Meets : (v : V) (s : Deque V) (q : Bounded V) → Stands s q → Meets s q (send v)
    unfolding bare bounded Deque.sync_and_overflow_prework Deque.store_message Deque.send_postwork
        Deque.check_send_deadlock_possibility
    send-Meets v s q h = ground (arith, quiet.stores s.buffer v, length-append s.buffer (v ∷ []))

    try_send-Meets : (v : V) (s : Deque V) (q : Bounded V) → Stands s q → Meets s q (try_send v)
    unfolding bare bounded Deque.try_sync_and_overflow_prework Deque.store_message
        Deque.send_postwork Deque.check_send_deadlock_possibility
    try_send-Meets v s q h =
        ground (arith, quiet.stores s.buffer v, length-append s.buffer (v ∷ []))

    read-Meets : (s : Deque V) (q : Bounded V) → Stands s q → Meets s q read
    unfolding bare bounded Deque.sync_and_underflow_prework Deque.pop_message Deque.read_postwork
        Deque.check_read_deadlock_possibility
    read-Meets s q h = elim (List-cases s.buffer) [
      | inl e ↦ ground arith
      | inr (v, rest, e) ↦ ground (arith, quiet.moves v)
    ]

    try_read-Meets : (s : Deque V) (q : Bounded V) → Stands s q → Meets s q try_read
    unfolding bare bounded Deque.try_sync_and_underflow_prework Deque.pop_message
        Deque.read_postwork Deque.check_read_deadlock_possibility
    try_read-Meets s q h = elim (List-cases s.buffer) [
      | inl e ↦ ground arith
      | inr (v, rest, e) ↦ ground (arith, quiet.moves v)
    ]

    pub deque_simulation : Simulation policy (hooks category c) (λ _. Stands) spec (λ _. Unit {0})
    deque_simulation = record {
      simulates = λ _ s q r _ h. elim r as (λ r. Meets s q r) [
        | send v ↦ send-Meets v s q h
        | try_send v ↦ try_send-Meets v s q h
        | read ↦ read-Meets s q h
        | try_read ↦ try_read-Meets s q h
        | size ↦ size-Meets s q h
        | empty ↦ empty-Meets s q h
        | close ↦ close-Meets s q h
      ];
    }

-- For any history in which each thread keeps to sending or to reading, on a queue just made with
-- a capacity below 2^64, the replies are those of the abstract bounded queue of that capacity:
-- messages come out once each and in order, never more than the capacity are held, a full or
-- empty queue blocks or refuses, and after `Close` sends fail while reads drain the rest. The
-- container and the messages throw nothing, and the threads have no other role on the queue at
-- the start.
pub deque_history_refines :
    {V : Type 0} (policy : DeadlockExceptionPolicy) (category : ThreadAccessCategory)
    (c : Container V) (this capacity : ℕ) (s : Deque V) (role_of : ℕ → ThreadRole)
    (tables : ℕ → Roles) (cs : List (ℕ × Request V))
    → IsQuiet c
    → capacity < 2 ^ 64
    → construct capacity ≡ ok s tt
    → ((t : ℕ) → IsPlain (role_of t))
    → ((t : ℕ) → Sticks this (role_of t) (tables t))
    → Follows role_of (λ _. Unit {0}) cs
    → run policy this (hooks category c) (record { tables = tables; queue = s }) cs
      ≡ replies spec (record { capacity = capacity; items = []; closed = false }) cs
unfolding construct
deque_history_refines policy category c this capacity s role_of tables cs quiet small made plain k
      f =
    run_simulates policy this (hooks category c) (λ _. Stands) spec (λ _. Unit {0})
      (deque_simulation policy category c quiet) role_of plain cs _ _ f k (ground arith)
