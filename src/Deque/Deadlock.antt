-- ===== src/Deque/Deadlock.antt =====
-- lib/deque_bounded_message_queue.hpp: calls on a full or empty queue of a thread that both sends
-- and reads, where no other thread could make room or fill it.
use message_queue_practical.Prelude.{
  false, ℕ, ◌≡◌, refl, true, some, ok, queue_error, arith, length, ap,
}
use message_queue_practical.Interface.Role.{
  ThreadAccessCategory, has_single_consumer, has_single_producer, on_deadlock, producer, consumer,
  both, assign, is_both_role, same_role, ThreadRole,
}
use message_queue_practical.Interface.Role.Laws.{get_thread_role-assign}
use message_queue_practical.Interface.Call
use message_queue_practical.Interface.Call.{Object, account_threads}
use message_queue_practical.Interface.Policy.{accounts_change}
use message_queue_practical.Interface.History.{
  send, try_send, read, try_read, raised, flag, option, perform,
}
use message_queue_practical.Prelude.{none}
use message_queue_practical.Deque
use message_queue_practical.Deque.{Deque, Container, hooks}
use message_queue_practical.Deque.Inv.{IsValid}

module _ {V : Type 0} (this : ℕ) (category : ThreadAccessCategory) (c : Container V)
    (o : Object (Deque V)) (h : IsValid o.queue) (has_both : o.roles this ≡ some both) where
  abbrev after : Object (Deque V)
  after = record o { roles = assign this both o.roles }

  still_both : is_both_role this after.roles ≡ true
  unfolding is_both_role
  still_both = ap (λ r. same_role r both) (get_thread_role-assign this both o.roles)

  accounted :
      (r : ThreadRole)
      → same_role both r ≡ false
      → account_threads on_deadlock this r o ≡ ok tt after
  accounted r e = accounts_change this r o both (λ f. absurd (cc f)) has_both e

  -- A thread has both roles on a valid bounded deque that is full and has a single consumer, under
  -- the policy that throws on a deadlock: `Send` throws and `TrySend` reports false, and both
  -- leave the queue as it was and the thread with both roles.
  pub full_deadlock :
      (v : V)
      → has_single_consumer category ≡ true
      → length o.queue.buffer ≡ o.queue.capacity
      → (perform on_deadlock this (hooks category c) o (send v)
          ≡ (raised (queue_error "Deadlock detected"), after))
        × (perform on_deadlock this (hooks category c) o (try_send v) ≡ (flag false, after))
  unfolding perform Call.check_send Deque.check_send_deadlock_possibility
  full_deadlock v single full = ground (arith, still_both, accounted producer refl)

  -- A thread has both roles on a valid bounded deque that is empty and has a single producer,
  -- under the policy that throws on a deadlock: `Read` throws and `TryRead` returns nothing, and
  -- both leave the queue as it was and the thread with both roles.
  pub empty_deadlock :
      has_single_producer category ≡ true
      → length o.queue.buffer ≡ 0
      → (perform on_deadlock this (hooks category c) o read
          ≡ (raised (queue_error "Deadlock detected"), after))
        × (perform on_deadlock this (hooks category c) o try_read ≡ (option none, after))
  unfolding perform Call.check_read Deque.check_read_deadlock_possibility
  empty_deadlock single no_items = ground (arith, still_both, accounted consumer refl)
