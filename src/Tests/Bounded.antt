-- ===== src/Tests/Bounded.antt =====
-- Runs of the bounded deque and the heap queue of capacity 2.
use native.Mathlib.Nat.{ℕ_set}
use message_queue_practical.Prelude.{
  ℕ, ◌≡◌, ◌≢◌, refl, true, some, false, [], ◌∷◌, arith, ltb, queue_error,
}
use message_queue_practical.Interface.Role.{
  single_producer_single_consumer, multiple_producer_multiple_consumer, on_thread_role_change,
  no_exception, both,
}
use message_queue_practical.Interface.History.{
  returned, flag, value, raised, run, undefined, perform, send,
}
use message_queue_practical.Interface.Simulation.{replies}
use message_queue_practical.Interface.Call
use message_queue_practical.Spec.Bounded.{bounded}
use message_queue_practical.Spec.Stable
use message_queue_practical.Deque
use message_queue_practical.Deque.{Container}
use message_queue_practical.Deque.Refine as DequeRefine
use message_queue_practical.Priority
use message_queue_practical.Priority.{Storage}
use message_queue_practical.Priority.Heap.{IsStrictWeak, IsHeap, later}
use message_queue_practical.Priority.Safety.{IsSound, perform-IsSound}
use message_queue_practical.Interface.Call.{Object}
use message_queue_practical.Priority.Order.{later-IsStrictWeak}
use message_queue_practical.Priority.Sorting.{by_sorting}
use message_queue_practical.Priority.Refine as PriorityRefine
use message_queue_practical.Tests.Common.{
  role_of, role_of-IsPlain, fresh, fresh-Sticks, closing_calls,
}

abbrev calm : Container ℕ
calm = record { push_back_throws = λ _ _. false; move_throws = λ _. false }

abbrev new_deque : Deque.Deque ℕ
new_deque = record { locked = false; capacity = 2; free = 2; used = 0; buffer = []; closed = false }

deque_history_refines_example :
    run on_thread_role_change 9
      (Deque.hooks multiple_producer_multiple_consumer calm)
      (record { tables = fresh; queue = new_deque })
      closing_calls
    ≡ replies DequeRefine.spec (record { capacity = 2; items = []; closed = false }) closing_calls
unfolding Deque.construct
deque_history_refines_example =
    DequeRefine.deque_history_refines on_thread_role_change multiple_producer_multiple_consumer calm
      9 2 new_deque role_of fresh closing_calls (record { stores = λ _ _. refl; moves = λ _. refl })
      (omega arith) refl role_of-IsPlain (fresh-Sticks 9) (ground arith)

abbrev calm_storage : Storage ℕ
calm_storage = record { push_back_throws = λ _ _. false; move_throws = λ _. false }

abbrev new_heap : Priority.Priority ℕ
new_heap = record {
  locked = false;
  capacity = 2;
  size = 0;
  closed = false;
  current_seq = 0;
  heap = [];
}

ltb-IsStrictWeak : IsStrictWeak ltb
ltb-IsStrictWeak = record {
  asymmetric = λ x y h. ground arith;
  negatively_transitive = λ x y z h k. ground arith;
}

priority_history_refines_example :
    run on_thread_role_change 9
      (Priority.hooks ltb by_sorting calm_storage single_producer_single_consumer)
      (record { tables = fresh; queue = new_heap })
      closing_calls
    ≡ replies
        (PriorityRefine.spec ltb)
        (record { capacity = 2; items = []; closed = false })
        closing_calls
unfolding Priority.construct
priority_history_refines_example =
    PriorityRefine.priority_history_refines on_thread_role_change single_producer_single_consumer
      ltb by_sorting calm_storage 9 2 new_heap role_of fresh closing_calls ℕ_set ltb-IsStrictWeak
      (record { stores = λ _ _. refl; moves = λ _. refl }) (omega arith) refl role_of-IsPlain
      (fresh-Sticks 9) (ground arith)

-- The bounded deque reads in the order of arrival, and drains after the close.
deque_replies :
    run on_thread_role_change 9
      (Deque.hooks multiple_producer_multiple_consumer calm)
      (record { tables = fresh; queue = new_deque })
      closing_calls
    ≡ returned
      ∷ returned
      ∷ returned
      ∷ raised (queue_error "send on closed queue")
      ∷ flag false
      ∷ value 7
      ∷ value 5
      ∷ raised (queue_error "read on closed empty queue")
      ∷ []
unfolding run Call.account_threads Call.check_send Deque.check_send_deadlock_possibility
    Deque.sync_and_overflow_prework Deque.store_message Deque.send_postwork Deque.close
    Deque.try_sync_and_overflow_prework Call.check_read Deque.check_read_deadlock_possibility
    Deque.sync_and_underflow_prework Deque.pop_message Deque.read_postwork
deque_replies = refl

-- The abstract priority queue reads the lesser message first.
priority_replies :
    replies
      (PriorityRefine.spec ltb)
      (record { capacity = 2; items = []; closed = false })
      closing_calls
    ≡ returned
      ∷ returned
      ∷ returned
      ∷ raised (queue_error "Queue is closed")
      ∷ flag false
      ∷ value 5
      ∷ value 7
      ∷ raised (queue_error "Queue is closed and empty")
      ∷ []
unfolding replies bounded Stable.by_priority
priority_replies = refl

later-IsStrictWeak_example : IsStrictWeak (later ltb)
later-IsStrictWeak_example = later-IsStrictWeak ltb-IsStrictWeak

-- Storage that runs out, and a thread with both roles.
abbrev short_storage : Storage ℕ
short_storage = record { push_back_throws = λ xs v. true; move_throws = λ _. false }

abbrev both_roles : Object (Priority.Priority ℕ)
both_roles = record { roles = λ p. some both; queue = new_heap }

no_entries : IsHeap (later ltb) []
no_entries i p x h e f = absurd (cc e)

perform-IsSound_example :
    ((perform no_exception 9
        (Priority.hooks ltb by_sorting short_storage single_producer_single_consumer)
        both_roles
        (send 4)).0
      ≢ undefined)
    × IsSound ltb
        (perform no_exception 9
          (Priority.hooks ltb by_sorting short_storage single_producer_single_consumer)
          both_roles
          (send 4)).1.queue
perform-IsSound_example =
    perform-IsSound no_exception 9 single_producer_single_consumer ltb by_sorting short_storage
      both_roles ltb-IsStrictWeak (λ v. refl)
      (record {
        unlocked = refl;
        counted = refl;
        bounded_by = omega arith;
        heap_order = no_entries;
      })
      (send 4)
