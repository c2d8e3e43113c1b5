-- ===== src/Priority/Refine.antt =====
-- lib/min-heap_queue.hpp: the queue against the abstract queue in order of priority.
use mathlib.Core.List.{mem-cons_of_mem, not-mem-nil}
use mathlib.Core.List.Perm
use message_queue_practical.Prelude.{
  ℕ, suc, ◌+◌, ◌^◌, ◌<◌, ◌≡◌, refl, subst, inl, inr, Bool, true, false, List, [], ◌∷◌, Mem,
  queue_error, ok, arith, length, List-cases, split_last-append,
}
use message_queue_practical.Interface.Role.{
  ThreadAccessCategory, DeadlockExceptionPolicy, ThreadRole, Roles,
}
use message_queue_practical.Interface.History.{
  Request, send, try_send, read, try_read, size, empty, close, Reply, run,
}
use message_queue_practical.Interface.Simulation.{
  bare, Simulation, replies, Sticks, IsPlain, Follows, run_simulates,
}
use message_queue_practical.Spec.Bounded.{Bounded, bounded}
use message_queue_practical.Spec.Stable.{by_priority}
use message_queue_practical.Priority.Heap.{HeapNode, HeapAlgorithms, IsStrictWeak}
use message_queue_practical.Priority.Contents.{
  Holds, IsBelow, length-Holds, push-Holds, push-IsBelow, pop-Holds,
}
use message_queue_practical.Priority
use message_queue_practical.Priority.{Priority, Storage, hooks, construct}

pub record IsQuiet {V : Type 0} (storage : Storage V) : Type 0 where
  pub stores : (xs : List (HeapNode V)) (v : V) → storage.push_back_throws xs v ≡ false
  pub moves : (v : V) → storage.move_throws v ≡ false

abbrev pub spec : {V : Type 0} → (V → V → Bool) → Bounded V → Request V → Reply V × Bounded V
spec comp =
    bounded (by_priority comp) (queue_error "Queue is closed")
      (queue_error "Queue is closed and empty")

-- The state `s` holds the abstract queue `q`, between calls, and has sequence numbers for `n` more.
pub record Stands {V : Type 0} (comp : V → V → Bool) (n : ℕ) (s : Priority V) (q : Bounded V)
    : Type 0 where
  pub unlocked : s.locked ≡ false
  pub same_capacity : s.capacity ≡ q.capacity
  pub same_closed : s.closed ≡ q.closed
  pub sized : s.size ≡ length s.heap
  pub room : s.current_seq + n < 2 ^ 64
  pub below : IsBelow s.current_seq s.heap
  pub holds : Holds comp s.heap q.items

module _ {V : Type 0} (policy : DeadlockExceptionPolicy) (category : ThreadAccessCategory)
    (comp : V → V → Bool) (algorithms : HeapAlgorithms V) (storage : Storage V) where
  abbrev Meets : ℕ → Priority V → Bounded V → Request V → Type 0
  Meets n s q r =
      ((bare policy (hooks comp algorithms storage category) s r).0 ≡ (spec comp q r).0)
      × Stands comp n (bare policy (hooks comp algorithms storage category) s r).1 (spec comp q r).1

  module _ (n : ℕ) (s : Priority V) (q : Bounded V) (h : Stands comp (suc n) s q) where
    same_length : length s.heap ≡ length q.items
    same_length = length-Holds comp h.holds

    size-Meets : Meets n s q size
    unfolding bare bounded Priority.size_of
    size-Meets = ground (arith, same_length)

    empty-Meets : Meets n s q empty
    unfolding bare bounded Priority.empty
    empty-Meets = elim (List-cases q.items) [
      | inl e ↦ ground (arith, same_length)
      | inr (v, rest, e) ↦ ground (arith, same_length)
    ]

    close-Meets : Meets n s q close
    unfolding bare bounded Priority.close
    close-Meets = ground arith

    module _ (weak : IsStrictWeak comp) (quiet : IsQuiet storage) where
      abbrev node : V → HeapNode V
      node v = record { sequence_id = s.current_seq; payload = v }

      send-Meets : (v : V) → Meets n s q (send v)
      unfolding bare bounded Priority.sync_and_overflow_prework Priority.store_message
          Priority.send_postwork Priority.check_send_deadlock_possibility
      send-Meets v = ground (
        arith,
        same_length,
        quiet.stores s.heap v,
        push-Holds comp algorithms weak (node v) s.heap q.items h.below h.holds,
        push-IsBelow comp algorithms weak (node v) s.heap q.items h.below h.holds,
      )

      none_held : s.heap ≡ [] → q.items ≡ []
      none_held e = elim (List-cases q.items) [
        | inl f ↦ f
        | inr (v, rest, f) ↦ absurd (ground (arith, same_length))
      ]

      -- What `PopMessage` does to a heap with a first node.
      popped_state :
          (set : IsSet V) (x : HeapNode V) (xs : List (HeapNode V))
          → s.heap ≡ x ∷ xs
          → (ys : List (HeapNode V)) × (rest : List V) × (Priority.pop_message comp algorithms
                storage
                (record s { locked = true })
              ≡ ok x.payload (record s { locked = true; heap = ys; size = length ys }))
            × (q.items ≡ x.payload ∷ rest)
            × Holds comp ys rest
            × IsBelow s.current_seq ys
      unfolding Priority.pop_message
      popped_state set x xs e =
          let (ys, rest, popped, items, holds, same) =
            pop-Holds comp algorithms weak set x xs q.items
              (subst (λ l. Holds comp l q.items) e h.holds) in
          (
            ys,
            rest,
            ground (arith, split_last-append ys x, quiet.moves x.payload),
            items,
            holds,
            λ m k. h.below m (rw e (mem-cons_of_mem x ((Perm.mem_iff same).0 k))),
          )

      read-Meets : (set : IsSet V) → Meets n s q read
      unfolding bare bounded Priority.sync_and_underflow_prework Priority.read_postwork
          Priority.check_read_deadlock_possibility
      read-Meets set = elim (List-cases s.heap) [
        | inl e ↦ ground (arith, none_held e)
        | inr (x, xs, e) ↦
            let (ys, rest, popped, items, holds, below) = popped_state set x xs e in ground arith
      ]

      try_send-Meets : (v : V) → Meets n s q (try_send v)
      unfolding bare bounded Priority.try_sync_and_overflow_prework Priority.store_message
          Priority.send_postwork Priority.check_send_deadlock_possibility
      try_send-Meets v = ground (
        arith,
        same_length,
        quiet.stores s.heap v,
        push-Holds comp algorithms weak (node v) s.heap q.items h.below h.holds,
        push-IsBelow comp algorithms weak (node v) s.heap q.items h.below h.holds,
      )

      try_read-Meets : (set : IsSet V) → Meets n s q try_read
      unfolding bare bounded Priority.try_sync_and_underflow_prework Priority.read_postwork
          Priority.check_read_deadlock_possibility
      try_read-Meets set = elim (List-cases s.heap) [
        | inl e ↦ ground (arith, none_held e)
        | inr (x, xs, e) ↦
            let (ys, rest, popped, items, holds, below) = popped_state set x xs e in ground arith
      ]

  pub priority_simulation :
      IsStrictWeak comp
      → IsQuiet storage
      → IsSet V
      → Simulation policy
          (hooks comp algorithms storage category)
          (Stands comp)
          (spec comp)
          (λ _. Unit {0})
  priority_simulation weak quiet set = record {
    simulates = λ n s q r _ h. elim r as (λ r. Meets n s q r) [
      | send v ↦ send-Meets n s q h weak quiet v
      | try_send v ↦ try_send-Meets n s q h weak quiet v
      | read ↦ read-Meets n s q h weak quiet set
      | try_read ↦ try_read-Meets n s q h weak quiet set
      | size ↦ size-Meets n s q h
      | empty ↦ empty-Meets n s q h
      | close ↦ close-Meets n s q h
    ];
  }

Holds-nil : {V : Type 0} (comp : V → V → Bool) → Holds comp [] []
Holds-nil comp = record {
  is_heap = λ i p x h e f. cc;
  nodes = [];
  sorted = tt;
  perm = Perm.refl [];
  payloads = refl;
}

construct-Stands :
    {V : Type 0} (comp : V → V → Bool) (capacity : ℕ) (s : Priority V) (n : ℕ)
    → n < 2 ^ 64
    → construct capacity ≡ ok s tt
    → Stands comp n s (record { capacity = capacity; items = []; closed = false })
unfolding construct
construct-Stands comp capacity s n few made =
    let empty_heap : s.heap ≡ [] = ground arith in
    record {
      unlocked = ground arith;
      same_capacity = ground arith;
      same_closed = ground arith;
      sized = ground arith;
      room = ground arith;
      below = λ m k. absurd (not-mem-nil (subst (Mem m) empty_heap k));
      holds = rw empty_heap (Holds-nil comp);
    }

-- For any history of fewer than 2^64 calls in which each thread keeps to sending or to reading,
-- on a queue just made, the replies are those of the abstract queue that reads lesser messages
-- first and equal ones in the order of arrival, for every strict weak ordering and every
-- implementation of the heap algorithms. Messages form a set, storing and moving one throws
-- nothing, and the threads have no other role on the queue at the start.
pub priority_history_refines :
    {V : Type 0} (policy : DeadlockExceptionPolicy) (category : ThreadAccessCategory)
    (comp : V → V → Bool) (algorithms : HeapAlgorithms V) (storage : Storage V) (this capacity : ℕ)
    (s : Priority V) (role_of : ℕ → ThreadRole) (tables : ℕ → Roles) (cs : List (ℕ × Request V))
    → IsSet V
    → IsStrictWeak comp
    → IsQuiet storage
    → length cs < 2 ^ 64
    → construct capacity ≡ ok s tt
    → ((t : ℕ) → IsPlain (role_of t))
    → ((t : ℕ) → Sticks this (role_of t) (tables t))
    → Follows role_of (λ _. Unit {0}) cs
    → run policy this
        (hooks comp algorithms storage category)
        (record { tables = tables; queue = s })
        cs
      ≡ replies (spec comp) (record { capacity = capacity; items = []; closed = false }) cs
priority_history_refines policy category comp algorithms storage this capacity s role_of tables cs
      set weak quiet few made plain k f =
    run_simulates policy this (hooks comp algorithms storage category) (Stands comp) (spec comp)
      (λ _. Unit {0}) (priority_simulation policy category comp algorithms storage weak quiet set)
      role_of plain cs _ _ f k (construct-Stands comp capacity s (length cs) few made)
