-- ===== src/Priority/Safety.antt =====
-- lib/min-heap_queue.hpp: what every call keeps, whatever `push_back` throws.
use message_queue_practical.Prelude.{
  ℕ, suc, ◌≤◌, ◌≡◌, ◌≢◌, ◌∙◌, refl, sym, subst, inl, inr, List-cases, List, [], ◌∷◌, ◌++◌, arith,
  true, ok, throws, queue_error, ◌==◌, length, length-append, false, Bool, split_last-append,
}
use message_queue_practical.Interface.Role.{
  ThreadAccessCategory, DeadlockExceptionPolicy, producer, consumer, is_both_role, Roles,
}
use message_queue_practical.Interface.History.{
  Request, send, try_send, read, try_read, size, empty, close, undefined, perform, Reply, value,
  raised,
}
use message_queue_practical.Interface.Call
use message_queue_practical.Interface.Call.{Object}
use message_queue_practical.Interface.Policy.{accounts}
use message_queue_practical.Priority.Heap.{HeapNode, HeapAlgorithms, IsStrictWeak, IsHeap, later}
use message_queue_practical.Priority.Order.{later-IsStrictWeak}
use message_queue_practical.Priority.Contents.{length-perm}
use message_queue_practical.Priority
use message_queue_practical.Priority.{Priority, Storage, hooks}

-- Between calls: the mutex is free, the size is that of the heap and within the capacity, and the heap
-- is in order.
pub record IsSound {V : Type 0} (comp : V → V → Bool) (q : Priority V) : Type 0 where
  pub unlocked : q.locked ≡ false
  pub counted : q.size ≡ length q.heap
  pub bounded_by : length q.heap ≤ q.capacity
  pub heap_order : IsHeap (later comp) q.heap

module _ {V : Type 0} (policy : DeadlockExceptionPolicy) (this : ℕ)
    (category : ThreadAccessCategory) (comp : V → V → Bool) (algorithms : HeapAlgorithms V)
    (storage : Storage V) (o : Object (Priority V)) (weak : IsStrictWeak comp)
    (moves : (v : V) → storage.move_throws v ≡ false) (h : IsSound comp o.queue) where
  abbrev Safe : Request V → Type 0
  Safe r =
      ((perform policy this (hooks comp algorithms storage category) o r).0 ≢ undefined)
      × IsSound comp (perform policy this (hooks comp algorithms storage category) o r).1.queue

  pushed :
      (node : HeapNode V)
      → IsHeap (later comp) (algorithms.push_heap (later comp) (o.queue.heap ++ node ∷ []))
        × (length (algorithms.push_heap (later comp) (o.queue.heap ++ node ∷ []))
            ≡ suc (length o.queue.heap))
  pushed node =
      let (order, perm) =
        algorithms.push_heap_lem (later comp) o.queue.heap node (later-IsStrictWeak weak)
          h.heap_order in
      (order, length-perm perm ∙ length-append o.queue.heap (node ∷ []) ∙ omega arith)

  Safe-size : Safe size
  unfolding perform Priority.size_of
  Safe-size = ((λ e. absurd (cc e)), h)

  Safe-empty : Safe empty
  unfolding perform Priority.empty
  Safe-empty = ((λ e. absurd (cc e)), h)

  Safe-close : Safe close
  unfolding perform Priority.close
  Safe-close = ground (arith, h.unlocked, h.counted, h.bounded_by, h.heap_order)

  Safe-send : (v : V) → Safe (send v)
  unfolding perform Priority.sync_and_overflow_prework Priority.store_message Priority.send_postwork
      Priority.check_send_deadlock_possibility Call.check_send
  Safe-send v =
      let (roles, e) = accounts this producer o policy in
      let (order, long) = pushed (record { sequence_id = o.queue.current_seq; payload = v }) in
      ground (arith, order, long)

  Safe-try_send : (v : V) → Safe (try_send v)
  unfolding perform Priority.try_sync_and_overflow_prework Priority.store_message
      Priority.send_postwork Priority.check_send_deadlock_possibility Call.check_send
  Safe-try_send v =
      let (roles, e) = accounts this producer o policy in
      let (order, long) = pushed (record { sequence_id = o.queue.current_seq; payload = v }) in
      ground (arith, order, long)

  popped :
      (x : HeapNode V) (xs : List (HeapNode V))
      → o.queue.heap ≡ x ∷ xs
      → (ys : List (HeapNode V)) × (algorithms.pop_heap (later comp) (x ∷ xs) ≡ ys ++ x ∷ [])
        × IsHeap (later comp) ys
        × (length ys ≡ length xs)
  popped x xs e =
      let (ys, f, order, perm) =
        algorithms.pop_heap_lem (later comp) x xs (later-IsStrictWeak weak)
          (subst (λ l. IsHeap (later comp) l) e h.heap_order) in
      (ys, f, order, length-perm perm)

  -- The locked queue gives its first node.
  pops :
      (x : HeapNode V) (xs ys : List (HeapNode V))
      → o.queue.heap ≡ x ∷ xs
      → algorithms.pop_heap (later comp) (x ∷ xs) ≡ ys ++ x ∷ []
      → Priority.pop_message comp algorithms storage (record o.queue { locked = true })
        ≡ ok x.payload (record o.queue { locked = true; heap = ys; size = length ys })
  unfolding Priority.pop_message
  pops x xs ys f g = ground (arith, moves x.payload, split_last-append ys x)

  abbrev rest : List (HeapNode V) → Priority V
  rest ys = record o.queue { locked = false; heap = ys; size = length ys }

  rest-IsSound :
      (x : HeapNode V) (xs ys : List (HeapNode V))
      → o.queue.heap ≡ x ∷ xs
      → IsHeap (later comp) ys
      → length ys ≡ length xs
      → IsSound comp (rest ys)
  rest-IsSound x xs ys f order long = record {
    unlocked = refl;
    counted = refl;
    bounded_by = ground (arith, h.bounded_by);
    heap_order = order;
  }

  -- A read of a heap with a first node sees no deadlock, and needs not wait.
  no_deadlock :
      (b : Bool)
      → (o.queue.size == 0) ≡ false
      → Priority.check_read_deadlock_possibility category b o.queue ≡ ok false o.queue
  unfolding Priority.check_read_deadlock_possibility
  no_deadlock b e = ground arith

  enters :
      (o.queue.size == 0) ≡ false
      → Priority.sync_and_underflow_prework o.queue ≡ ok tt (record o.queue { locked = true })
  unfolding Priority.sync_and_underflow_prework
  enters e = ground (arith, h.unlocked)

  -- What a call of the priority queue gives.
  abbrev calls : Request V → Reply V × Object (Priority V)
  calls = perform policy this (hooks comp algorithms storage category) o

  Safe-gives :
      (r : Request V) (reply : Reply V) (o' : Object (Priority V))
      → calls r ≡ (reply, o')
      → reply ≢ undefined
      → IsSound comp o'.queue
      → Safe r
  Safe-gives r reply o' e n sound =
      subst (λ (x : Reply V × Object (Priority V)). (x.0 ≢ undefined) × IsSound comp x.1.queue)
        (sym e) (n, sound)

  read_gives :
      (x : HeapNode V) (ys : List (HeapNode V)) (roles : Roles)
      → (o.queue.size == 0) ≡ false
      → Priority.pop_message comp algorithms storage (record o.queue { locked = true })
        ≡ ok x.payload (record o.queue { locked = true; heap = ys; size = length ys })
      → Call.account_threads policy this consumer o ≡ ok tt (record o { roles = roles })
      → calls read ≡ (value x.payload, record { roles = roles; queue = rest ys })
  unfolding perform Priority.read_postwork Call.check_read
  read_gives x ys roles some_held g a =
      ground (arith, a, no_deadlock (is_both_role this roles) some_held, enters some_held, g)

  read_refused :
      (roles : Roles)
      → Call.account_threads policy this consumer o
        ≡ throws (queue_error "Thread role is changed") (record o { roles = roles })
      → calls read ≡ (raised (queue_error "Thread role is changed"), record o { roles = roles })
  unfolding perform
  read_refused roles a = ground (arith, a)

  Safe-read_first :
      (x : HeapNode V) (xs ys : List (HeapNode V))
      → o.queue.heap ≡ x ∷ xs
      → Priority.pop_message comp algorithms storage (record o.queue { locked = true })
        ≡ ok x.payload (record o.queue { locked = true; heap = ys; size = length ys })
      → IsSound comp (rest ys)
      → Safe read
  Safe-read_first x xs ys f g sound =
      let (roles, e) = accounts this consumer o policy in
      let some_held : (o.queue.size == 0) ≡ false = ground (arith, h.counted) in
      elim e [
        | inl a ↦
            Safe-gives read _ _ (read_gives x ys roles some_held g a) (λ z. absurd (cc z)) sound
        | inr a ↦ Safe-gives read _ _ (read_refused roles a) (λ z. absurd (cc z)) h
      ]

  Safe-read : Safe read
  unfolding perform Priority.sync_and_underflow_prework Priority.check_read_deadlock_possibility
      Call.check_read
  Safe-read = elim (List-cases o.queue.heap) [
    | inl f ↦ let (roles, e) = accounts this consumer o policy in ground (arith, h.heap_order)
    | inr (x, xs, f) ↦
        let (ys, g, order, long) = popped x xs f in
        Safe-read_first x xs ys f (pops x xs ys f g) (rest-IsSound x xs ys f order long)
  ]

  Safe-try_read : Safe try_read
  unfolding perform Priority.try_sync_and_underflow_prework Priority.pop_message
      Priority.read_postwork Priority.check_read_deadlock_possibility Call.check_read
  Safe-try_read =
      let (roles, e) = accounts this consumer o policy in
      elim (List-cases o.queue.heap) [
        | inl f ↦ ground (arith, h.heap_order)
        | inr (x, xs, f) ↦
            let (ys, g, order, long) = popped x xs f in
            ground (arith, order, moves x.payload, split_last-append ys x)
      ]

  -- Whatever `push_back` throws, and whatever role the thread has, a call on a sound priority queue
  -- does nothing undefined and leaves it sound: the mutex is released, the size is that of the heap, no
  -- more than the capacity are held, and the heap is in order. `Compare` is a strict weak ordering, and
  -- moving a message out of the heap does not throw.
  pub perform-IsSound :
      (r : Request V)
      → ((perform policy this (hooks comp algorithms storage category) o r).0 ≢ undefined)
        × IsSound comp (perform policy this (hooks comp algorithms storage category) o r).1.queue
  perform-IsSound (send v) = Safe-send v
  perform-IsSound (try_send v) = Safe-try_send v
  perform-IsSound read = Safe-read
  perform-IsSound try_read = Safe-try_read
  perform-IsSound size = Safe-size
  perform-IsSound empty = Safe-empty
  perform-IsSound close = Safe-close
