-- ===== src/Priority.antt =====
-- lib/min-heap_queue.hpp: `PriorityMessageQueue`. As in the bounded deque one mutex is held from the
-- prework of a call to its postwork, and a `wait` is one test of its predicate.
pub mod Heap
pub mod Order
pub mod Contents
pub mod Refine
pub mod Safety
pub mod Sorting
use message_queue_practical.Prelude.{
  ℕ, ◌+◌, ◌%◌, ◌^◌, Bool, true, false, not, ◌&&◌, ◌||◌, Option, none, some, List, [], ◌∷◌, ◌++◌,
  queue_error, foreign, Outcome, ok, throws, blocks, faults, M, ◌>>=◌, ◌>>◌, pure, done, modify,
  gets, ltb, leb, ◌==◌, length, split_last, if◌then◌else◌, when◌then◌else◌,
}
use message_queue_practical.Interface.Role.{
  ThreadAccessCategory, has_single_consumer, has_single_producer,
}
use message_queue_practical.Interface.Call.{Hooks}
use Heap.{HeapNode, HeapAlgorithms, later}

-- When copying a message into the heap, or moving it out, throws.
pub record Storage (V : Type 0) : Type 0 where
  pub push_back_throws : List (HeapNode V) → V → Bool
  pub move_throws : V → Bool

pub record Priority (V : Type 0) : Type 0 where
  pub locked : Bool
  pub capacity : ℕ
  pub size : ℕ
  pub closed : Bool
  pub current_seq : ℕ
  pub heap : List (HeapNode V)

module _ {V : Type 0} where
  -- The constructor. `reserve` changes no contents.
  unfoldable pub construct : ℕ → Outcome (Unit {0}) (Priority V)
  construct capacity =
      if capacity == 0
      then throws (queue_error "Capacity must be greater than zero") tt
      else ok
          (record {
            locked = false;
            capacity = capacity;
            size = 0;
            closed = false;
            current_seq = 0;
            heap = [];
          })
          tt

  unfoldable pub lock : M (Priority V) (Unit {0})
  lock q = (when q.locked then blocks else modify (λ p. record p { locked = true })) q

  abbrev pub unlocked : Priority V → Priority V
  unlocked q = record q { locked = false }

  unfoldable pub unlock : M (Priority V) (Unit {0})
  unlock = modify unlocked

  unfoldable pub wait : (Priority V → Bool) → M (Priority V) (Unit {0})
  wait ready q = (when ready q then done else (λ p. blocks (unlocked p))) q

  -- The message counts of Size() and Empty() are read without the mutex.
  unfoldable pub size_of : M (Priority V) ℕ
  size_of = gets (λ q. q.size)

  unfoldable pub empty : M (Priority V) Bool
  empty = gets (λ q. q.size == 0)

  unfoldable pub close : M (Priority V) (Unit {0})
  unfolding lock unlock
  close = do lock; modify (λ q. record q { closed = true }); unlock

  unfoldable pub check_send_deadlock_possibility : ThreadAccessCategory → Bool → M (Priority V) Bool
  check_send_deadlock_possibility category is_both q =
      ok (has_single_consumer category && (is_both && leb q.capacity q.size)) q

  unfoldable pub check_read_deadlock_possibility : ThreadAccessCategory → Bool → M (Priority V) Bool
  check_read_deadlock_possibility category is_both q =
      ok (has_single_producer category && (is_both && q.size == 0)) q

  unfoldable pub refuse_closed : M (Priority V) (Unit {0})
  refuse_closed q =
      (when q.closed then (λ p. throws (queue_error "Queue is closed") (unlocked p)) else done) q

  unfoldable pub refuse_drained : M (Priority V) (Unit {0})
  refuse_drained q =
      (when q.size == 0 && q.closed
          then (λ p. throws (queue_error "Queue is closed and empty") (unlocked p))
          else done)
        q

  -- `lock.release()` leaves the mutex locked.
  unfoldable pub sync_and_overflow_prework : M (Priority V) (Unit {0})
  unfolding lock wait refuse_closed
  sync_and_overflow_prework = do lock; wait (λ q. ltb q.size q.capacity || q.closed); refuse_closed

  unfoldable pub try_sync_and_overflow_prework : M (Priority V) Bool
  unfolding lock unlock
  try_sync_and_overflow_prework = do
    lock
    refused ← gets (λ q. leb q.capacity q.size || q.closed)
    when refused then (do unlock; pure false) else pure true

  -- `current_seq_++` on a `uint64_t`
  abbrev pub next_seq : Priority V → ℕ
  next_seq q = (q.current_seq + 1) % 2 ^ 64

  unfoldable pub sync_and_underflow_prework : M (Priority V) (Unit {0})
  unfolding lock wait refuse_drained
  sync_and_underflow_prework = do lock; wait (λ q. ltb 0 q.size || q.closed); refuse_drained

  unfoldable pub try_sync_and_underflow_prework : M (Priority V) Bool
  unfolding lock unlock
  try_sync_and_underflow_prework = do
    lock
    none_held ← gets (λ q. q.size == 0)
    when none_held then (do unlock; pure false) else pure true

  unfoldable pub send_postwork : M (Priority V) (Unit {0})
  unfolding unlock
  send_postwork = unlock

  unfoldable pub read_postwork : M (Priority V) (Unit {0})
  unfolding unlock
  read_postwork = unlock

module _ {V : Type 0} (comp : V → V → Bool) (algorithms : HeapAlgorithms V)
    (storage : Storage V) where
  open algorithms use {push_heap, pop_heap}

  push_node : HeapNode V → Priority V → Priority V
  push_node node q =
      let heap = push_heap (later comp) (q.heap ++ node ∷ []) in
      record q { heap = heap; size = length heap }

  -- The sequence number is taken before `push_back` can throw.
  unfoldable pub store_message : V → M (Priority V) (Unit {0})
  unfolding push_node
  store_message message q =
      (when storage.push_back_throws q.heap message
          then (λ p. throws foreign (unlocked (record p { current_seq = next_seq p })))
          else modify (λ p.
            push_node (record { sequence_id = p.current_seq; payload = message })
              (record p { current_seq = next_seq p })))
        q

  -- `heap_.back()` and `pop_back()`, after `pop_heap`.
  take_back : Option (List (HeapNode V) × HeapNode V) → M (Priority V) V
  take_back none q = faults
  take_back (some (rest, node)) q =
      (when storage.move_throws node.payload
          then (λ p. throws foreign (unlocked (record p { heap = rest ++ node ∷ [] })))
          else (λ p. ok node.payload (record p { heap = rest; size = length rest })))
        q

  -- `pop_heap` and `back` of an empty heap are undefined.
  pop_node : List (HeapNode V) → M (Priority V) V
  unfolding take_back
  pop_node [] q = faults
  pop_node (x ∷ xs) q = take_back (split_last (pop_heap (later comp) (x ∷ xs))) q

  unfoldable pub pop_message : M (Priority V) V
  unfolding pop_node
  pop_message q = pop_node q.heap q

  abbrev pub hooks : ThreadAccessCategory → Hooks (Priority V) V
  hooks category = record {
    check_send_deadlock_possibility = check_send_deadlock_possibility category;
    sync_and_overflow_prework = sync_and_overflow_prework;
    try_sync_and_overflow_prework = try_sync_and_overflow_prework;
    store_message = store_message;
    send_postwork = send_postwork;
    check_read_deadlock_possibility = check_read_deadlock_possibility category;
    sync_and_underflow_prework = sync_and_underflow_prework;
    try_sync_and_underflow_prework = try_sync_and_underflow_prework;
    pop_message = pop_message;
    read_postwork = read_postwork;
    size = size_of;
    empty = empty;
    close = close;
  }
