-- ===== src/Deque.antt =====
-- lib/deque_bounded_message_queue.hpp: `DequeBoundedMessageQueue`. One mutex guards all fields and
-- is held from the prework of a call to its postwork. A `wait` on a condition variable is one test
-- of its predicate: where it fails, the call blocks with the mutex released, and is made again later.
pub mod Inv
pub mod Refine
pub mod Safety
pub mod Deadlock
use message_queue_practical.Prelude.{
  ℕ, ◌-◌, Bool, true, false, not, ◌&&◌, ◌||◌, List, [], ◌∷◌, ◌++◌, queue_error, foreign, Outcome,
  ok, throws, blocks, faults, M, ◌>>=◌, ◌>>◌, pure, done, modify, gets, ltb, ◌==◌, length, inc_size,
  dec_size, if◌then◌else◌, when◌then◌else◌,
}
use message_queue_practical.Interface.Role.{
  ThreadAccessCategory, has_single_consumer, has_single_producer,
}
use message_queue_practical.Interface.Call.{Hooks}

-- `Container` and the value type: when `push_back` and the move out of `front` throw.
pub record Container (V : Type 0) : Type 0 where
  pub push_back_throws : List V → V → Bool
  pub move_throws : V → Bool

pub record Deque (V : Type 0) : Type 0 where
  pub locked : Bool
  pub capacity : ℕ
  pub free : ℕ
  pub used : ℕ
  pub buffer : List V
  pub closed : Bool

module _ {V : Type 0} where
  -- The constructor.
  unfoldable pub construct : ℕ → Outcome (Unit {0}) (Deque V)
  construct capacity =
      if capacity == 0
      then throws (queue_error "DequeBoundedMessageQueue: capacity must be >= 1") tt
      else ok
          (record {
            locked = false;
            capacity = capacity;
            free = capacity;
            used = 0;
            buffer = [];
            closed = false;
          })
          tt

  unfoldable pub lock : M (Deque V) (Unit {0})
  lock q = (when q.locked then blocks else modify (λ p. record p { locked = true })) q

  abbrev pub unlocked : Deque V → Deque V
  unlocked q = record q { locked = false }

  unfoldable pub unlock : M (Deque V) (Unit {0})
  unlock = modify unlocked

  -- `cv.wait(lock, pred)`
  unfoldable pub wait : (Deque V → Bool) → M (Deque V) (Unit {0})
  wait ready q = (when ready q then done else (λ p. blocks (unlocked p))) q

  -- An exception that leaves the scope of the `unique_lock` releases the mutex.
  unfoldable pub refuse_closed : M (Deque V) (Unit {0})
  refuse_closed q =
      (when q.closed then (λ p. throws (queue_error "send on closed queue") (unlocked p)) else done)
        q

  unfoldable pub refuse_unused : M (Deque V) (Unit {0})
  refuse_unused q =
      (when q.used == 0
          then (λ p. throws (queue_error "read on closed empty queue") (unlocked p))
          else done)
        q

  -- Size(), Empty() and Close().
  unfoldable pub size : M (Deque V) ℕ
  unfolding lock unlock
  size = do lock; n ← gets (λ q. length q.buffer); unlock; pure n

  unfoldable pub empty : M (Deque V) Bool
  unfolding lock unlock
  empty = do lock; n ← gets (λ q. length q.buffer); unlock; pure (n == 0)

  unfoldable pub close : M (Deque V) (Unit {0})
  unfolding lock unlock
  close = do lock; modify (λ q. record q { closed = true }); unlock

  unfoldable pub check_send_deadlock_possibility : ThreadAccessCategory → Bool → M (Deque V) Bool
  unfolding lock unlock
  check_send_deadlock_possibility category is_both =
      when has_single_consumer category
      then (when not is_both
          then pure false
          else (do lock; full ← gets (λ q. q.free == 0); unlock; pure full))
      else pure false

  unfoldable pub check_read_deadlock_possibility : ThreadAccessCategory → Bool → M (Deque V) Bool
  unfolding lock unlock
  check_read_deadlock_possibility category is_both =
      when has_single_producer category
      then (when not is_both
          then pure false
          else (do lock; none_used ← gets (λ q. q.used == 0); unlock; pure none_used))
      else pure false

  unfoldable pub sync_and_overflow_prework : M (Deque V) (Unit {0})
  unfolding lock refuse_closed wait
  sync_and_overflow_prework = do
    lock
    refuse_closed
    wait (λ q. q.closed || ltb 0 q.free)
    refuse_closed
    modify (λ q. record q { free = dec_size q.free })

  unfoldable pub try_sync_and_overflow_prework : M (Deque V) Bool
  unfolding lock unlock
  try_sync_and_overflow_prework = do
    lock
    refused ← gets (λ q. q.closed || q.free == 0)
    when refused
        then (do unlock; pure false)
        else (do modify (λ q. record q { free = dec_size q.free }); pure true)

  unfoldable pub store_message : Container V → V → M (Deque V) (Unit {0})
  store_message c message q =
      (when c.push_back_throws q.buffer message
          then (λ p. throws foreign (unlocked (record p { free = inc_size p.free })))
          else modify (λ p. record p { buffer = p.buffer ++ message ∷ [] }))
        q

  unfoldable pub send_postwork : M (Deque V) (Unit {0})
  unfolding unlock
  send_postwork = do modify (λ q. record q { used = inc_size q.used }); unlock

  unfoldable pub sync_and_underflow_prework : M (Deque V) (Unit {0})
  unfolding lock wait refuse_unused
  sync_and_underflow_prework = do
    lock
    wait (λ q. (q.closed && q.used == 0) || ltb 0 q.used)
    refuse_unused
    modify (λ q. record q { used = dec_size q.used })

  unfoldable pub try_sync_and_underflow_prework : M (Deque V) Bool
  unfolding lock unlock
  try_sync_and_underflow_prework = do
    lock
    none_used ← gets (λ q. q.used == 0)
    when none_used
        then (do unlock; pure false)
        else (do modify (λ q. record q { used = dec_size q.used }); pure true)

  -- `front` of an empty buffer is undefined.
  pop_front : Container V → List V → M (Deque V) V
  pop_front c [] q = faults
  pop_front c (message ∷ rest) q =
      (when c.move_throws message
          then (λ p. throws foreign (unlocked (record p { used = inc_size p.used })))
          else (λ p. ok message (record p { buffer = rest })))
        q

  unfoldable pub pop_message : Container V → M (Deque V) V
  unfolding pop_front
  pop_message c q = pop_front c q.buffer q

  unfoldable pub read_postwork : M (Deque V) (Unit {0})
  unfolding unlock
  read_postwork = do modify (λ q. record q { free = inc_size q.free }); unlock

  abbrev pub hooks : ThreadAccessCategory → Container V → Hooks (Deque V) V
  hooks category c = record {
    check_send_deadlock_possibility = check_send_deadlock_possibility category;
    sync_and_overflow_prework = sync_and_overflow_prework;
    try_sync_and_overflow_prework = try_sync_and_overflow_prework;
    store_message = store_message c;
    send_postwork = send_postwork;
    check_read_deadlock_possibility = check_read_deadlock_possibility category;
    sync_and_underflow_prework = sync_and_underflow_prework;
    try_sync_and_underflow_prework = try_sync_and_underflow_prework;
    pop_message = pop_message c;
    read_postwork = read_postwork;
    size = size;
    empty = empty;
    close = close;
  }
