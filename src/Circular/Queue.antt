-- ===== src/Circular/Queue.antt =====
-- lib/circular/circular_message_queue.hpp: `ICircularMessageQueue`, over any `CircularQueueSync`.
-- The two guards are the entries of the calling thread for this queue in `SendGuardsByThread` and
-- `ReadGuardsByThread`. `spurious` is how often each weak compare-exchange of a call fails with the
-- head unchanged before it is decided.
use message_queue_practical.Prelude.{
  ℕ, zero, suc, ◌%◌, Bool, true, false, not, Option, none, some, List, [], M, ok, faults, ◌>>=◌,
  ◌>>◌, pure, gets, modify, zoom, ltb, leb, ◌==◌, get_elem?, set, replicate, inc_size, dec_size,
  if◌then◌else◌, when◌then◌else◌,
}
use message_queue_practical.Interface.Role.{ThreadAccessCategory, has_single_producer}
use message_queue_practical.Circular.Sync.Ops.{SyncOps}

-- `head_atomic_` is written `head`. Of the two tails the category chooses one.
pub record Circular (Sync SendGuard ReadGuard V : Type 0) : Type 0 where
  pub sync : Sync
  pub buffer : List V
  pub capacity : ℕ
  pub tail : ℕ
  pub head : ℕ
  pub tail_atomic : ℕ
  pub count : ℕ
  pub send_guard : Option SendGuard
  pub read_guard : Option ReadGuard

-- The value type: its default value, and what a move leaves behind.
pub record Values (V : Type 0) : Type 0 where
  pub default : V
  pub moved_from : V → V

module _ {Sync SendGuard ReadGuard V : Type 0} (ops : SyncOps Sync SendGuard ReadGuard)
    (category : ThreadAccessCategory) (values : Values V) (spurious : ℕ) where
  open ops use {
    acquire_read_operation, try_acquire_read_operation, enter_synced, leave_synced, move_send,
    destroy_send, cancel_send, send_reserved_index, move_read, destroy_read, cancel_read,
    read_reserved_index,
  }

  abbrev pub Queue : Type 0
  Queue = Circular Sync SendGuard ReadGuard V

  abbrev pub on_sync : {A : Type 0} → M Sync A → M Queue A
  on_sync = zoom (λ q. q.sync) (λ s q. record q { sync = s })

  -- The constructor.
  unfoldable pub construct : Sync → ℕ → Queue
  construct sync capacity = record {
    sync = sync;
    buffer = replicate capacity values.default;
    capacity = capacity;
    tail = 0;
    head = 0;
    tail_atomic = 0;
    count = 0;
    send_guard = none;
    read_guard = none;
  }

  -- `TailIndex` and `SetTailIndex`.
  abbrev pub tail_index : Queue → ℕ
  tail_index q = if has_single_producer category then q.tail else q.tail_atomic

  abbrev pub set_tail_index : ℕ → Queue → Queue
  set_tail_index i q =
      if has_single_producer category then record q { tail = i } else record q { tail_atomic = i }

  abbrev pub is_full : Queue → Bool
  is_full q = leb q.capacity q.count

  abbrev pub is_empty : Queue → Bool
  is_empty q = q.count == 0

  -- `guard.reset()`
  reset_send : Option SendGuard → M Queue (Unit {0})
  reset_send none q = ok tt q
  reset_send (some g) q =
      (do on_sync (destroy_send g); modify (λ p. record p { send_guard = none })) q

  reset_read : Option ReadGuard → M Queue (Unit {0})
  reset_read none q = ok tt q
  reset_read (some g) q =
      (do on_sync (destroy_read g); modify (λ p. record p { read_guard = none })) q

  unfoldable pub complete_send_operation : M Queue (Unit {0})
  unfolding reset_send
  complete_send_operation q = reset_send q.send_guard q

  unfoldable pub complete_read_operation : M Queue (Unit {0})
  unfolding reset_read
  complete_read_operation q = reset_read q.read_guard q

  -- `guard.emplace(g)` from a temporary: what the entry held is destroyed, the entry is made from
  -- `g` by a move, and what is left of `g` is destroyed.
  unfoldable pub emplace_send : SendGuard → M Queue (Unit {0})
  unfolding complete_send_operation
  emplace_send g = do
    complete_send_operation
    modify (λ q. record q { send_guard = some (move_send g).0 })
    on_sync (destroy_send (move_send g).1)

  unfoldable pub emplace_read : ReadGuard → M Queue (Unit {0})
  unfolding complete_read_operation
  emplace_read g = do
    complete_read_operation
    modify (λ q. record q { read_guard = some (move_read g).0 })
    on_sync (destroy_read (move_read g).1)

  -- `guard->Cancel()` before the reset.
  mark_send : Option SendGuard → Option SendGuard
  mark_send none = none
  mark_send (some g) = some (cancel_send g)

  mark_read : Option ReadGuard → Option ReadGuard
  mark_read none = none
  mark_read (some g) = some (cancel_read g)

  unfoldable pub cancel_send_operation : M Queue (Unit {0})
  unfolding mark_send complete_send_operation
  cancel_send_operation = do
    modify (λ q. record q { send_guard = mark_send q.send_guard })
    complete_send_operation

  unfoldable pub cancel_read_operation : M Queue (Unit {0})
  unfolding mark_read complete_read_operation
  cancel_read_operation = do
    modify (λ q. record q { read_guard = mark_read q.read_guard })
    complete_read_operation

  unfoldable pub acquire_read : M Queue (Unit {0})
  unfolding emplace_read
  acquire_read = do g ← on_sync acquire_read_operation; emplace_read g

  enter_read : Option ReadGuard → M Queue Bool
  unfolding emplace_read
  enter_read none = pure false
  enter_read (some g) = do emplace_read g; pure true

  unfoldable pub try_acquire_read : M Queue Bool
  unfolding enter_read
  try_acquire_read = do g ← on_sync try_acquire_read_operation; enter_read g

  -- `std::move(buffer_[i])`; an access out of range is undefined.
  move_out : Option V → ℕ → M Queue V
  move_out none i q = faults
  move_out (some v) i q = ok v (record q { buffer = set q.buffer i (values.moved_from v) })

  unfoldable pub take_slot : ℕ → M Queue V
  unfolding move_out
  take_slot i q = move_out (get_elem? q.buffer i) i q

  -- A remainder by a capacity of 0 is undefined.
  unfoldable pub advance : ℕ → (ℕ → Queue → Queue) → M Queue (Unit {0})
  advance i put q =
      (when q.capacity == 0 then (λ _. faults) else modify (λ p. put (inc_size i % p.capacity) p)) q

  -- The loop of ReadHead, which takes the message again after each failed exchange.
  unfoldable pub exchange_head : ℕ → V → M Queue V
  unfolding take_slot advance
  exchange_head zero message q = (do advance q.head (λ i p. record p { head = i }); pure message) q
  exchange_head (suc failures) message q =
      (do again ← take_slot q.head; exchange_head failures again) q

  abbrev pub reserved_read : Option ReadGuard → Option ℕ
  reserved_read none = none
  reserved_read (some g) = read_reserved_index g

  abbrev pub reserved_send : Option SendGuard → Option ℕ
  reserved_send none = none
  reserved_send (some g) = send_reserved_index g

  read_at : Option ℕ → M Queue V
  unfolding take_slot exchange_head
  read_at (some i) q = take_slot i q
  read_at none q = (do message ← take_slot q.head; exchange_head spurious message) q

  unfoldable pub read_head : M Queue V
  unfolding read_at
  read_head q = read_at (reserved_read q.read_guard) q

  -- `buffer_[i] = message`
  unfoldable pub put_slot : ℕ → V → M Queue (Unit {0})
  put_slot i message q = elim (get_elem? q.buffer i) [
    | none ↦ faults
    | some _ ↦ ok tt (record q { buffer = set q.buffer i message })
  ]

  write_at : Option ℕ → V → M Queue (Unit {0})
  unfolding put_slot advance
  write_at (some i) message q = put_slot i message q
  write_at none message q =
      (do put_slot (tail_index q) message; advance (tail_index q) set_tail_index) q

  unfoldable pub write_tail : V → M Queue (Unit {0})
  unfolding write_at
  write_tail message q = write_at (reserved_send q.send_guard) message q

  -- `CheckSendDeadlockPossibility` and `CheckReadDeadlockPossibility`.
  unfoldable pub check_deadlock : (Queue → Bool) → Bool → M Queue Bool
  check_deadlock test is_both =
      when not is_both
      then pure false
      else (do on_sync enter_synced; b ← gets test; on_sync leave_synced; pure b)

  unfoldable pub store_message : V → M Queue (Unit {0})
  unfolding write_tail complete_send_operation
  store_message message = do
    write_tail message
    complete_send_operation
    modify (λ q. record q { count = inc_size q.count })

  -- `WaitReadEnd` does nothing, so a blocking read goes on as soon as it has its guard.
  unfoldable pub sync_and_underflow_prework : M Queue (Unit {0})
  unfolding acquire_read
  sync_and_underflow_prework = acquire_read

  unfoldable pub try_sync_and_underflow_prework : M Queue Bool
  unfolding try_acquire_read cancel_read_operation
  try_sync_and_underflow_prework = do
    acquired ← try_acquire_read
    when not acquired then pure false else (do
      none_held ← gets is_empty
      when none_held then (do cancel_read_operation; pure false) else pure true)

  unfoldable pub pop_message : M Queue V
  unfolding read_head complete_read_operation
  pop_message = do
    message ← read_head
    modify (λ q. record q { count = dec_size q.count })
    complete_read_operation
    pure message

  unfoldable pub size : M Queue ℕ
  size = gets (λ q. q.count)

  unfoldable pub empty : M Queue Bool
  empty = gets is_empty

  -- `buffer_.clear()` leaves no slot.
  unfoldable pub close : M Queue (Unit {0})
  close = do
    on_sync enter_synced
    modify (λ q. set_tail_index 0 (record q { head = 0; count = 0; buffer = [] }))
    on_sync leave_synced

  -- The loop of AdvanceHeadForOverwriteDrop, with the attempts and the failures that are left.
  drop_oldest : ℕ → ℕ → M Queue Bool
  unfolding advance
  drop_oldest zero failures q = ok false q
  drop_oldest (suc attempts) zero q =
      (when ltb q.count q.capacity then pure false else (do
        advance q.head (λ i p. record p { head = i })
        modify (λ p. record p { count = dec_size p.count })
        pure true))
        q
  drop_oldest (suc attempts) (suc failures) q =
      (when ltb q.count q.capacity
          then pure false
          else (do advance q.head (λ _ p. p); drop_oldest attempts failures))
        q

  abbrev pub max_attempts : ℕ
  max_attempts = 64

  unfoldable pub advance_head_for_overwrite_drop : M Queue Bool
  unfolding drop_oldest
  advance_head_for_overwrite_drop = drop_oldest max_attempts spurious
