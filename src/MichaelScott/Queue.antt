-- ===== src/MichaelScott/Queue.antt =====
-- lib/michael_scott_queue.hpp: `MichaelScottQueue`, one call after the other. A store and each try of
-- a pop run alone, to their end. The condition variables have a mutex that is held for the test
-- only: a `wait` whose predicate fails blocks.
use message_queue_practical.Prelude.{
  ℕ, zero, suc, Bool, true, false, not, ◌&&◌, ◌||◌, Option, none, some, queue_error, Outcome, ok,
  throws, blocks, faults, M, ◌>>=◌, ◌>>◌, pure, done, modify, gets, ltb, leb, ◌==◌, inc_size,
  dec_size, if◌then◌else◌, when◌then◌else◌,
}
use message_queue_practical.Interface.Call.{Hooks}
use message_queue_practical.MichaelScott.Machine.{
  Shared, max_attempts, Pc, missed, pop_load_head, store_allocate, stored, popped,
}
use message_queue_practical.MichaelScott.System.{new_queue}
use message_queue_practical.MichaelScott.Alone.{alone}

-- `QueueStatsSnapshot`
pub record QueueStatsSnapshot : Type 0 where
  pub cas_retries : ℕ
  pub successful_operations : ℕ

module _ {V : Type 0} where
  -- The constructor, with `T{}` for the dummy node.
  unfoldable pub construct : V → ℕ → Outcome (Unit {0}) (Shared V)
  unfolding new_queue
  construct default max_capacity =
      if max_capacity == 0
      then throws (queue_error "Capacity must be greater than zero") tt
      else ok (new_queue default max_capacity) tt

  unfoldable pub wait : (Shared V → Bool) → M (Shared V) (Unit {0})
  wait ready m = (when ready m then done else blocks) m

  unfoldable pub size : M (Shared V) ℕ
  size = gets (λ m. m.current_size)

  unfoldable pub empty : M (Shared V) Bool
  empty = gets (λ m. m.current_size == 0)

  unfoldable pub close : M (Shared V) (Unit {0})
  close = modify (λ m. record m { closed = true })

  unfoldable pub stats : M (Shared V) QueueStatsSnapshot
  stats =
      gets (λ m. record {
        cas_retries = m.cas_retries;
        successful_operations = m.successful_operations;
      })

  unfoldable pub check_send_deadlock_possibility : Bool → M (Shared V) Bool
  check_send_deadlock_possibility is_both = gets (λ m. is_both && leb m.capacity m.current_size)

  unfoldable pub check_read_deadlock_possibility : Bool → M (Shared V) Bool
  check_read_deadlock_possibility is_both = gets (λ m. is_both && m.current_size == 0)

  unfoldable pub sync_and_overflow_prework : M (Shared V) (Unit {0})
  unfolding wait
  sync_and_overflow_prework = do
    wait (λ m. ltb m.current_size m.capacity || m.closed)
    closed ← gets (λ m. m.closed)
    when closed then throws (queue_error "Closed") else done

  unfoldable pub try_sync_and_overflow_prework : M (Shared V) Bool
  try_sync_and_overflow_prework = gets (λ m. not m.closed && ltb m.current_size m.capacity)

  unfoldable pub send_postwork : M (Shared V) (Unit {0})
  send_postwork = do
    modify (λ m. record m { current_size = inc_size m.current_size })
    modify (λ m. record m { successful_operations = inc_size m.successful_operations })

  unfoldable pub sync_and_underflow_prework : M (Shared V) (Unit {0})
  unfolding wait
  sync_and_underflow_prework = do
    wait (λ m. ltb 0 m.current_size || m.closed)
    refused ← gets (λ m. m.closed && m.current_size == 0)
    when refused then throws (queue_error "Empty and Closed") else done

  unfoldable pub try_sync_and_underflow_prework : M (Shared V) Bool
  try_sync_and_underflow_prework = gets (λ m. ltb 0 m.current_size)

  unfoldable pub read_postwork : M (Shared V) (Unit {0})
  read_postwork = do
    modify (λ m. record m { current_size = dec_size m.current_size })
    modify (λ m. record m { successful_operations = inc_size m.successful_operations })

module _ {V : Type 0} (moved_from : V → V) where
  -- A call that has not ended within the steps blocks.
  was_stored : Outcome (Shared V) (Pc V) → Outcome (Shared V) Bool
  was_stored (ok (stored v b) m) = ok b m
  was_stored (ok _ m) = blocks m
  was_stored (throws e m) = throws e m
  was_stored (blocks m) = blocks m
  was_stored faults = faults

  was_popped : Outcome (Shared V) (Pc V) → Outcome (Shared V) (Option V)
  was_popped (ok (popped v) m) = ok (some v) m
  was_popped (ok missed m) = ok none m
  was_popped (ok _ m) = blocks m
  was_popped (throws e m) = throws e m
  was_popped (blocks m) = blocks m
  was_popped faults = faults

  unfoldable pub store_internal : V → M (Shared V) (Unit {0})
  unfolding was_stored
  store_internal value m =
      (do stored_now ← (λ p. was_stored (alone moved_from 11 (store_allocate value none) p)); done)
        m

  unfoldable pub try_store_internal : V → M (Shared V) Bool
  unfolding was_stored
  try_store_internal value m =
      was_stored (alone moved_from 11 (store_allocate value (some max_attempts)) m)

  unfoldable pub try_pop_once : M (Shared V) (Option V)
  unfolding was_popped
  try_pop_once m = was_popped (alone moved_from 8 pop_load_head m)

  -- The loop of `PopMessage`, for at most so many tries: out of them, it still spins.
  unfoldable pub pop_message : ℕ → M (Shared V) V
  pop_message zero m = blocks m
  pop_message (suc tries) m = elim (try_pop_once m) [
    | ok (some v) m' ↦ ok v m'
    | ok none m' ↦ pop_message tries m'
    | throws e m' ↦ throws e m'
    | blocks m' ↦ blocks m'
    | faults ↦ faults
  ]

  unfoldable pub try_enqueue : V → M (Shared V) Bool
  unfolding try_sync_and_overflow_prework send_postwork
  try_enqueue value = do
    entered ← try_sync_and_overflow_prework
    when not entered then pure false else (do
      linked_in ← try_store_internal value
      when not linked_in then pure false else (do send_postwork; pure true))

  unfoldable pub try_dequeue : M (Shared V) (Option V)
  unfolding try_sync_and_underflow_prework read_postwork
  try_dequeue = do
    entered ← try_sync_and_underflow_prework
    when not entered then pure none else (do
      value ← try_pop_once
      elim value [ none ↦ pure none | some v ↦ (do read_postwork; pure (some v)) ])

  -- `tries`: how often the loop of `PopMessage` may turn.
  abbrev pub hooks : ℕ → Hooks (Shared V) V
  hooks tries = record {
    check_send_deadlock_possibility = check_send_deadlock_possibility;
    sync_and_overflow_prework = sync_and_overflow_prework;
    try_sync_and_overflow_prework = try_sync_and_overflow_prework;
    store_message = store_internal;
    send_postwork = send_postwork;
    check_read_deadlock_possibility = check_read_deadlock_possibility;
    sync_and_underflow_prework = sync_and_underflow_prework;
    try_sync_and_underflow_prework = try_sync_and_underflow_prework;
    pop_message = pop_message tries;
    read_postwork = read_postwork;
    size = size;
    empty = empty;
    close = close;
  }
