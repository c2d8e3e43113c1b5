-- ===== src/Circular/Bounded.antt =====
-- lib/circular/circular_bounded_message_queue.hpp: `CircularBoundedMessageQueue`.
pub mod Sends
pub mod Refine
pub mod Histories
use message_queue_practical.Prelude.{
  ℕ, Bool, true, false, not, Option, none, some, M, ◌>>=◌, ◌>>◌, pure, done, gets, when◌then◌else◌,
}
use message_queue_practical.Interface.Role.{ThreadAccessCategory}
use message_queue_practical.Interface.Call.{Hooks}
use message_queue_practical.Circular.Sync.Ops.{SyncOps}
use message_queue_practical.Circular.Queue
use message_queue_practical.Circular.Queue.{Circular, Values}

module _ {Sync SendGuard ReadGuard V : Type 0} (ops : SyncOps Sync SendGuard ReadGuard)
    (category : ThreadAccessCategory) (values : Values V) (spurious : ℕ) where
  open ops use {acquire_send_bounded_block, try_acquire_send_bounded}

  abbrev Self : Type 0
  Self = Circular Sync SendGuard ReadGuard V

  abbrev on_sync : {A : Type 0} → M Sync A → M Self A
  on_sync = Queue.on_sync ops category values spurious

  abbrev emplace : SendGuard → M Self (Unit {0})
  emplace = Queue.emplace_send ops category values spurious

  abbrev is_full : Self → Bool
  is_full = Queue.is_full ops category values spurious

  -- `WaitSendEnd` does nothing.
  unfoldable pub sync_and_overflow_prework : M Self (Unit {0})
  unfolding Queue.emplace_send
  sync_and_overflow_prework = do g ← on_sync acquire_send_bounded_block; emplace g

  enter : Option SendGuard → M Self Bool
  unfolding Queue.emplace_send Queue.cancel_send_operation
  enter none = pure false
  enter (some g) = do
    emplace g
    full ← gets is_full
    when full
        then (do Queue.cancel_send_operation ops category values spurious; pure false)
        else pure true

  unfoldable pub try_sync_and_overflow_prework : M Self Bool
  unfolding enter
  try_sync_and_overflow_prework = do g ← on_sync try_acquire_send_bounded; enter g

  abbrev pub hooks : Hooks Self V
  hooks = record {
    check_send_deadlock_possibility =
        Queue.check_deadlock ops category values spurious
          (Queue.is_full ops category values spurious);
    sync_and_overflow_prework = sync_and_overflow_prework;
    try_sync_and_overflow_prework = try_sync_and_overflow_prework;
    store_message = Queue.store_message ops category values spurious;
    send_postwork = done;
    check_read_deadlock_possibility =
        Queue.check_deadlock ops category values spurious
          (Queue.is_empty ops category values spurious);
    sync_and_underflow_prework = Queue.sync_and_underflow_prework ops category values spurious;
    try_sync_and_underflow_prework =
        Queue.try_sync_and_underflow_prework ops category values spurious;
    pop_message = Queue.pop_message ops category values spurious;
    read_postwork = done;
    size = Queue.size ops category values spurious;
    empty = Queue.empty ops category values spurious;
    close = Queue.close ops category values spurious;
  }
