-- ===== src/Circular/Sync/Ops.antt =====
-- lib/circular/sync.hpp: what `ICircularMessageQueue` uses of `CircularQueueSync<Category>` and of
-- its guards. A guard's move gives the new guard and the one moved from.
use message_queue_practical.Prelude.{ℕ, Option, M}

pub record SyncOps (Sync SendGuard ReadGuard : Type 0) : Type 0 where
  pub acquire_read_operation : M Sync ReadGuard
  pub try_acquire_read_operation : M Sync (Option ReadGuard)
  pub acquire_send_bounded_block : M Sync SendGuard
  pub try_acquire_send_bounded : M Sync (Option SendGuard)
  pub acquire_send_overwrite_oldest : M Sync SendGuard
  pub try_acquire_send_overwrite_oldest : M Sync (Option SendGuard)
  pub enter_synced : M Sync (Unit {0})
  pub leave_synced : M Sync (Unit {0})
  pub move_send : SendGuard → SendGuard × SendGuard
  pub destroy_send : SendGuard → M Sync (Unit {0})
  pub cancel_send : SendGuard → SendGuard
  pub suppress_occupied_notify : SendGuard → SendGuard
  pub send_reserved_index : SendGuard → Option ℕ
  pub move_read : ReadGuard → ReadGuard × ReadGuard
  pub destroy_read : ReadGuard → M Sync (Unit {0})
  pub cancel_read : ReadGuard → ReadGuard
  pub read_reserved_index : ReadGuard → Option ℕ
