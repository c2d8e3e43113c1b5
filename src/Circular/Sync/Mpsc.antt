-- ===== src/Circular/Sync/Mpsc.antt =====
-- lib/circular/impl/sync_mpsc.hpp: `CircularQueueSync` for several producers, which take turns by a mutex, and one consumer.
pub mod Ready
use message_queue_practical.Prelude.{
  ℕ, Bool, true, false, not, Option, none, some, M, ◌>>=◌, ◌>>◌, pure, done, zoom, when◌then◌else◌,
}
use message_queue_practical.Circular.Semaphore.{
  Semaphore, acquire, try_acquire, release, Mutex, lock, try_lock, unlock,
}
use message_queue_practical.Circular.Sync.Ops.{SyncOps}

pub record Mpsc : Type 0 where
  pub send_mutex : Mutex
  pub free_space : Semaphore
  pub occupied_space : Semaphore

-- The `std::size_t` capacity is the first count of the free space.
unfoldable pub construct : ℕ → Mpsc
construct capacity = record { send_mutex = false; free_space = capacity; occupied_space = 0 }

-- `attached` says that `sync_` is no null pointer.
pub record SendGuard : Type 0 where
  pub attached : Bool
  pub space_acquired : Bool
  pub mutex_acquired : Bool
  pub notify_occupied : Bool
  pub cancelled : Bool

pub record ReadGuard : Type 0 where
  pub attached : Bool
  pub space_acquired : Bool
  pub cancelled : Bool

abbrev on_free_space : {A : Type 0} → M Semaphore A → M Mpsc A
on_free_space = zoom (λ s. s.free_space) (λ n s. record s { free_space = n })

abbrev on_occupied_space : {A : Type 0} → M Semaphore A → M Mpsc A
on_occupied_space = zoom (λ s. s.occupied_space) (λ n s. record s { occupied_space = n })

abbrev on_send_mutex : {A : Type 0} → M Mutex A → M Mpsc A
on_send_mutex = zoom (λ s. s.send_mutex) (λ n s. record s { send_mutex = n })

-- The move constructor.
unfoldable pub move_send : SendGuard → SendGuard × SendGuard
move_send other = (
  other,
  record other {
    attached = false;
    space_acquired = false;
    mutex_acquired = false;
    notify_occupied = false;
    cancelled = false;
  },
)

-- The destructor.
unfoldable pub destroy_send : SendGuard → M Mpsc (Unit {0})
unfolding release unlock
destroy_send g =
    when not g.attached
    then done
    else when g.cancelled
    then (do
      when g.space_acquired then on_free_space release else done
      when g.mutex_acquired then on_send_mutex unlock else done)
    else (do
      when g.notify_occupied then on_occupied_space release else done
      when g.mutex_acquired then on_send_mutex unlock else done)

abbrev pub cancel_send : SendGuard → SendGuard
cancel_send g = record g { cancelled = true }

abbrev pub suppress_occupied_notify : SendGuard → SendGuard
suppress_occupied_notify g = record g { notify_occupied = false }

unfoldable pub move_read : ReadGuard → ReadGuard × ReadGuard
move_read other =
    (other, record other { attached = false; space_acquired = false; cancelled = false })

unfoldable pub destroy_read : ReadGuard → M Mpsc (Unit {0})
unfolding release
destroy_read g =
    when not g.attached
    then done
    else when g.cancelled
    then (when g.space_acquired then on_occupied_space release else done)
    else (when g.space_acquired then on_free_space release else done)

abbrev pub cancel_read : ReadGuard → ReadGuard
cancel_read g = record g { cancelled = true }

-- The constructors of the guards that the acquiring functions call.
abbrev pub send_guard : Bool → Bool → SendGuard
send_guard space_acquired notify_occupied = record {
  attached = true;
  space_acquired = space_acquired;
  mutex_acquired = true;
  notify_occupied = notify_occupied;
  cancelled = false;
}

abbrev pub read_guard : ReadGuard
read_guard = record { attached = true; space_acquired = true; cancelled = false }

unfoldable pub acquire_read_operation : M Mpsc ReadGuard
unfolding acquire
acquire_read_operation = do on_occupied_space acquire; pure read_guard

unfoldable pub try_acquire_read_operation : M Mpsc (Option ReadGuard)
unfolding try_acquire
try_acquire_read_operation = do
  acquired ← on_occupied_space try_acquire
  when not acquired then pure none else pure (some read_guard)

unfoldable pub acquire_send_bounded_block : M Mpsc SendGuard
unfolding acquire lock
acquire_send_bounded_block = do
  on_free_space acquire
  on_send_mutex lock
  pure (send_guard true true)

unfoldable pub try_acquire_send_bounded : M Mpsc (Option SendGuard)
unfolding try_acquire lock
try_acquire_send_bounded = do
  acquired ← on_free_space try_acquire
  when not acquired then pure none else (do on_send_mutex lock; pure (some (send_guard true true)))

unfoldable pub acquire_send_overwrite_oldest : M Mpsc SendGuard
unfolding try_acquire lock
acquire_send_overwrite_oldest = do
  on_send_mutex lock
  space_acquired ← on_free_space try_acquire
  pure (send_guard space_acquired true)

unfoldable pub try_acquire_send_overwrite_oldest : M Mpsc (Option SendGuard)
unfolding try_acquire try_lock
try_acquire_send_overwrite_oldest = do
  locked ← on_send_mutex try_lock
  when not locked then pure none else (do
    space_acquired ← on_free_space try_acquire
    pure (some (send_guard space_acquired true)))

pub consume_occupied_for_overwrite_drop : M Mpsc (Unit {0})
unfolding acquire
consume_occupied_for_overwrite_drop = on_occupied_space acquire

-- `ExecuteSynced` only calls its argument, and no guard has a reserved index.
abbrev pub ops : SyncOps Mpsc SendGuard ReadGuard
ops = record {
  acquire_read_operation = acquire_read_operation;
  try_acquire_read_operation = try_acquire_read_operation;
  acquire_send_bounded_block = acquire_send_bounded_block;
  try_acquire_send_bounded = try_acquire_send_bounded;
  acquire_send_overwrite_oldest = acquire_send_overwrite_oldest;
  try_acquire_send_overwrite_oldest = try_acquire_send_overwrite_oldest;
  enter_synced = done;
  leave_synced = done;
  move_send = move_send;
  destroy_send = destroy_send;
  cancel_send = cancel_send;
  suppress_occupied_notify = suppress_occupied_notify;
  send_reserved_index = λ _. none;
  move_read = move_read;
  destroy_read = destroy_read;
  cancel_read = cancel_read;
  read_reserved_index = λ _. none;
}
