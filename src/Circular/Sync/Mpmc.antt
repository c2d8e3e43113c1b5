-- ===== src/Circular/Sync/Mpmc.antt =====
-- lib/circular/impl/sync_mpmc.hpp: `CircularQueueSync` for several producers and consumers.
pub mod Ready
use message_queue_practical.Prelude.{
  ℕ, Bool, true, false, not, ◌&&◌, Option, none, some, M, ◌>>=◌, ◌>>◌, pure, done, gets, modify,
  zoom, when◌then◌else◌,
}
use message_queue_practical.Circular.Semaphore.{Mutex, lock, try_lock, unlock}
use message_queue_practical.Circular.Ring
use message_queue_practical.Circular.Ring.{Ring}
use message_queue_practical.Circular.Sync.Ops.{SyncOps}

pub record Mpmc : Type 0 where
  pub execute_mutex : Mutex
  pub overwrite_mutex : Mutex
  pub ring : Ring
  pub overwrite_mode : Bool

unfoldable pub construct : ℕ → Mpmc
unfolding Ring.construct
construct capacity = record {
  execute_mutex = false;
  overwrite_mutex = false;
  ring = Ring.construct capacity;
  overwrite_mode = false;
}

pub data Mode : Type 0 where
  bounded overwrite_oldest : Mode

abbrev is_overwrite : Mode → Bool
is_overwrite bounded = false
is_overwrite overwrite_oldest = true

-- `attached`: `sync_` is no null pointer. `overwrite_lock`: the `unique_lock` owns its mutex.
pub record SendGuard : Type 0 where
  pub attached : Bool
  pub mode : Mode
  pub space_acquired : Bool
  pub notify_occupied : Bool
  pub cancelled : Bool
  pub reserved_index : Option ℕ
  pub overwrite_lock : Bool

pub record ReadGuard : Type 0 where
  pub attached : Bool
  pub space_acquired : Bool
  pub cancelled : Bool
  pub reserved_index : Option ℕ

abbrev on_ring : {A : Type 0} → M Ring A → M Mpmc A
on_ring = zoom (λ s. s.ring) (λ r s. record s { ring = r })

abbrev on_overwrite_mutex : {A : Type 0} → M Mutex A → M Mpmc A
on_overwrite_mutex = zoom (λ s. s.overwrite_mutex) (λ m s. record s { overwrite_mutex = m })

abbrev on_execute_mutex : {A : Type 0} → M Mutex A → M Mpmc A
on_execute_mutex = zoom (λ s. s.execute_mutex) (λ m s. record s { execute_mutex = m })

-- The move constructor leaves `mode_` alone.
unfoldable pub move_send : SendGuard → SendGuard × SendGuard
move_send other = (
  other,
  record other {
    attached = false;
    space_acquired = false;
    notify_occupied = false;
    cancelled = false;
    reserved_index = none;
    overwrite_lock = false;
  },
)

-- The body of the destructor.
settle_send : SendGuard → M Mpmc (Unit {0})
unfolding Ring.cancel_write Ring.commit_write Ring.commit_write_credit
settle_send g =
    when not g.attached
    then done
    else when not (is_overwrite g.mode)
    then (when g.cancelled
        then (when g.space_acquired then on_ring Ring.cancel_write else done)
        else (when g.notify_occupied && g.space_acquired
            then on_ring (Ring.commit_write true)
            else done))
    else (when g.cancelled
        then (when g.space_acquired then on_ring Ring.cancel_write else done)
        else (when g.notify_occupied then on_ring (Ring.commit_write_credit true) else done))

-- After the body, the member `overwrite_lock_` releases the mutex that it owns.
unfoldable pub destroy_send : SendGuard → M Mpmc (Unit {0})
unfolding settle_send unlock
destroy_send g = do settle_send g; when g.overwrite_lock then on_overwrite_mutex unlock else done

abbrev pub cancel_send : SendGuard → SendGuard
cancel_send g = record g { cancelled = true }

abbrev pub suppress_occupied_notify : SendGuard → SendGuard
suppress_occupied_notify g = record g { notify_occupied = false }

unfoldable pub move_read : ReadGuard → ReadGuard × ReadGuard
move_read other = (
  other,
  record other {
    attached = false;
    space_acquired = false;
    cancelled = false;
    reserved_index = none;
  },
)

unfoldable pub destroy_read : ReadGuard → M Mpmc (Unit {0})
unfolding Ring.cancel_read Ring.commit_read
destroy_read g =
    when not g.attached
    then done
    else when g.cancelled
    then (when g.space_acquired then on_ring Ring.cancel_read else done)
    else (when g.space_acquired then on_ring Ring.commit_read else done)

abbrev pub cancel_read : ReadGuard → ReadGuard
cancel_read g = record g { cancelled = true }

-- The constructors of the guards. A guard for overwriting notifies whatever space it has.
abbrev pub send_guard : Mode → Bool → Option ℕ → Bool → SendGuard
send_guard mode space_acquired reserved_index overwrite_lock = record {
  attached = true;
  mode = mode;
  space_acquired = space_acquired;
  notify_occupied = elim mode [ overwrite_oldest ↦ true | bounded ↦ space_acquired ];
  cancelled = false;
  reserved_index = reserved_index;
  overwrite_lock = overwrite_lock;
}

abbrev pub read_guard : Option ℕ → ReadGuard
read_guard reserved_index = record {
  attached = true;
  space_acquired = true;
  cancelled = false;
  reserved_index = reserved_index;
}

unfoldable pub acquire_read_operation : M Mpmc ReadGuard
unfolding Ring.acquire_read_credit_blocking Ring.acquire_read_slot_blocking
acquire_read_operation = do
  overwrite ← gets (λ s. s.overwrite_mode)
  when overwrite
      then (do on_ring Ring.acquire_read_credit_blocking; pure (read_guard none))
      else (do index ← on_ring Ring.acquire_read_slot_blocking; pure (read_guard (some index)))

-- A guard for the slot that was reserved, if one was.
abbrev read_guard_for : Option ℕ → M Mpmc (Option ReadGuard)
read_guard_for none = pure none
read_guard_for (some index) = pure (some (read_guard (some index)))

unfoldable pub try_acquire_read_operation : M Mpmc (Option ReadGuard)
unfolding Ring.try_acquire_read_credit Ring.try_acquire_read_slot
try_acquire_read_operation = do
  overwrite ← gets (λ s. s.overwrite_mode)
  when overwrite
      then (do
        acquired ← on_ring Ring.try_acquire_read_credit
        when not acquired then pure none else pure (some (read_guard none)))
      else (do index ← on_ring Ring.try_acquire_read_slot; read_guard_for index)

abbrev set_overwrite_mode : Bool → M Mpmc (Unit {0})
set_overwrite_mode overwrite = modify (λ s. record s { overwrite_mode = overwrite })

unfoldable pub acquire_send_bounded_block : M Mpmc SendGuard
unfolding Ring.acquire_write_slot_blocking
acquire_send_bounded_block = do
  set_overwrite_mode false
  index ← on_ring Ring.acquire_write_slot_blocking
  pure (send_guard bounded true (some index) false)

abbrev send_guard_for : Option ℕ → M Mpmc (Option SendGuard)
send_guard_for none = pure none
send_guard_for (some index) = pure (some (send_guard bounded true (some index) false))

unfoldable pub try_acquire_send_bounded : M Mpmc (Option SendGuard)
unfolding Ring.try_acquire_write_slot
try_acquire_send_bounded = do
  set_overwrite_mode false
  index ← on_ring Ring.try_acquire_write_slot
  send_guard_for index

unfoldable pub acquire_send_overwrite_oldest : M Mpmc SendGuard
unfolding Ring.try_acquire_write_credit lock
acquire_send_overwrite_oldest = do
  set_overwrite_mode true
  on_overwrite_mutex lock
  space_acquired ← on_ring Ring.try_acquire_write_credit
  pure (send_guard overwrite_oldest space_acquired none true)

unfoldable pub try_acquire_send_overwrite_oldest : M Mpmc (Option SendGuard)
unfolding Ring.try_acquire_write_credit try_lock
try_acquire_send_overwrite_oldest = do
  set_overwrite_mode true
  locked ← on_overwrite_mutex try_lock
  when not locked then pure none else (do
    space_acquired ← on_ring Ring.try_acquire_write_credit
    pure (some (send_guard overwrite_oldest space_acquired none true)))

-- `ExecuteSynced` holds `execute_mutex_` round the call of its argument.
abbrev pub ops : SyncOps Mpmc SendGuard ReadGuard
ops = record {
  acquire_read_operation = acquire_read_operation;
  try_acquire_read_operation = try_acquire_read_operation;
  acquire_send_bounded_block = acquire_send_bounded_block;
  try_acquire_send_bounded = try_acquire_send_bounded;
  acquire_send_overwrite_oldest = acquire_send_overwrite_oldest;
  try_acquire_send_overwrite_oldest = try_acquire_send_overwrite_oldest;
  enter_synced = on_execute_mutex lock;
  leave_synced = on_execute_mutex unlock;
  move_send = move_send;
  destroy_send = destroy_send;
  cancel_send = cancel_send;
  suppress_occupied_notify = suppress_occupied_notify;
  send_reserved_index = λ g. g.reserved_index;
  move_read = move_read;
  destroy_read = destroy_read;
  cancel_read = cancel_read;
  read_reserved_index = λ g. g.reserved_index;
}
