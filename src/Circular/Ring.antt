-- ===== src/Circular/Ring.antt =====
-- lib/circular/impl/mpmc_bounded_sync_helper.hpp: `MpmcBoundedSyncHelper`.
use message_queue_practical.Prelude.{
  ℕ, ◌%◌, Bool, not, Option, none, some, M, ok, faults, ◌>>=◌, ◌>>◌, pure, done, zoom, inc_size,
  ◌==◌, when◌then◌else◌,
}
use message_queue_practical.Circular.Semaphore.{Semaphore, acquire, try_acquire, release}

pub record Ring : Type 0 where
  pub free_space : Semaphore
  pub occupied_space : Semaphore
  pub write_seq : ℕ
  pub read_seq : ℕ
  pub capacity : ℕ

unfoldable pub construct : ℕ → Ring
construct capacity = record {
  free_space = capacity;
  occupied_space = 0;
  write_seq = 0;
  read_seq = 0;
  capacity = capacity;
}

abbrev pub on_free_space : {A : Type 0} → M Semaphore A → M Ring A
on_free_space = zoom (λ s. s.free_space) (λ n s. record s { free_space = n })

abbrev pub on_occupied_space : {A : Type 0} → M Semaphore A → M Ring A
on_occupied_space = zoom (λ s. s.occupied_space) (λ n s. record s { occupied_space = n })

-- `fetch_add(1) % capacity_`; a remainder by 0 is undefined.
unfoldable pub reserve_write_slot : M Ring ℕ
reserve_write_slot s =
    (when s.capacity == 0
        then (λ _. faults)
        else (λ r. ok (r.write_seq % r.capacity) (record r { write_seq = inc_size r.write_seq })))
      s

unfoldable pub reserve_read_slot : M Ring ℕ
reserve_read_slot s =
    (when s.capacity == 0
        then (λ _. faults)
        else (λ r. ok (r.read_seq % r.capacity) (record r { read_seq = inc_size r.read_seq })))
      s

unfoldable pub acquire_write_slot_blocking : M Ring ℕ
unfolding acquire reserve_write_slot
acquire_write_slot_blocking = do on_free_space acquire; reserve_write_slot

unfoldable pub try_acquire_write_slot : M Ring (Option ℕ)
unfolding try_acquire reserve_write_slot
try_acquire_write_slot = do
  acquired ← on_free_space try_acquire
  when not acquired then pure none else (do index ← reserve_write_slot; pure (some index))

unfoldable pub try_acquire_write_credit : M Ring Bool
unfolding try_acquire
try_acquire_write_credit = on_free_space try_acquire

unfoldable pub acquire_read_slot_blocking : M Ring ℕ
unfolding acquire reserve_read_slot
acquire_read_slot_blocking = do on_occupied_space acquire; reserve_read_slot

unfoldable pub try_acquire_read_slot : M Ring (Option ℕ)
unfolding try_acquire reserve_read_slot
try_acquire_read_slot = do
  acquired ← on_occupied_space try_acquire
  when not acquired then pure none else (do index ← reserve_read_slot; pure (some index))

unfoldable pub acquire_read_credit_blocking : M Ring (Unit {0})
unfolding acquire
acquire_read_credit_blocking = on_occupied_space acquire

unfoldable pub try_acquire_read_credit : M Ring Bool
unfolding try_acquire
try_acquire_read_credit = on_occupied_space try_acquire

unfoldable pub commit_write : Bool → M Ring (Unit {0})
unfolding release
commit_write notify_occupied = when notify_occupied then on_occupied_space release else done

unfoldable pub cancel_write : M Ring (Unit {0})
unfolding release
cancel_write = on_free_space release

unfoldable pub commit_write_credit : Bool → M Ring (Unit {0})
unfolding release
commit_write_credit notify_occupied = when notify_occupied then on_occupied_space release else done

unfoldable pub commit_read : M Ring (Unit {0})
unfolding release
commit_read = on_free_space release

unfoldable pub cancel_read : M Ring (Unit {0})
unfolding release
cancel_read = on_occupied_space release
