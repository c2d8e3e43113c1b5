-- ===== src/Circular/Sync/Laws.antt =====
-- lib/circular/sync.hpp: what the circular queues rely on of a `CircularQueueSync`, for calls made
-- one after the other. `Ready s f o w r`: no mutex of `s` is held, `f` slots are free and `o` are
-- occupied, `w` sends and `r` reads are done.
use message_queue_practical.Prelude.{
  ℕ, suc, ◌+◌, ◌^◌, ◌%◌, ◌≤◌, ◌<◌, ◌≡◌, Bool, true, Option, none, some, ok, blocks, if◌then◌else◌,
}
use message_queue_practical.Circular.Semaphore.{max_count}
use message_queue_practical.Circular.Sync.Ops.{SyncOps}

-- The index that a guard for position `p` reserves, where guards reserve one.
abbrev pub slot : Bool → ℕ → ℕ → Option ℕ
slot reserving cap p = if reserving then some (p % cap) else none

module _ {Sync SendGuard ReadGuard : Type 0} (ops : SyncOps Sync SendGuard ReadGuard)
    (Ready : Sync → ℕ → ℕ → ℕ → ℕ → Type 0) (reserving : Bool) (cap : ℕ) where
  -- A guard for reading, from its acquisition to its destruction. `waits` is whether a blocking
  -- read of an empty queue waits with nothing held.
  pub record ReadLaws (waits : Bool) : Type 0 where
    pub grants_read :
        (s : Sync) (f o w r : ℕ)
        → Ready s f (suc o) w r
        → f + suc o ≤ max_count
        → suc r < 2 ^ 64
        → (g : ReadGuard) × (s1 : Sync) × (s2 : Sync) × (ops.acquire_read_operation s ≡ ok g s1)
          × (ops.try_acquire_read_operation s ≡ ok (some g) s1)
          × (ops.destroy_read (ops.move_read g).1 s1 ≡ ok tt s1)
          × (ops.read_reserved_index (ops.move_read g).0 ≡ slot reserving cap r)
          × (ops.destroy_read (ops.move_read g).0 s1 ≡ ok tt s2)
          × Ready s2 (suc f) o w (suc r)
    pub refuses_read :
        (s : Sync) (f w r : ℕ)
        → Ready s f 0 w r
        → (s1 : Sync) × (ops.try_acquire_read_operation s ≡ ok none s1) × Ready s1 f 0 w r
    pub waits_read :
        (s : Sync) (f w r : ℕ)
        → waits ≡ true
        → Ready s f 0 w r
        → (s1 : Sync) × (ops.acquire_read_operation s ≡ blocks s1) × Ready s1 f 0 w r

  -- A guard for a bounded send.
  pub record BoundedLaws : Type 0 where
    pub grants_send :
        (s : Sync) (f o w r : ℕ)
        → Ready s (suc f) o w r
        → suc f + o ≤ max_count
        → suc w < 2 ^ 64
        → (g : SendGuard) × (s1 : Sync) × (s2 : Sync) × (ops.acquire_send_bounded_block s ≡ ok g s1)
          × (ops.try_acquire_send_bounded s ≡ ok (some g) s1)
          × (ops.destroy_send (ops.move_send g).1 s1 ≡ ok tt s1)
          × (ops.send_reserved_index (ops.move_send g).0 ≡ slot reserving cap w)
          × (ops.destroy_send (ops.move_send g).0 s1 ≡ ok tt s2)
          × Ready s2 f (suc o) (suc w) r
    pub refuses_send :
        (s : Sync) (o w r : ℕ)
        → Ready s 0 o w r
        → (s1 : Sync) × (ops.acquire_send_bounded_block s ≡ blocks s1)
          × (ops.try_acquire_send_bounded s ≡ ok none s1)
          × Ready s1 0 o w r

  -- A guard for an overwriting send: with a free slot, and with none, where the drop of the oldest
  -- message suppresses the notification.
  pub record OverwriteLaws : Type 0 where
    pub grants_free :
        (s : Sync) (f o w r : ℕ)
        → Ready s (suc f) o w r
        → suc f + o ≤ max_count
        → (g : SendGuard) × (s1 : Sync) × (s2 : Sync) × (ops.acquire_send_overwrite_oldest s
            ≡ ok g s1)
          × (ops.try_acquire_send_overwrite_oldest s ≡ ok (some g) s1)
          × (ops.destroy_send (ops.move_send g).1 s1 ≡ ok tt s1)
          × (ops.send_reserved_index (ops.move_send g).0 ≡ none)
          × (ops.destroy_send (ops.move_send g).0 s1 ≡ ok tt s2)
          × Ready s2 f (suc o) (suc w) r
    pub grants_full :
        (s : Sync) (o w r : ℕ)
        → Ready s 0 o w r
        → o ≤ max_count
        → (g : SendGuard) × (s1 : Sync) × (s2 : Sync) × (ops.acquire_send_overwrite_oldest s
            ≡ ok g s1)
          × (ops.try_acquire_send_overwrite_oldest s ≡ ok (some g) s1)
          × (ops.destroy_send (ops.move_send g).1 s1 ≡ ok tt s1)
          × (ops.send_reserved_index (ops.suppress_occupied_notify (ops.move_send g).0) ≡ none)
          × (ops.destroy_send (ops.suppress_occupied_notify (ops.move_send g).0) s1 ≡ ok tt s2)
          × Ready s2 0 o (suc w) (suc r)
