-- ===== src/Circular/Sync/Spmc/Ready.antt =====
-- lib/circular/impl/sync_spmc.hpp: the laws of the guards.
-- A blocking read that waits holds `read_mutex_`, so only `TryRead` finds an empty queue as it was.
use message_queue_practical.Prelude.{ℕ, suc, ◌≡◌, refl, true, false, arith}
use message_queue_practical.Circular.Sync.Laws.{ReadLaws, BoundedLaws, OverwriteLaws}
use message_queue_practical.Circular.Sync.Spmc.{
  Spmc, ops, read_guard, send_guard, acquire_read_operation, try_acquire_read_operation,
  acquire_send_bounded_block, try_acquire_send_bounded, acquire_send_overwrite_oldest,
  try_acquire_send_overwrite_oldest, move_send, destroy_send, move_read, destroy_read, construct,
}

abbrev pub Ready : Spmc → ℕ → ℕ → ℕ → ℕ → Type 0
Ready s f o w r = (s.free_space ≡ f) × (s.occupied_space ≡ o) × (s.read_mutex ≡ false)

module _ (cap : ℕ) where
  pub read_laws : ReadLaws ops Ready false cap false
  unfolding acquire_read_operation try_acquire_read_operation move_read destroy_read
  read_laws = record {
    grants_read = λ s f o w r h k l. (
      read_guard,
      record s { occupied_space = o; read_mutex = true },
      record s { occupied_space = o; free_space = suc f; read_mutex = false },
      ground arith,
      ground arith,
      refl,
      refl,
      ground arith,
      ground arith,
    );
    refuses_read = λ s f w r h. (s, ground arith, h);
    waits_read = λ s f w r e h. absurd (cc e);
  }

  pub bounded_laws : BoundedLaws ops Ready false cap
  unfolding acquire_send_bounded_block try_acquire_send_bounded move_send destroy_send
  bounded_laws = record {
    grants_send = λ s f o w r h k l. (
      send_guard true true,
      record s { free_space = f },
      record s { free_space = f; occupied_space = suc o },
      ground arith,
      ground arith,
      refl,
      refl,
      ground arith,
      ground arith,
    );
    refuses_send = λ s o w r h. (s, ground arith, ground arith, h);
  }

  pub overwrite_laws : OverwriteLaws ops Ready false cap
  unfolding acquire_send_overwrite_oldest try_acquire_send_overwrite_oldest move_send destroy_send
  overwrite_laws = record {
    grants_free = λ s f o w r h k. (
      send_guard true true,
      record s { free_space = f },
      record s { free_space = f; occupied_space = suc o },
      ground arith,
      ground arith,
      refl,
      refl,
      ground arith,
      ground arith,
    );
    grants_full = λ s o w r h k. (
      send_guard false true,
      record s { free_space = 0 },
      record s { free_space = 0 },
      ground arith,
      ground arith,
      refl,
      refl,
      ground arith,
      ground arith,
    );
  }

-- A new object is ready with all slots free.
pub construct-Ready : (capacity : ℕ) → Ready (construct capacity) capacity 0 0 0
unfolding construct
construct-Ready capacity = ground arith
