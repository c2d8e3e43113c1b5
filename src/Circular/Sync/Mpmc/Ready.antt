-- ===== src/Circular/Sync/Mpmc/Ready.antt =====
-- lib/circular/impl/sync_mpmc.hpp: the laws of the guards, for a queue that only makes bounded sends
-- and for one that only makes overwriting sends.
use message_queue_practical.Prelude.{
  ℕ, suc, ◌%◌, ◌<◌, ◌≡◌, ◌⊎◌, refl, true, false, none, some, arith,
}
use message_queue_practical.Circular.Ring.{Ring}
use message_queue_practical.Circular.Sync.Laws.{ReadLaws, BoundedLaws, OverwriteLaws}
use message_queue_practical.Circular.Sync.Mpmc.{
  Mpmc, ops, bounded, overwrite_oldest, read_guard, send_guard, acquire_read_operation,
  try_acquire_read_operation, acquire_send_bounded_block, try_acquire_send_bounded,
  acquire_send_overwrite_oldest, try_acquire_send_overwrite_oldest, move_send, destroy_send,
  move_read, destroy_read, construct,
}

module _ (cap : ℕ) where
  -- For bounded sends the two sequence numbers count the slots that were reserved.
  abbrev pub Ready : Mpmc → ℕ → ℕ → ℕ → ℕ → Type 0
  Ready s f o w r =
      (s.ring.free_space ≡ f)
      × (s.ring.occupied_space ≡ o)
      × (s.ring.write_seq ≡ w)
      × (s.ring.read_seq ≡ r)
      × (s.ring.capacity ≡ cap)
      × (0 < cap)
      × (s.overwrite_mode ≡ false)

  abbrev ring_at : Mpmc → ℕ → ℕ → ℕ → ℕ → Mpmc
  ring_at s f o w r = record s {
    ring = record {
      free_space = f;
      occupied_space = o;
      write_seq = w;
      read_seq = r;
      capacity = s.ring.capacity;
    };
  }

  pub read_laws : ReadLaws ops Ready true cap true
  unfolding acquire_read_operation try_acquire_read_operation move_read destroy_read
  read_laws = record {
    grants_read = λ s f o w r h k l. (
      read_guard (some (r % cap)),
      ring_at s f o w (suc r),
      ring_at s (suc f) o w (suc r),
      ground arith,
      ground arith,
      refl,
      refl,
      ground arith,
      ground arith,
    );
    refuses_read = λ s f w r h. (s, ground arith, h);
    waits_read = λ s f w r e h. (s, ground arith, h);
  }

  pub bounded_laws : BoundedLaws ops Ready true cap
  unfolding acquire_send_bounded_block try_acquire_send_bounded move_send destroy_send
  bounded_laws = record {
    grants_send = λ s f o w r h k l. (
      send_guard bounded true (some (w % cap)) false,
      record (ring_at s f o (suc w) r) { overwrite_mode = false },
      record (ring_at s f (suc o) (suc w) r) { overwrite_mode = false },
      ground arith,
      ground arith,
      refl,
      refl,
      ground arith,
      ground arith,
    );
    refuses_send = λ s o w r h.
        (record s { overwrite_mode = false }, ground arith, ground arith, ground arith);
  }

  -- For overwriting sends only the credits count. Before the first send the mode is not yet set.
  abbrev pub ReadyOverwrite : Mpmc → ℕ → ℕ → ℕ → ℕ → Type 0
  ReadyOverwrite s f o w r =
      (s.ring.free_space ≡ f)
      × (s.ring.occupied_space ≡ o)
      × (s.overwrite_mutex ≡ false)
      × ((s.overwrite_mode ≡ true) ⊎ (o ≡ 0))

  abbrev credits : Mpmc → ℕ → ℕ → Ring
  credits s f o = record s.ring { free_space = f; occupied_space = o }

  pub ReadLaws-overwrite : ReadLaws ops ReadyOverwrite false cap false
  unfolding acquire_read_operation try_acquire_read_operation move_read destroy_read
  ReadLaws-overwrite = record {
    grants_read = λ s f o w r h k l. (
      read_guard none,
      record s { ring = credits s f o },
      record s { ring = credits s (suc f) o },
      ground arith,
      ground arith,
      refl,
      refl,
      ground arith,
      ground arith,
    );
    refuses_read = λ s f w r h. (s, ground arith, h);
    waits_read = λ s f w r e h. absurd (cc e);
  }

  pub overwrite_laws : OverwriteLaws ops ReadyOverwrite false cap
  unfolding acquire_send_overwrite_oldest try_acquire_send_overwrite_oldest move_send destroy_send
  overwrite_laws = record {
    grants_free = λ s f o w r h k. (
      send_guard overwrite_oldest true none true,
      record s { ring = credits s f o; overwrite_mode = true; overwrite_mutex = true },
      record s { ring = credits s f (suc o); overwrite_mode = true; overwrite_mutex = false },
      ground arith,
      ground arith,
      refl,
      refl,
      ground arith,
      ground arith,
    );
    grants_full = λ s o w r h k. (
      send_guard overwrite_oldest false none true,
      record s { ring = credits s 0 o; overwrite_mode = true; overwrite_mutex = true },
      record s { ring = credits s 0 o; overwrite_mode = true; overwrite_mutex = false },
      ground arith,
      ground arith,
      refl,
      refl,
      ground arith,
      ground arith,
    );
  }

  -- A new object is ready with all slots free, for either use.
  pub construct-Ready :
      0 < cap → Ready (construct cap) cap 0 0 0 × ReadyOverwrite (construct cap) cap 0 0 0
  unfolding construct
  construct-Ready h = ground arith
