-- ===== src/Circular/Overwrite/Sends.antt =====
-- lib/circular/circular_overwrite_oldest_message_queue.hpp: the parts of an overwriting send.
use message_queue_practical.Prelude.{
  ℕ, suc, ◌-◌, ◌%◌, ◌≤◌, ◌<◌, ◌≡◌, refl, subst, true, false, none, some, List, [], ◌∷◌, ◌++◌, ok,
  arith, length, inc_size,
}
use native.Mathlib.Nat.{mod-lt}
use message_queue_practical.Interface.Role.{ThreadAccessCategory}
use message_queue_practical.Circular.Semaphore.{max_count}
use message_queue_practical.Circular.Sync.Ops.{SyncOps}
use message_queue_practical.Circular.Sync.Laws.{OverwriteLaws}
use message_queue_practical.Circular.Window.{next_slot}
use message_queue_practical.Circular.Queue
use message_queue_practical.Circular.Queue.{Circular, Values}
use message_queue_practical.Circular.Overwrite
use message_queue_practical.Circular.Contents.{Holds, after_send, after_send-Holds, stores}

module _ {Sync SendGuard ReadGuard V : Type 0} (ops : SyncOps Sync SendGuard ReadGuard)
    (category : ThreadAccessCategory) (values : Values V) (Ready : Sync → ℕ → ℕ → ℕ → ℕ → Type 0)
    (cap : ℕ) (laws : OverwriteLaws ops Ready false cap) where
  abbrev Self : Type 0
  Self = Circular Sync SendGuard ReadGuard V

  -- The parts of an overwriting send that ends with the messages `items`.
  pub record Sends (n : ℕ) (q : Self) (v : V) (items : List V) (reads writes : ℕ) (q1 q2 : Self)
      : Type 0 where
    pub acquires : Overwrite.sync_and_overflow_prework ops category values 0 q ≡ ok tt q1
    pub tries : Overwrite.try_sync_and_overflow_prework ops category values 0 q ≡ ok true q1
    pub stored : Queue.store_message ops category values 0 v q1 ≡ ok tt q2
    pub holds : Holds ops category values Ready false n q2 items reads (suc writes)
    pub same : q2.capacity ≡ q.capacity

  abbrev sending : Self → Sync → SendGuard → Self
  sending q s1 g = record q { sync = s1; send_guard = some (ops.move_send g).0 }

  -- The oldest message is dropped, and the send is not to add to the occupied slots.
  abbrev dropping : Self → Sync → SendGuard → List V → ℕ → Self
  dropping q s1 g rest reads = record q {
    sync = s1;
    send_guard = some (ops.suppress_occupied_notify (ops.move_send g).0);
    head = suc reads % q.capacity;
    count = length rest;
  }

  module _ (n : ℕ) (q : Self) (v : V) (items : List V) (reads writes : ℕ)
      (h : Holds ops category values Ready false (suc n) q items reads writes) (s1 s2 : Sync)
      (g : SendGuard) (acquire : ops.acquire_send_overwrite_oldest q.sync ≡ ok g s1)
      (try : ops.try_acquire_send_overwrite_oldest q.sync ≡ ok (some g) s1)
      (moved : ops.destroy_send (ops.move_send g).1 s1 ≡ ok tt s1) where
    few : q.count ≤ max_count
    few = omega (arith, h.counted, h.small, h.fits)

    next : inc_size q.head % q.capacity ≡ suc reads % q.capacity
    next = rw (h.head_at refl) (
        next_slot q.capacity reads
          (omega (arith, mod-lt reads {m = q.capacity} h.positive, h.small)))

    -- With room, nothing is dropped.
    module _ (room : length items < q.capacity)
        (index : ops.send_reserved_index (ops.move_send g).0 ≡ none)
        (destroyed : ops.destroy_send (ops.move_send g).0 s1 ≡ ok tt s2)
        (ready : Ready s2
          (q.capacity - suc (length items))
          (suc (length items))
          (suc writes)
          reads) where
      enters : Overwrite.sync_and_overflow_prework ops category values 0 q ≡ ok tt (sending q s1 g)
      unfolding Overwrite.sync_and_overflow_prework
      enters = ground (arith, h.no_send, h.counted)

      enters_try :
          Overwrite.try_sync_and_overflow_prework ops category values 0 q ≡ ok true (sending q s1 g)
      unfolding Overwrite.try_sync_and_overflow_prework
      enters_try = ground (arith, h.no_send, h.counted)

      pub free_send : (q1 : Self) × (q2 : Self) × Sends n q v (items ++ v ∷ []) reads writes q1 q2
      free_send = (
        sending q s1 g,
        after_send ops category values Ready false (sending q s1 g) s2 v writes,
        record {
          acquires = enters;
          tries = enters_try;
          stored =
              stores ops category values Ready false (sending q s1 g) v writes (ops.move_send g).0
                s2 refl index destroyed h.sized h.positive h.small few h.tail_at;
          holds =
              after_send-Holds ops category values Ready false n (sending q s1 g) v items reads
                writes s2
                (record {
                  no_read = h.no_read;
                  positive = h.positive;
                  small = h.small;
                  sized = h.sized;
                  counted = h.counted;
                  fits = h.fits;
                  window = h.window;
                  written = h.written;
                  room = h.room;
                  head_at = h.head_at;
                  tail_at = h.tail_at;
                })
                room ready;
          same = refl;
        },
      )

  -- On a full queue the first message is dropped.
  module _ (n : ℕ) (q : Self) (v x : V) (rest : List V) (reads writes : ℕ)
      (h : Holds ops category values Ready false (suc n) q (x ∷ rest) reads writes) (s1 s2 : Sync)
      (g : SendGuard) (acquire : ops.acquire_send_overwrite_oldest q.sync ≡ ok g s1)
      (try : ops.try_acquire_send_overwrite_oldest q.sync ≡ ok (some g) s1)
      (moved : ops.destroy_send (ops.move_send g).1 s1 ≡ ok tt s1)
      (full : length (x ∷ rest) ≡ q.capacity)
      (index : ops.send_reserved_index (ops.suppress_occupied_notify (ops.move_send g).0) ≡ none)
      (destroyed : ops.destroy_send (ops.suppress_occupied_notify (ops.move_send g).0) s1
        ≡ ok tt s2)
      (ready : Ready s2 0 (length (x ∷ rest)) (suc writes) (suc reads)) where
    advanced : inc_size q.head % q.capacity ≡ suc reads % q.capacity
    advanced = next n q v (x ∷ rest) reads writes h s1 s2 g acquire try moved

    drops :
        Overwrite.sync_and_overflow_prework ops category values 0 q
        ≡ ok tt (dropping q s1 g rest reads)
    unfolding Overwrite.sync_and_overflow_prework
    drops = ground (arith, h.no_send, h.counted, advanced)

    drops_try :
        Overwrite.try_sync_and_overflow_prework ops category values 0 q
        ≡ ok true (dropping q s1 g rest reads)
    unfolding Overwrite.try_sync_and_overflow_prework
    drops_try = ground (arith, h.no_send, h.counted, advanced)

    pub full_send :
        (q1 : Self) × (q2 : Self) × Sends n q v (rest ++ v ∷ []) (suc reads) writes q1 q2
    full_send = (
      dropping q s1 g rest reads,
      after_send ops category values Ready false (dropping q s1 g rest reads) s2 v writes,
      record {
        acquires = drops;
        tries = drops_try;
        stored =
            stores ops category values Ready false (dropping q s1 g rest reads) v writes
              (ops.suppress_occupied_notify (ops.move_send g).0) s2 refl index destroyed h.sized
              h.positive h.small (omega (arith, h.small)) h.tail_at;
        holds =
            after_send-Holds ops category values Ready false n (dropping q s1 g rest reads) v rest
              (suc reads) writes s2
              (record {
                no_read = h.no_read;
                positive = h.positive;
                small = h.small;
                sized = h.sized;
                counted = refl;
                fits = omega (arith, h.fits);
                window = h.window.1;
                written = omega (arith, h.written);
                room = h.room;
                head_at = λ _. refl;
                tail_at = h.tail_at;
              })
              (omega (arith, full))
              (subst (λ f. Ready s2 f (length (x ∷ rest)) (suc writes) (suc reads))
                (omega (arith, full)) ready);
        same = refl;
      },
    )
