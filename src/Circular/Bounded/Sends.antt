-- ===== src/Circular/Bounded/Sends.antt =====
-- lib/circular/circular_bounded_message_queue.hpp: the parts of a bounded send.
use message_queue_practical.Prelude.{
  ℕ, suc, ◌-◌, ◌<◌, ◌≡◌, refl, sym, subst, Bool, true, some, List, [], ◌∷◌, ◌++◌, ok, arith, length,
}
use message_queue_practical.Interface.Role.{ThreadAccessCategory}
use message_queue_practical.Circular.Sync.Ops.{SyncOps}
use message_queue_practical.Circular.Sync.Laws.{slot, BoundedLaws}
use message_queue_practical.Circular.Queue
use message_queue_practical.Circular.Queue.{Circular, Values}
use message_queue_practical.Circular.Bounded
use message_queue_practical.Circular.Contents.{Holds, after_send, after_send-Holds, stores}

module _ {Sync SendGuard ReadGuard V : Type 0} (ops : SyncOps Sync SendGuard ReadGuard)
    (category : ThreadAccessCategory) (values : Values V) (Ready : Sync → ℕ → ℕ → ℕ → ℕ → Type 0)
    (reserving : Bool) (cap : ℕ) (laws : BoundedLaws ops Ready reserving cap) where
  abbrev Self : Type 0
  Self = Circular Sync SendGuard ReadGuard V

  -- The parts of a send to a queue that holds `items` and is not full.
  pub record Sends (n : ℕ) (q : Self) (v : V) (items : List V) (reads writes : ℕ) (q1 q2 : Self)
      : Type 0 where
    pub acquires : Bounded.sync_and_overflow_prework ops category values 0 q ≡ ok tt q1
    pub tries : Bounded.try_sync_and_overflow_prework ops category values 0 q ≡ ok true q1
    pub stored : Queue.store_message ops category values 0 v q1 ≡ ok tt q2
    pub holds : Holds ops category values Ready reserving n q2 (items ++ v ∷ []) reads (suc writes)

  abbrev sending : Self → Sync → SendGuard → Self
  sending q s1 g = record q { sync = s1; send_guard = some (ops.move_send g).0 }

  module _ (n : ℕ) (q : Self) (v : V) (items : List V) (reads writes : ℕ)
      (h : Holds ops category values Ready reserving (suc n) q items reads writes)
      (same : q.capacity ≡ cap) (room : length items < q.capacity) (s1 s2 : Sync) (g : SendGuard)
      (try : ops.try_acquire_send_bounded q.sync ≡ ok (some g) s1)
      (acquire : ops.acquire_send_bounded_block q.sync ≡ ok g s1)
      (moved : ops.destroy_send (ops.move_send g).1 s1 ≡ ok tt s1)
      (index : ops.send_reserved_index (ops.move_send g).0 ≡ slot reserving cap writes)
      (destroyed : ops.destroy_send (ops.move_send g).0 s1 ≡ ok tt s2) where
    enters : Bounded.sync_and_overflow_prework ops category values 0 q ≡ ok tt (sending q s1 g)
    unfolding Bounded.sync_and_overflow_prework
    enters = ground (arith, h.no_send)

    enters_try :
        Bounded.try_sync_and_overflow_prework ops category values 0 q ≡ ok true (sending q s1 g)
    unfolding Bounded.try_sync_and_overflow_prework
    enters_try = ground (arith, h.no_send, h.counted)

    stored :
        Queue.store_message ops category values 0 v (sending q s1 g)
        ≡ ok tt (after_send ops category values Ready reserving (sending q s1 g) s2 v writes)
    stored =
        stores ops category values Ready reserving (sending q s1 g) v writes (ops.move_send g).0 s2
          refl
          (subst (λ c. ops.send_reserved_index (ops.move_send g).0 ≡ slot reserving c writes)
            (sym same) index)
          destroyed h.sized h.positive h.small (omega (arith, h.counted, h.small)) h.tail_at

  -- A bounded send to a queue that is not full stores its message behind the others.
  pub send_parts :
      (n : ℕ) (q : Self) (v : V) (items : List V) (reads writes : ℕ)
      → Holds ops category values Ready reserving (suc n) q items reads writes
      → q.capacity ≡ cap
      → length items < q.capacity
      → (q1 : Self) × (q2 : Self) × Sends n q v items reads writes q1 q2
        × (q2.capacity ≡ q.capacity)
  send_parts n q v items reads writes h same room =
      let left : q.capacity - length items ≡ suc (q.capacity - suc (length items)) = omega arith in
      let (g, s1, s2, acquire, try, moved, index, destroyed, ready) =
        laws.grants_send q.sync (q.capacity - suc (length items)) (length items) writes reads
          (subst (λ f. Ready q.sync f (length items) writes reads) left h.ready)
          (omega (arith, h.fits, h.small)) (omega (arith, h.room)) in
      (
        sending q s1 g,
        after_send ops category values Ready reserving (sending q s1 g) s2 v writes,
        record {
          acquires =
              enters n q v items reads writes h same room s1 s2 g try acquire moved index destroyed;
          tries =
              enters_try n q v items reads writes h same room s1 s2 g try acquire moved index
                destroyed;
          stored =
              stored n q v items reads writes h same room s1 s2 g try acquire moved index destroyed;
          holds =
              after_send-Holds ops category values Ready reserving n (sending q s1 g) v items reads
                writes s2
                (record {
                  no_read = h.no_read;
                  positive = h.positive;
                  small = h.small;
                  sized = h.sized;
                  counted = h.counted;
                  fits = h.fits;
                  window = h.window;
                  written = h.written;
                  room = h.room;
                  head_at = h.head_at;
                  tail_at = h.tail_at;
                })
                room ready;
        },
        refl,
      )
