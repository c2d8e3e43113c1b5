-- ===== src/Circular/Overwrite/Histories.antt =====
-- lib/circular/circular_overwrite_oldest_message_queue.hpp: the queue over each of the synchronisation
-- objects of lib/circular/impl.
use message_queue_practical.Prelude.{ℕ, ◌^◌, ◌≤◌, ◌<◌, ◌≡◌, true, false, List, [], length}
use message_queue_practical.Interface.Role.{
  DeadlockExceptionPolicy, ThreadRole, Roles, single_producer_single_consumer,
  multiple_producer_single_consumer, single_producer_multiple_consumer,
  multiple_producer_multiple_consumer,
}
use message_queue_practical.Interface.History.{Request, run}
use message_queue_practical.Interface.Simulation.{replies, Sticks, IsPlain, Follows}
use message_queue_practical.Circular.Semaphore.{max_count}
use message_queue_practical.Circular.Queue.{Values, construct}
use message_queue_practical.Circular.Overwrite.{hooks}
use message_queue_practical.Circular.Bounded.Refine.{Allowed}
use message_queue_practical.Circular.Overwrite.Refine.{keeps_latest}
use message_queue_practical.Spec.Latest.{latest}
use message_queue_practical.Circular.Sync.Spsc
use message_queue_practical.Circular.Sync.Spsc.Ready as SpscReady
use message_queue_practical.Circular.Sync.Mpsc
use message_queue_practical.Circular.Sync.Mpsc.Ready as MpscReady
use message_queue_practical.Circular.Sync.Spmc
use message_queue_practical.Circular.Sync.Spmc.Ready as SpmcReady
use message_queue_practical.Circular.Sync.Mpmc
use message_queue_practical.Circular.Sync.Mpmc.Ready as MpmcReady

module _ {V : Type 0} (policy : DeadlockExceptionPolicy) (values : Values V) (this cap : ℕ)
    (role_of : ℕ → ThreadRole) (tables : ℕ → Roles) (cs : List (ℕ × Request V)) (positive : 0 < cap)
    (small : cap ≤ max_count) (short : length cs < 2 ^ 64) (plain : (t : ℕ) → IsPlain (role_of t))
    (sticks : (t : ℕ) → Sticks this (role_of t) (tables t)) where
  -- For the circular queue that drops the oldest message, with one producer and one consumer: for
  -- any history, in which each thread keeps to sending or to reading and does not close, and of
  -- fewer than 2^64 calls, on a queue just made with a positive capacity that a semaphore can count
  -- and with no spurious exchange failure, the replies are those of the abstract queue that keeps
  -- the latest messages, as many as the capacity.
  pub spsc_history_keeps_latest :
      Follows role_of (Allowed true) cs
      → run policy this
          (hooks Spsc.ops single_producer_single_consumer values 0)
          (record {
            tables = tables;
            queue =
                construct Spsc.ops single_producer_single_consumer values 0
                  (Spsc.construct cap)
                  cap;
          })
          cs
        ≡ replies latest (record { capacity = cap; items = []; closed = false }) cs
  spsc_history_keeps_latest f =
      keeps_latest policy Spsc.ops single_producer_single_consumer values SpscReady.Ready true cap
        this (Spsc.construct cap) role_of tables cs (SpscReady.overwrite_laws cap)
        (SpscReady.read_laws cap) (SpscReady.construct-Ready cap) positive small short plain sticks
        f

  -- For the circular queue that drops the oldest message, with many producers and one consumer: for
  -- any history, in which each thread keeps to sending or to reading and does not close, and of
  -- fewer than 2^64 calls, on a queue just made with a positive capacity that a semaphore can count
  -- and with no spurious exchange failure, the replies are those of the abstract queue that keeps
  -- the latest messages, as many as the capacity.
  pub mpsc_history_keeps_latest :
      Follows role_of (Allowed true) cs
      → run policy this
          (hooks Mpsc.ops multiple_producer_single_consumer values 0)
          (record {
            tables = tables;
            queue =
                construct Mpsc.ops multiple_producer_single_consumer values 0
                  (Mpsc.construct cap)
                  cap;
          })
          cs
        ≡ replies latest (record { capacity = cap; items = []; closed = false }) cs
  mpsc_history_keeps_latest f =
      keeps_latest policy Mpsc.ops multiple_producer_single_consumer values MpscReady.Ready true cap
        this (Mpsc.construct cap) role_of tables cs (MpscReady.overwrite_laws cap)
        (MpscReady.read_laws cap) (MpscReady.construct-Ready cap) positive small short plain sticks
        f

  -- For the circular queue that drops the oldest message, with one producer and many consumers: for
  -- any history, in which each thread keeps to sending or to reading and does not close or block in
  -- Read, and of fewer than 2^64 calls, on a queue just made with a positive capacity that a
  -- semaphore can count and with no spurious exchange failure, the replies are those of the
  -- abstract queue that keeps the latest messages, as many as the capacity.
  pub spmc_history_keeps_latest :
      Follows role_of (Allowed false) cs
      → run policy this
          (hooks Spmc.ops single_producer_multiple_consumer values 0)
          (record {
            tables = tables;
            queue =
                construct Spmc.ops single_producer_multiple_consumer values 0
                  (Spmc.construct cap)
                  cap;
          })
          cs
        ≡ replies latest (record { capacity = cap; items = []; closed = false }) cs
  spmc_history_keeps_latest f =
      keeps_latest policy Spmc.ops single_producer_multiple_consumer values SpmcReady.Ready false
        cap this (Spmc.construct cap) role_of tables cs (SpmcReady.overwrite_laws cap)
        (SpmcReady.read_laws cap) (SpmcReady.construct-Ready cap) positive small short plain sticks
        f

  -- For the circular queue that drops the oldest message, with many producers and many consumers:
  -- for any history, in which each thread keeps to sending or to reading and does not close or
  -- block in Read, and of fewer than 2^64 calls, on a queue just made with a positive capacity that
  -- a semaphore can count and with no spurious exchange failure, the replies are those of the
  -- abstract queue that keeps the latest messages, as many as the capacity.
  pub mpmc_history_keeps_latest :
      Follows role_of (Allowed false) cs
      → run policy this
          (hooks Mpmc.ops multiple_producer_multiple_consumer values 0)
          (record {
            tables = tables;
            queue =
                construct Mpmc.ops multiple_producer_multiple_consumer values 0
                  (Mpmc.construct cap)
                  cap;
          })
          cs
        ≡ replies latest (record { capacity = cap; items = []; closed = false }) cs
  mpmc_history_keeps_latest f =
      keeps_latest policy Mpmc.ops multiple_producer_multiple_consumer values
        (MpmcReady.ReadyOverwrite cap) false cap this (Mpmc.construct cap) role_of tables cs
        (MpmcReady.overwrite_laws cap) (MpmcReady.ReadLaws-overwrite cap)
        (MpmcReady.construct-Ready cap positive).1 positive small short plain sticks f
