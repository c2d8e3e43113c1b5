-- ===== src/Tests/Circular.antt =====
-- Runs of the circular queues of capacity 2.
use message_queue_practical.Prelude.{ℕ, ◌≡◌, false, [], arith}
use message_queue_practical.Interface.Role.{
  single_producer_single_consumer, multiple_producer_single_consumer,
  single_producer_multiple_consumer, multiple_producer_multiple_consumer, on_deadlock,
}
use message_queue_practical.Interface.History.{run}
use message_queue_practical.Interface.Simulation.{replies}
use message_queue_practical.Spec.Latest.{latest}
use message_queue_practical.Circular.Queue.{Values, construct}
use message_queue_practical.Circular.Bounded
use message_queue_practical.Circular.Bounded.Refine.{spec}
use message_queue_practical.Circular.Bounded.Histories as BoundedHistories
use message_queue_practical.Circular.Overwrite
use message_queue_practical.Circular.Overwrite.Histories as OverwriteHistories
use message_queue_practical.Circular.Sync.Spsc
use message_queue_practical.Circular.Sync.Mpsc
use message_queue_practical.Circular.Sync.Spmc
use message_queue_practical.Circular.Sync.Mpmc
use message_queue_practical.Tests.Common.{
  role_of, role_of-IsPlain, fresh, fresh-Sticks, calls, blocking_calls,
}

abbrev numbers : Values ℕ
numbers = record { default = 0; moved_from = λ _. 0 }

spsc_history_refines_example :
    run on_deadlock 9
      (Bounded.hooks Spsc.ops single_producer_single_consumer numbers 0)
      (record {
        tables = fresh;
        queue = construct Spsc.ops single_producer_single_consumer numbers 0 (Spsc.construct 2) 2;
      })
      blocking_calls
    ≡ replies spec (record { capacity = 2; items = []; closed = false }) blocking_calls
spsc_history_refines_example =
    BoundedHistories.spsc_history_refines on_deadlock numbers 9 2 role_of fresh blocking_calls
      (omega arith) (omega arith) (omega arith) role_of-IsPlain (fresh-Sticks 9) (ground arith)

mpsc_history_refines_example :
    run on_deadlock 9
      (Bounded.hooks Mpsc.ops multiple_producer_single_consumer numbers 0)
      (record {
        tables = fresh;
        queue = construct Mpsc.ops multiple_producer_single_consumer numbers 0 (Mpsc.construct 2) 2;
      })
      blocking_calls
    ≡ replies spec (record { capacity = 2; items = []; closed = false }) blocking_calls
mpsc_history_refines_example =
    BoundedHistories.mpsc_history_refines on_deadlock numbers 9 2 role_of fresh blocking_calls
      (omega arith) (omega arith) (omega arith) role_of-IsPlain (fresh-Sticks 9) (ground arith)

spmc_history_refines_example :
    run on_deadlock 9
      (Bounded.hooks Spmc.ops single_producer_multiple_consumer numbers 0)
      (record {
        tables = fresh;
        queue = construct Spmc.ops single_producer_multiple_consumer numbers 0 (Spmc.construct 2) 2;
      })
      calls
    ≡ replies spec (record { capacity = 2; items = []; closed = false }) calls
spmc_history_refines_example =
    BoundedHistories.spmc_history_refines on_deadlock numbers 9 2 role_of fresh calls (omega arith)
      (omega arith) (omega arith) role_of-IsPlain (fresh-Sticks 9) (ground arith)

mpmc_history_refines_example :
    run on_deadlock 9
      (Bounded.hooks Mpmc.ops multiple_producer_multiple_consumer numbers 0)
      (record {
        tables = fresh;
        queue =
            construct Mpmc.ops multiple_producer_multiple_consumer numbers 0 (Mpmc.construct 2) 2;
      })
      blocking_calls
    ≡ replies spec (record { capacity = 2; items = []; closed = false }) blocking_calls
mpmc_history_refines_example =
    BoundedHistories.mpmc_history_refines on_deadlock numbers 9 2 role_of fresh blocking_calls
      (omega arith) (omega arith) (omega arith) role_of-IsPlain (fresh-Sticks 9) (ground arith)

spsc_history_keeps_latest_example :
    run on_deadlock 9
      (Overwrite.hooks Spsc.ops single_producer_single_consumer numbers 0)
      (record {
        tables = fresh;
        queue = construct Spsc.ops single_producer_single_consumer numbers 0 (Spsc.construct 2) 2;
      })
      blocking_calls
    ≡ replies latest (record { capacity = 2; items = []; closed = false }) blocking_calls
spsc_history_keeps_latest_example =
    OverwriteHistories.spsc_history_keeps_latest on_deadlock numbers 9 2 role_of fresh
      blocking_calls (omega arith) (omega arith) (omega arith) role_of-IsPlain (fresh-Sticks 9)
      (ground arith)

mpsc_history_keeps_latest_example :
    run on_deadlock 9
      (Overwrite.hooks Mpsc.ops multiple_producer_single_consumer numbers 0)
      (record {
        tables = fresh;
        queue = construct Mpsc.ops multiple_producer_single_consumer numbers 0 (Mpsc.construct 2) 2;
      })
      blocking_calls
    ≡ replies latest (record { capacity = 2; items = []; closed = false }) blocking_calls
mpsc_history_keeps_latest_example =
    OverwriteHistories.mpsc_history_keeps_latest on_deadlock numbers 9 2 role_of fresh
      blocking_calls (omega arith) (omega arith) (omega arith) role_of-IsPlain (fresh-Sticks 9)
      (ground arith)

spmc_history_keeps_latest_example :
    run on_deadlock 9
      (Overwrite.hooks Spmc.ops single_producer_multiple_consumer numbers 0)
      (record {
        tables = fresh;
        queue = construct Spmc.ops single_producer_multiple_consumer numbers 0 (Spmc.construct 2) 2;
      })
      calls
    ≡ replies latest (record { capacity = 2; items = []; closed = false }) calls
spmc_history_keeps_latest_example =
    OverwriteHistories.spmc_history_keeps_latest on_deadlock numbers 9 2 role_of fresh calls
      (omega arith) (omega arith) (omega arith) role_of-IsPlain (fresh-Sticks 9) (ground arith)

mpmc_history_keeps_latest_example :
    run on_deadlock 9
      (Overwrite.hooks Mpmc.ops multiple_producer_multiple_consumer numbers 0)
      (record {
        tables = fresh;
        queue =
            construct Mpmc.ops multiple_producer_multiple_consumer numbers 0 (Mpmc.construct 2) 2;
      })
      calls
    ≡ replies latest (record { capacity = 2; items = []; closed = false }) calls
mpmc_history_keeps_latest_example =
    OverwriteHistories.mpmc_history_keeps_latest on_deadlock numbers 9 2 role_of fresh calls
      (omega arith) (omega arith) (omega arith) role_of-IsPlain (fresh-Sticks 9) (ground arith)
