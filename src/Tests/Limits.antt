-- ===== src/Tests/Limits.antt =====
-- A circular queue of capacity 2 that is closed, and one whose read meets a failed exchange.
use message_queue_practical.Prelude.{ℕ, ◌≡◌, refl, none, some, [], ◌∷◌, ok, faults, arith}
use message_queue_practical.Interface.Role.{single_producer_single_consumer}
use message_queue_practical.Circular.Queue
use message_queue_practical.Circular.Queue.{Circular, Values}
use message_queue_practical.Circular.Limits.{moved, close-store_message, spurious-read_head}
use message_queue_practical.Circular.Sync.Spsc
use message_queue_practical.Circular.Sync.Spsc.{Spsc, SendGuard, ReadGuard}

abbrev numbers : Values ℕ
numbers = record { default = 0; moved_from = λ _. 0 }

abbrev one_message : Circular Spsc SendGuard ReadGuard ℕ
one_message = record {
  sync = record { free_space = 1; occupied_space = 0 };
  buffer = 7 ∷ 0 ∷ [];
  capacity = 2;
  tail = 1;
  head = 0;
  tail_atomic = 0;
  count = 1;
  send_guard = none;
  read_guard = some Spsc.read_guard;
}

abbrev closed : Circular Spsc SendGuard ReadGuard ℕ
closed = record one_message { tail = 0; head = 0; count = 0; buffer = [] }

close-store_message_example :
    Queue.store_message Spsc.ops single_producer_single_consumer numbers 0 5 closed ≡ faults
unfolding Queue.close
close-store_message_example =
    close-store_message Spsc.ops single_producer_single_consumer numbers 0 5 one_message closed refl

spurious-read_head_example :
    (q1 : Circular Spsc SendGuard ReadGuard ℕ) × (Queue.read_head Spsc.ops
        single_producer_single_consumer numbers 1 one_message
      ≡ ok (moved numbers 1 7) q1)
spurious-read_head_example =
    spurious-read_head Spsc.ops single_producer_single_consumer numbers 1 7 one_message
      (omega arith) refl refl
