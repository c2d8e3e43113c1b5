-- ===== src/Circular/Semaphore.antt =====
-- lib/circular/impl/semaphore.hpp: `QueueCountingSemaphore`, a `std::counting_semaphore` with the
-- greatest `int` as its bound, and `std::mutex`. `try_acquire` and `try_lock` do not fail for no
-- reason here, as the standard would let them.
use message_queue_practical.Prelude.{
  ℕ, ◌+◌, ◌-◌, ◌^◌, Bool, true, false, ok, blocks, faults, M, modify, leb, ◌==◌, when◌then◌else◌,
}

-- The counter of the semaphore.
abbrev pub Semaphore : Type 0
Semaphore = ℕ

-- `std::numeric_limits<int>::max()`
abbrev pub max_count : ℕ
max_count = 2 ^ 31 - 1

unfoldable pub acquire : M Semaphore (Unit {0})
acquire n = (when n == 0 then blocks else modify (λ m. m - 1)) n

unfoldable pub try_acquire : M Semaphore Bool
try_acquire n = (when n == 0 then ok false else (λ m. ok true (m - 1))) n

-- To release beyond the bound is undefined.
unfoldable pub release : M Semaphore (Unit {0})
release n = (when leb max_count n then (λ _. faults) else modify (λ m. m + 1)) n

-- `true`: the mutex is held.
abbrev pub Mutex : Type 0
Mutex = Bool

unfoldable pub lock : M Mutex (Unit {0})
lock held = (when held then blocks else (λ _. ok tt true)) held

unfoldable pub try_lock : M Mutex Bool
try_lock held = (when held then ok false else (λ _. ok true true)) held

unfoldable pub unlock : M Mutex (Unit {0})
unlock held = ok tt false
