-- ===== src/MichaelScott/Refine.antt =====
-- lib/michael_scott_queue.hpp: the queue, one call after the other, against the abstract bounded queue.
use message_queue_practical.Prelude.{
  ℕ, zero, suc, ◌^◌, ◌<◌, ◌≤◌, ◌≡◌, refl, false, List, [], ok, arith, subst,
}
use message_queue_practical.Interface.Role.{DeadlockExceptionPolicy, ThreadRole, Roles}
use message_queue_practical.Interface.History.{Request, run}
use message_queue_practical.Interface.Simulation.{replies, Sticks, IsPlain, Follows, run_simulates}
use message_queue_practical.MichaelScott.Machine.{Shared}
use message_queue_practical.MichaelScott.System.{new_queue}
use message_queue_practical.MichaelScott.Consistent.{new_queue-Linked, dummy}
use message_queue_practical.MichaelScott.Queue.{hooks, construct}
use message_queue_practical.MichaelScott.Meets.{Stands, spec, michael_scott_simulation}

module _ {V : Type 0} where
  pub new_queue-Stands :
      (default : V) (capacity : ℕ)
      → capacity < 2 ^ 64
      → Stands
          (new_queue default capacity)
          (record { capacity = capacity; items = []; closed = false })
  unfolding new_queue
  new_queue-Stands default capacity small = record {
    holds = (dummy, new_queue-Linked default capacity);
    counted = refl;
    bounded_by = omega arith;
    small = small;
    same_capacity = refl;
    same_closed = refl;
    unlocked = refl;
  }

-- For any history of whole calls, one after the other, in which each thread keeps to sending or to
-- reading, on a queue just made with a capacity below 2^64, the replies are those of the abstract
-- bounded queue of that capacity: messages come out once each and in order, never more than the
-- capacity are held, a full or empty queue blocks or refuses, and after `Close` sends fail while
-- reads, `TryRead` too, drain the rest. The loop of `PopMessage` may turn two times or more, no weak compare-exchange
-- fails spuriously, and the threads have no other role on the queue at the start.
pub michael_scott_history_refines :
    {V : Type 0} (policy : DeadlockExceptionPolicy) (moved_from : V → V) (default : V)
    (tries this capacity : ℕ) (m : Shared V) (role_of : ℕ → ThreadRole) (tables : ℕ → Roles)
    (cs : List (ℕ × Request V))
    → 2 ≤ tries
    → capacity < 2 ^ 64
    → construct default capacity ≡ ok m tt
    → ((t : ℕ) → IsPlain (role_of t))
    → ((t : ℕ) → Sticks this (role_of t) (tables t))
    → Follows role_of (λ _. Unit {0}) cs
    → run policy this (hooks moved_from tries) (record { tables = tables; queue = m }) cs
      ≡ replies spec (record { capacity = capacity; items = []; closed = false }) cs
unfolding construct
michael_scott_history_refines policy moved_from default zero this capacity m role_of tables cs turns
      small made plain k f =
    absurd (omega arith)
michael_scott_history_refines policy moved_from default (suc zero) this capacity m role_of tables cs
      turns small made plain k f =
    absurd (omega arith)
michael_scott_history_refines policy moved_from default (suc (suc tries)) this capacity m role_of
      tables cs turns small made plain k f =
    run_simulates policy this (hooks moved_from (suc (suc tries))) (λ _. Stands) spec
      (λ _. Unit {0}) (michael_scott_simulation policy moved_from tries) role_of plain cs _ _ f k
      (subst (λ x. Stands x (record { capacity = capacity; items = []; closed = false })) made_is
        (new_queue-Stands default capacity small))
  where
    made_is : new_queue default capacity ≡ m
    made_is = ground arith
