-- ===== src/Tests/Roles.antt =====
-- Roles of a thread on the queues 1, 2 and 3, and calls under the policies.
use message_queue_practical.Prelude.{
  ◌⊎◌, true, ℕ, ◌≡◌, ◌≢◌, refl, false, some, none, [], ◌∷◌, List, arith, queue_error, ◌==◌,
  if◌then◌else◌,
}
use message_queue_practical.Interface.Role.{
  Roles, ThreadRole, both, producer, assign, get_thread_role, copy_assign, move_assign,
  on_thread_role_change, on_deadlock, single_producer_single_consumer,
}
use message_queue_practical.Interface.Role.Laws.{copy_assign_lem, move_assign_lem, IsMoved}
use message_queue_practical.Interface.History.{
  send, try_send, read, try_read, raised, flag, option, perform,
}
use message_queue_practical.Interface.Policy.{strict_policy_keeps_one_role}
use message_queue_practical.Deque.{Deque, Container, hooks}
use message_queue_practical.Deque.Deadlock.{full_deadlock, empty_deadlock}

abbrev table : Roles
table p = if p == 1 then some producer else if p == 2 then some both else none

copy_assign_example :
    get_thread_role 1 (copy_assign 1 2 table)
    ≡ (if 1 == 1 then get_thread_role 2 table else get_thread_role 1 table)
copy_assign_example = copy_assign_lem 1 2 table 1

move_assign_example :
    ((r : ThreadRole) × (table 2 ≡ some r) × (false ≡ true) × (move_assign false 1 2 table ≡ none))
    ⊎ (((table 2 ≡ none) ⊎ (false ≡ false))
        × (roles' : Roles) × (move_assign false 1 2 table ≡ some roles')
        × IsMoved 1 2 table roles')
move_assign_example = move_assign_lem false 1 2 table (λ e. absurd (omega arith))

-- A container that refuses the message 13, and a message 14 that cannot be moved.
abbrev picky : Container ℕ
picky = record { push_back_throws = λ _ v. v == 13; move_throws = λ v. v == 14 }

abbrev holding : List ℕ → ℕ → ℕ → Deque ℕ
holding items free used = record {
  locked = false;
  capacity = 2;
  free = free;
  used = used;
  buffer = items;
  closed = false;
}

strict_policy_keeps_one_role_example :
    get_thread_role 1
      (perform on_thread_role_change 1
        (hooks single_producer_single_consumer picky)
        (record { roles = table; queue = holding (14 ∷ []) 1 1 })
        read).1.roles
    ≢ both
unfolding get_thread_role
strict_policy_keeps_one_role_example =
    strict_policy_keeps_one_role 1 (hooks single_producer_single_consumer picky)
      (record { roles = table; queue = holding (14 ∷ []) 1 1 }) read (λ e. absurd (cc e))

full_deadlock_example :
    (perform on_deadlock 2
        (hooks single_producer_single_consumer picky)
        (record { roles = table; queue = holding (4 ∷ 5 ∷ []) 0 2 })
        (send 6)
      ≡ (
        raised (queue_error "Deadlock detected"),
        record { roles = assign 2 both table; queue = holding (4 ∷ 5 ∷ []) 0 2 },
      ))
    × (perform on_deadlock 2
          (hooks single_producer_single_consumer picky)
          (record { roles = table; queue = holding (4 ∷ 5 ∷ []) 0 2 })
          (try_send 6)
        ≡ (flag false, record { roles = assign 2 both table; queue = holding (4 ∷ 5 ∷ []) 0 2 }))
full_deadlock_example =
    full_deadlock 2 single_producer_single_consumer picky
      (record { roles = table; queue = holding (4 ∷ 5 ∷ []) 0 2 })
      (record { unlocked = refl; counted = refl; room = refl; small = omega arith }) refl 6 refl
      refl

empty_deadlock_example :
    (perform on_deadlock 2
        (hooks single_producer_single_consumer picky)
        (record { roles = table; queue = holding [] 2 0 })
        read
      ≡ (
        raised (queue_error "Deadlock detected"),
        record { roles = assign 2 both table; queue = holding [] 2 0 },
      ))
    × (perform on_deadlock 2
          (hooks single_producer_single_consumer picky)
          (record { roles = table; queue = holding [] 2 0 })
          try_read
        ≡ (option none, record { roles = assign 2 both table; queue = holding [] 2 0 }))
empty_deadlock_example =
    empty_deadlock 2 single_producer_single_consumer picky
      (record { roles = table; queue = holding [] 2 0 })
      (record { unlocked = refl; counted = refl; room = refl; small = omega arith }) refl refl refl
