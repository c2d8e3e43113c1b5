-- ===== src/Interface/Call.antt =====
-- lib/message_queue_interface.hpp: `AccountThreads`, `HandleDeadlock`, the preworks and the public
-- calls, over the virtual functions of a queue.
use message_queue_practical.Prelude.{
  ℕ, Bool, true, false, Option, none, some, queue_error, ok, throws, blocks, faults, M, ◌>>=◌, ◌>>◌,
  pure, done, if◌then◌else◌, when◌then◌else◌,
}
use message_queue_practical.Interface.Role.{
  DeadlockExceptionPolicy, on_thread_role_change, on_deadlock, no_exception, ThreadRole, producer,
  consumer, both, no_info, same_role, Roles, assign, current_thread_role, get_thread_role,
  is_both_role,
}

-- The virtual functions. The two deadlock checks take the result of `IsBothRole()`.
pub record Hooks {ℓ κ} (S : Type ℓ) (V : Type κ) : Type (ℓ ⊔ κ) where
  pub check_send_deadlock_possibility : Bool → M S Bool
  pub sync_and_overflow_prework : M S (Unit {0})
  pub try_sync_and_overflow_prework : M S Bool
  pub store_message : V → M S (Unit {0})
  pub send_postwork : M S (Unit {0})
  pub check_read_deadlock_possibility : Bool → M S Bool
  pub sync_and_underflow_prework : M S (Unit {0})
  pub try_sync_and_underflow_prework : M S Bool
  pub pop_message : M S V
  pub read_postwork : M S (Unit {0})
  pub size : M S ℕ
  pub empty : M S Bool
  pub close : M S (Unit {0})

-- What a call of one thread sees: the thread's roles, and the queue.
pub record Object {ℓ} (S : Type ℓ) : Type ℓ where
  pub roles : Roles
  pub queue : S

abbrev pub on_queue {ℓ κ} : {S : Type ℓ} {A : Type κ} → M S A → M (Object S) A
on_queue m o = elim (m o.queue) [
  | ok a q ↦ ok a (record o { queue = q })
  | throws e q ↦ throws e (record o { queue = q })
  | blocks q ↦ blocks (record o { queue = q })
  | faults ↦ faults
]

-- An exception of `AccountThreads` comes before anything is done to the queue.
change_role {ℓ} : {S : Type ℓ} → DeadlockExceptionPolicy → ℕ → M (Object S) (Unit {0})
change_role on_thread_role_change this o = throws (queue_error "Thread role is changed") o
change_role _ this o = ok tt (record o { roles = assign this both o.roles })

unfoldable pub account_threads {ℓ} :
    {S : Type ℓ} → DeadlockExceptionPolicy → ℕ → ThreadRole → M (Object S) (Unit {0})
unfolding change_role current_thread_role get_thread_role
account_threads policy this role o =
    let current = get_thread_role this o.roles in
    let o' = record o { roles = current_thread_role this o.roles } in
    if same_role current no_info
    then ok tt (record o { roles = assign this role o'.roles })
    else if same_role current role
    then ok tt o'
    else change_role policy this o'

unfoldable pub handle_deadlock {ℓ} : {S : Type ℓ} → DeadlockExceptionPolicy → M S (Unit {0})
handle_deadlock no_exception o = ok tt o
handle_deadlock on_thread_role_change o = throws (queue_error "Deadlock detected") o
handle_deadlock on_deadlock o = throws (queue_error "Deadlock detected") o

module _ {ℓ κ} {S : Type ℓ} {V : Type κ} (policy : DeadlockExceptionPolicy) (this : ℕ)
    (hooks : Hooks S V) where
  open hooks use {
    check_send_deadlock_possibility, sync_and_overflow_prework, try_sync_and_overflow_prework,
    store_message, send_postwork, check_read_deadlock_possibility, sync_and_underflow_prework,
    try_sync_and_underflow_prework, pop_message, read_postwork,
  }

  unfoldable pub check_send : M (Object S) Bool
  unfolding is_both_role
  check_send o = on_queue (check_send_deadlock_possibility (is_both_role this o.roles)) o

  unfoldable pub check_read : M (Object S) Bool
  unfolding is_both_role
  check_read o = on_queue (check_read_deadlock_possibility (is_both_role this o.roles)) o

  unfoldable pub send_prework : M (Object S) (Unit {0})
  unfolding handle_deadlock
  send_prework = do
    account_threads policy this producer
    deadlock ← check_send
    when deadlock then handle_deadlock policy else done
    on_queue sync_and_overflow_prework

  unfoldable pub try_send_prework : M (Object S) Bool
  try_send_prework = do
    account_threads policy this producer
    deadlock ← check_send
    when deadlock then pure false else on_queue try_sync_and_overflow_prework

  unfoldable pub read_prework : M (Object S) (Unit {0})
  unfolding handle_deadlock
  read_prework = do
    account_threads policy this consumer
    deadlock ← check_read
    when deadlock then handle_deadlock policy else done
    on_queue sync_and_underflow_prework

  unfoldable pub try_read_prework : M (Object S) Bool
  try_read_prework = do
    account_threads policy this consumer
    deadlock ← check_read
    when deadlock then pure false else on_queue try_sync_and_underflow_prework

  -- The overloads for `ValueType&&` and `const ValueType&` differ in what is left in the argument.
  unfoldable pub send : V → M (Object S) (Unit {0})
  unfolding send_prework
  send message = do send_prework; on_queue (store_message message); on_queue send_postwork

  unfoldable pub try_send : V → M (Object S) Bool
  unfolding try_send_prework
  try_send message = do
    entered ← try_send_prework
    when entered
        then (do on_queue (store_message message); on_queue send_postwork; pure true)
        else pure false

  unfoldable pub read : M (Object S) V
  unfolding read_prework
  read = do read_prework; message ← on_queue pop_message; on_queue read_postwork; pure message

  unfoldable pub try_read : M (Object S) (Option V)
  unfolding try_read_prework
  try_read = do
    entered ← try_read_prework
    when entered
        then (do message ← on_queue pop_message; on_queue read_postwork; pure (some message))
        else pure none
