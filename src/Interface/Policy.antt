-- ===== src/Interface/Policy.antt =====
-- lib/message_queue_interface.hpp: what accounting for a call does to the roles and to the queue.
use message_queue_practical.Prelude.{
  ℕ, ◌≡◌, ◌≢◌, ◌⊎◌, inl, inr, refl, queue_error, ok, throws, arith, Option-cases, Bool-cases, some,
  false,
}
use message_queue_practical.Interface.Role.{
  DeadlockExceptionPolicy, on_thread_role_change, on_deadlock, no_exception, ThreadRole, producer,
  consumer, both, no_info, same_role, Roles, assign, get_thread_role,
}
use message_queue_practical.Interface.Call
use message_queue_practical.Interface.Call.{Hooks, Object, account_threads}
use message_queue_practical.Interface.History.{
  Request, send, try_send, read, try_read, size, empty, close, perform,
}
use message_queue_practical.Interface.Simulation.{IsPlain}
use message_queue_practical.Interface.Role.Laws.{get_thread_role-assign}

-- Accounting succeeds or throws, and touches nothing but the roles.
abbrev pub Accounts :
    {S : Type 0} → DeadlockExceptionPolicy → ℕ → ThreadRole → Object S → Roles → Type 0
Accounts policy this r o roles =
    (account_threads policy this r o ≡ ok tt (record o { roles = roles }))
    ⊎ (account_threads policy this r o
        ≡ throws (queue_error "Thread role is changed") (record o { roles = roles }))

module _ {S : Type 0} (this : ℕ) (r : ThreadRole) (o : Object S) where
  -- With a role on the queue already.
  Accounts-again :
      (policy : DeadlockExceptionPolicy) (x : ThreadRole)
      → x ≢ no_info
      → o.roles this ≡ some x
      → (roles : Roles) × Accounts policy this r o roles
  unfolding account_threads
  Accounts-again on_thread_role_change x n e = elim (Bool-cases (same_role x r)) [
    | inl f ↦ (o.roles, inl (ground arith))
    | inr f ↦ (o.roles, inr (ground arith))
  ]
  Accounts-again on_deadlock x n e = elim (Bool-cases (same_role x r)) [
    | inl f ↦ (o.roles, inl (ground arith))
    | inr f ↦ (assign this both o.roles, inl (ground arith))
  ]
  Accounts-again no_exception x n e = elim (Bool-cases (same_role x r)) [
    | inl f ↦ (o.roles, inl (ground arith))
    | inr f ↦ (assign this both o.roles, inl (ground arith))
  ]

  pub accounts :
      (policy : DeadlockExceptionPolicy) → (roles : Roles) × Accounts policy this r o roles
  unfolding account_threads
  accounts policy = elim (Option-cases (o.roles this)) [
    | inl e ↦ (assign this r (assign this no_info o.roles), inl (ground arith))
    | inr (no_info, e) ↦ (assign this r o.roles, inl (ground arith))
    | inr (producer, e) ↦ Accounts-again policy producer (λ f. absurd (cc f)) e
    | inr (consumer, e) ↦ Accounts-again policy consumer (λ f. absurd (cc f)) e
    | inr (both, e) ↦ Accounts-again policy both (λ f. absurd (cc f)) e
  ]

  -- A second role makes it both, under the policy that throws on a deadlock only.
  pub accounts_change :
      (x : ThreadRole)
      → x ≢ no_info
      → o.roles this ≡ some x
      → same_role x r ≡ false
      → account_threads on_deadlock this r o ≡ ok tt (record o { roles = assign this both o.roles })
  unfolding account_threads
  accounts_change x n e f = ground arith

  -- Under the policy that throws on a change, no thread gets both roles.
  Accounts-strict :
      IsPlain r
      → get_thread_role this o.roles ≢ both
      → (roles : Roles) × Accounts on_thread_role_change this r o roles
        × (get_thread_role this roles ≢ both)
  unfolding account_threads
  Accounts-strict p h = elim (Option-cases (o.roles this)) [
    | inl e ↦ (
      assign this r (assign this no_info o.roles),
      inl (ground arith),
      ground (arith, get_thread_role-assign this r (assign this no_info o.roles)),
    )
    | inr (no_info, e) ↦ (
      assign this r o.roles,
      inl (ground arith),
      ground (arith, get_thread_role-assign this r o.roles),
    )
    | inr (producer, e) ↦ (o.roles, ground arith, h)
    | inr (consumer, e) ↦ (o.roles, ground arith, h)
    | inr (both, e) ↦ absurd (ground arith)
  ]

module _ {S V : Type 0} (this : ℕ) (hooks : Hooks S V) where
  abbrev KeepsOne : Object S → Request V → Type 0
  KeepsOne o r = get_thread_role this (perform on_thread_role_change this hooks o r).1.roles ≢ both

  one_role_send : (v : V) (o : Object S) → get_thread_role this o.roles ≢ both → KeepsOne o (send v)
  unfolding perform Call.check_send
  one_role_send v o h =
      let (roles, e, k) = Accounts-strict this producer o (inl refl) h in ground arith

  one_role_try_send :
      (v : V) (o : Object S) → get_thread_role this o.roles ≢ both → KeepsOne o (try_send v)
  unfolding perform Call.check_send
  one_role_try_send v o h =
      let (roles, e, k) = Accounts-strict this producer o (inl refl) h in ground arith

  one_role_read : (o : Object S) → get_thread_role this o.roles ≢ both → KeepsOne o read
  unfolding perform Call.check_read
  one_role_read o h =
      let (roles, e, k) = Accounts-strict this consumer o (inr refl) h in ground arith

  one_role_try_read : (o : Object S) → get_thread_role this o.roles ≢ both → KeepsOne o try_read
  unfolding perform Call.check_read
  one_role_try_read o h =
      let (roles, e, k) = Accounts-strict this consumer o (inr refl) h in ground arith

  -- Under the policy that throws on a role change, a thread that is not yet both producer and
  -- consumer of a queue is not made both by any call, however the queue's functions end.
  pub strict_policy_keeps_one_role :
      (o : Object S) (r : Request V)
      → get_thread_role this o.roles ≢ both
      → get_thread_role this (perform on_thread_role_change this hooks o r).1.roles ≢ both
  unfolding perform
  strict_policy_keeps_one_role o (send v) h = one_role_send v o h
  strict_policy_keeps_one_role o (try_send v) h = one_role_try_send v o h
  strict_policy_keeps_one_role o read h = one_role_read o h
  strict_policy_keeps_one_role o try_read h = one_role_try_read o h
  strict_policy_keeps_one_role o size h = ground arith
  strict_policy_keeps_one_role o empty h = ground arith
  strict_policy_keeps_one_role o close h = ground arith
