-- ===== src/Interface/Simulation.antt =====
-- Queues against abstract ones. `bare` is a call by a thread that keeps to one role: the virtual
-- functions alone, in the order of `Send`, `TrySend`, `Read` and `TryRead`.
use message_queue_practical.Prelude.{
  ℕ, suc, length, ◌≡◌, ◌⊎◌, inl, inr, Option-cases, refl, subst, sym, ◌∙◌, ap₂, Bool, true, false,
  Option, none, some, List, [], ◌∷◌, M, ◌>>=◌, ◌>>◌, pure, done, ok, when◌then◌else◌, arith,
}
use message_queue_practical.Interface.Role.{
  DeadlockExceptionPolicy, ThreadRole, producer, consumer, both, no_info, Roles, assign,
  get_thread_role,
}
use message_queue_practical.Interface.Role.Laws.{get_thread_role-assign}
use message_queue_practical.Interface.Call.{
  Hooks, Object, on_queue, handle_deadlock, account_threads, check_send, check_read,
}
use message_queue_practical.Interface.History.{
  Request, send, try_send, read, try_read, size, empty, close, Reply, returned, flag, value, option,
  number, settle, Fits, perform, update_pointwise, World, step, run,
}

module _ {ℓ κ} {S : Type ℓ} {V : Type κ} (policy : DeadlockExceptionPolicy)
    (hooks : Hooks S V) where
  open hooks use {
    check_send_deadlock_possibility, sync_and_overflow_prework, try_sync_and_overflow_prework,
    store_message, send_postwork, check_read_deadlock_possibility, sync_and_underflow_prework,
    try_sync_and_underflow_prework, pop_message, read_postwork,
  }

  unfoldable pub bare_send : V → M S (Unit {0})
  unfolding handle_deadlock
  bare_send v = do
    deadlock ← check_send_deadlock_possibility false
    when deadlock then handle_deadlock policy else done
    sync_and_overflow_prework
    store_message v
    send_postwork

  unfoldable pub bare_try_send : V → M S Bool
  bare_try_send v = do
    deadlock ← check_send_deadlock_possibility false
    entered ← when deadlock then pure false else try_sync_and_overflow_prework
    when entered then (do store_message v; send_postwork; pure true) else pure false

  unfoldable pub bare_read : M S V
  unfolding handle_deadlock
  bare_read = do
    deadlock ← check_read_deadlock_possibility false
    when deadlock then handle_deadlock policy else done
    sync_and_underflow_prework
    message ← pop_message
    read_postwork
    pure message

  unfoldable pub bare_try_read : M S (Option V)
  bare_try_read = do
    deadlock ← check_read_deadlock_possibility false
    entered ← when deadlock then pure false else try_sync_and_underflow_prework
    when entered then (do message ← pop_message; read_postwork; pure (some message)) else pure none

  unfoldable pub bare : S → Request V → Reply V × S
  unfolding bare_send bare_try_send bare_read bare_try_read
  bare s (send v) = settle (λ _. returned) s (bare_send v s)
  bare s (try_send v) = settle flag s (bare_try_send v s)
  bare s read = settle value s (bare_read s)
  bare s try_read = settle option s (bare_try_read s)
  bare s size = settle number s (hooks.size s)
  bare s empty = settle flag s (hooks.empty s)
  bare s close = settle (λ _. returned) s (hooks.close s)

-- The thread of this table has shown no role on `this`, or the role `r`.
abbrev pub Sticks : ℕ → ThreadRole → Roles → Type 0
Sticks this r roles = (get_thread_role this roles ≡ no_info) ⊎ (get_thread_role this roles ≡ r)

abbrev pub IsPlain : ThreadRole → Type 0
IsPlain r = (r ≡ producer) ⊎ (r ≡ consumer)

module _ {ℓ κ} {S : Type ℓ} {V : Type κ} (policy : DeadlockExceptionPolicy) (this : ℕ)
    (hooks : Hooks S V) where
  account_plain :
      (r : ThreadRole) (o : Object S)
      → IsPlain r
      → Sticks this r o.roles
      → (roles : Roles) × (account_threads policy this r o ≡ ok tt (record o { roles = roles }))
        × (get_thread_role this roles ≡ r)
  unfolding account_threads
  account_plain r o p k = elim (Option-cases (o.roles this)) [
    | inl e ↦ (
      assign this r (assign this no_info o.roles),
      ground arith,
      get_thread_role-assign this r (assign this no_info o.roles),
    )
    | inr (no_info, e) ↦
        (assign this r o.roles, ground arith, get_thread_role-assign this r o.roles)
    | inr (producer, e) ↦ (o.roles, ground arith, ground arith)
    | inr (consumer, e) ↦ (o.roles, ground arith, ground arith)
    | inr (both, e) ↦ (o.roles, ground arith, ground arith)
  ]

  check_send_plain :
      (r : ThreadRole) (o : Object S)
      → IsPlain r
      → get_thread_role this o.roles ≡ r
      → check_send policy this hooks o ≡ on_queue (hooks.check_send_deadlock_possibility false) o
  unfolding check_send
  check_send_plain r o p e = ground arith

  check_read_plain :
      (r : ThreadRole) (o : Object S)
      → IsPlain r
      → get_thread_role this o.roles ≡ r
      → check_read policy this hooks o ≡ on_queue (hooks.check_read_deadlock_possibility false) o
  unfolding check_read
  check_read_plain r o p e = ground arith

  perform-bare :
      (r : ThreadRole) (o : Object S) (c : Request V)
      → IsPlain r
      → Fits r c
      → Sticks this r o.roles
      → let (reply, o') = perform policy this hooks o c in
        let (reply', s') = bare policy hooks o.queue c in
        (reply ≡ reply') × (o'.queue ≡ s') × Sticks this r o'.roles
  unfolding perform bare
  perform-bare r o (send v) p f k =
      let (roles, e, g) = account_plain r o p k in
      ground (arith, check_send_plain r (record o { roles = roles }) p)
  perform-bare r o (try_send v) p f k =
      let (roles, e, g) = account_plain r o p k in
      ground (arith, check_send_plain r (record o { roles = roles }) p)
  perform-bare r o read p f k =
      let (roles, e, g) = account_plain r o p k in
      ground (arith, check_read_plain r (record o { roles = roles }) p)
  perform-bare r o try_read p f k =
      let (roles, e, g) = account_plain r o p k in
      ground (arith, check_read_plain r (record o { roles = roles }) p)
  perform-bare r o size p f k = ground arith
  perform-bare r o empty p f k = ground arith
  perform-bare r o close p f k = ground arith

-- A queue seen as an abstract one: `Stands n s q` says that the state `s` stands for `q`, and has
-- room in its counters for `n` more calls; `spec` is what a call does to the abstract queue.
-- `Allowed` limits the calls.
pub record Simulation {ℓ κ μ ν} {S : Type ℓ} {V : Type κ} {Q : Type μ}
    (policy : DeadlockExceptionPolicy) (hooks : Hooks S V) (Stands : ℕ → S → Q → Type ν)
    (spec : Q → Request V → Reply V × Q) (Allowed : Request V → Type 0) : Type (ℓ ⊔ κ ⊔ μ ⊔ ν) where
  pub simulates :
      (n : ℕ) (s : S) (q : Q) (c : Request V)
      → Allowed c
      → Stands (suc n) s q
      → ((bare policy hooks s c).0 ≡ (spec q c).0) × Stands n (bare policy hooks s c).1 (spec q c).1

-- The replies of an abstract queue to a history.
unfoldable pub replies {κ μ} :
    {V : Type κ} {Q : Type μ}
    → (Q → Request V → Reply V × Q)
    → Q
    → List (ℕ × Request V)
    → List (Reply V)
replies spec q [] = []
replies spec q ((t, c) ∷ cs) = let (r, q') = spec q c in r ∷ replies spec q' cs

-- Every thread keeps to the role that `role_of` gives it, and makes allowed calls only.
abbrev pub Follows {κ} :
    {V : Type κ} → (ℕ → ThreadRole) → (Request V → Type 0) → List (ℕ × Request V) → Type 0
Follows role_of Allowed [] = Unit
Follows role_of Allowed ((t, c) ∷ cs) = Fits (role_of t) c × Allowed c × Follows role_of Allowed cs

module _ {ℓ κ μ ν} {S : Type ℓ} {V : Type κ} {Q : Type μ} (policy : DeadlockExceptionPolicy)
    (this : ℕ) (hooks : Hooks S V) (Stands : ℕ → S → Q → Type ν)
    (spec : Q → Request V → Reply V × Q) (Allowed : Request V → Type 0)
    (simulation : Simulation policy hooks Stands spec Allowed) (role_of : ℕ → ThreadRole)
    (plain : (t : ℕ) → IsPlain (role_of t)) where
  open simulation use {simulates}

  pub step_simulates :
      (n : ℕ) (w : World S) (q : Q) (t : ℕ) (c : Request V)
      → Fits (role_of t) c
      → Allowed c
      → ((u : ℕ) → Sticks this (role_of u) (w.tables u))
      → Stands (suc n) w.queue q
      → ((step policy this hooks w t c).0 ≡ (spec q c).0)
        × Stands n (step policy this hooks w t c).1.queue (spec q c).1
        × ((u : ℕ) → Sticks this (role_of u) ((step policy this hooks w t c).1.tables u))
  unfolding step
  step_simulates n w q t c f a k h =
      let o : Object S = record { roles = w.tables t; queue = w.queue } in
      let (same, after, sticks) =
        perform-bare policy this hooks (role_of t) o c (plain t) f (k t) in
      let (reply, stands) = simulates n w.queue q c a h in
      (
        same ∙ reply,
        subst (λ s. Stands n s (spec q c).1) (sym after) stands,
        update_pointwise (λ u. Sticks this (role_of u)) w.tables t _ sticks k,
      )

  -- The replies of a queue to any such history are those of the abstract queue.
  pub run_simulates :
      (cs : List (ℕ × Request V)) (w : World S) (q : Q)
      → Follows role_of Allowed cs
      → ((u : ℕ) → Sticks this (role_of u) (w.tables u))
      → Stands (length cs) w.queue q
      → run policy this hooks w cs ≡ replies spec q cs
  unfolding run replies
  run_simulates [] w q f k h = refl
  run_simulates ((t, c) ∷ cs) w q f k h =
      let (reply, stands, sticks) = step_simulates (length cs) w q t c f.0 f.1 k h in
      ap₂ ◌∷◌ reply (run_simulates cs _ _ f.2 sticks stands)
