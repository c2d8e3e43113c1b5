-- ===== src/MichaelScott/System.antt =====
-- lib/michael_scott_queue.hpp: any number of threads inside stores and pops, interleaved in any
-- order, and the abstract queue that they share.
use message_queue_practical.Prelude.{
  ℕ, ◌≡◌, Bool, true, false, none, List, [], ◌∷◌, Outcome, ok, throws, blocks, faults, M,
  if◌then◌else◌, ◌==◌, ◌>>◌,
}
use message_queue_practical.Interface.History.{update}
use message_queue_practical.MichaelScott.Machine.{
  Shared, Attempts, Pc, idle, missed, pop_load_head, store_allocate, stored, popped, step,
}
use message_queue_practical.MichaelScott.Local.{Phase, nothing, has_put, has_taken}
use message_queue_practical.MichaelScott.Progress.{Effect}

-- The constructor, for a capacity that is not 0: one dummy node, at address 0.
unfoldable pub new_queue : {V : Type 0} → V → ℕ → Shared V
new_queue default capacity = record {
  cells = λ a. record { value = default; next = none; live = if a == 0 then true else false };
  fresh = 1;
  head = 0;
  tail = 0;
  retired = [];
  retired_locked = false;
  current_size = 0;
  capacity = capacity;
  closed = false;
  cas_retries = 0;
  successful_operations = 0;
}

pub record System (V : Type 0) : Type 0 where
  pub shared : Shared V
  pub threads : ℕ → Pc V

-- A new queue, and no thread in a call.
abbrev pub at_start : {V : Type 0} → V → ℕ → System V
at_start default capacity = record { shared = new_queue default capacity; threads = λ u. idle }

-- `StoreInternal` is a store with no limit, and `TryStoreInternal` one with 64 attempts.
pub data Call (V : Type 0) : Type 0 where
  store : V → Attempts → Call V
  pop : Call V

-- A thread begins a call, or makes a step, whose weak compare-exchange may fail.
pub data Turn (V : Type 0) : Type 0 where
  begin : (thread : ℕ) → Call V → Turn V
  advance : (thread : ℕ) → (spurious : Bool) → Turn V

abbrev pub entry : {V : Type 0} → Call V → Pc V
entry (store v k) = store_allocate v k
entry pop = pop_load_head

-- Between calls.
abbrev pub is_done : {V : Type 0} → Pc V → Bool
is_done idle = true
is_done missed = true
is_done (stored v b) = true
is_done (popped v) = true
is_done _ = false

module _ {V : Type 0} (moved_from : V → V) where
  move_on : ℕ → System V → Outcome (Shared V) (Pc V) → Outcome (System V) (Unit {0})
  move_on u s (ok pc m) = ok tt (record { shared = m; threads = update s.threads u pc })
  move_on u s (throws e m) = throws e (record s { shared = m })
  move_on u s (blocks m) = blocks (record s { shared = m })
  move_on u s faults = faults

  -- A thread inside a call begins no other.
  unfoldable pub turn : Turn V → M (System V) (Unit {0})
  unfolding move_on
  turn (begin u c) s =
      ok tt
        (if is_done (s.threads u) then record s { threads = update s.threads u (entry c) } else s)
  turn (advance u spurious) s = move_on u s (step moved_from spurious (s.threads u) s.shared)

  -- Turns one after the other.
  unfoldable pub interleave : List (Turn V) → M (System V) (Unit {0})
  interleave [] s = ok tt s
  interleave (t ∷ ts) s = (do turn t; interleave ts) s

-- The abstract queue, and what the current call of each thread has done to it.
pub record Abstract (V : Type 0) : Type 0 where
  pub queue : List V
  pub phase : ℕ → Phase V

abbrev pub abstract_start : {V : Type 0} → Abstract V
abstract_start = record { queue = []; phase = λ u. nothing }

-- What a call that has ended has done: a store that reports success has appended its value, a pop
-- that has a value has removed it from the front, and any other call has done nothing.
abbrev pub Agrees : {V : Type 0} → Phase V → Pc V → Type 0
Agrees ph missed = ph ≡ nothing
Agrees ph (stored v true) = ph ≡ has_put v
Agrees ph (stored v false) = ph ≡ nothing
Agrees ph (popped v) = ph ≡ has_taken v
Agrees ph _ = Unit

-- What a turn may do to the abstract queue. Its own call begins with nothing done; a step of a thread
-- appends or removes at most one message, and only where its call has not done so before.
abbrev pub Allowed : {V : Type 0} → Turn V → System V → Abstract V → Abstract V → Type 0
Allowed (begin u c) s a a' =
    a' ≡ (if is_done (s.threads u) then record a { phase = update a.phase u nothing } else a)
Allowed {V} (advance u spurious) s a a' =
    (ph : Phase V) × (a'.phase ≡ update a.phase u ph) × Effect (a.phase u) ph a.queue a'.queue

module _ {V : Type 0} (moved_from : V → V) where
  -- The turns `ts` from the system `s` do nothing undefined, and are explained by changes of the
  -- abstract queue, each made in one step of the call that it belongs to.
  abbrev pub Linearizes : System V → Abstract V → List (Turn V) → Type 0
  Linearizes s a [] = Unit
  Linearizes s a (t ∷ ts) =
      (s' : System V) × (a' : Abstract V) × (turn moved_from t s ≡ ok tt s')
      × Allowed t s a a'
      × ((u : ℕ) → Agrees (a'.phase u) (s'.threads u))
      × Linearizes s' a' ts
